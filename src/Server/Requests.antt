-- ===== src/Server/Requests.antt =====
-- The routes of the sidecar, and the requests that it answers, one after another.
pub mod Served
use skialith.Common.{ℕ, String, Option, none, some, List, [], ◌∷◌, Result, ok, err}
use skialith.Trace.Table.{TraceTable}
use skialith.Store.SaveEvent.{Services}
use skialith.Server.{
  ApiError, SaveEventRequest, CheckpointRequest, health, AppState, save_event_handler, checkpoint,
  get_state, AgentStateResponse,
}

-- A request as axum hands it over: a route that matched, with the path and the body extracted; or
-- one that axum answers itself (no route, another method, a body that is refused).
pub data Request (Value : Type 0) : Type 0 where
  health_request : Request Value
  event_request : (agent_id : String) → SaveEventRequest Value → Request Value
  checkpoint_request : (agent_id : String) → CheckpointRequest Value → Request Value
  state_request : (agent_id : String) → Request Value
  unrouted : Request Value

pub data Response (Value : Type 0) : Type 0 where
  with_status : ℕ → Response Value
  with_state : AgentStateResponse Value → Response Value
  with_error : ApiError → Response Value
  by_axum : Response Value

module _ (v : Services) (t : TraceTable v.json.Value) (Nats : Type 0) where
  open v use {json.{Value}}

  abbrev pub App : Type 0
  App = AppState v t Nats

  abbrev pub status_or_error : Result ApiError ℕ → Response Value
  status_or_error (ok status) = with_status status
  status_or_error (err e) = with_error e

  abbrev pub state_or_error : Result ApiError (AgentStateResponse Value) → Response Value
  state_or_error (ok state) = with_state state
  state_or_error (err e) = with_error e

  abbrev pub handled : Option (Result ApiError ℕ × App) → Option (Response Value × App)
  handled none = none
  handled (some (r, app)) = some (status_or_error r, app)

  -- The handler that the router calls. `none`: the rate limiter has not returned within the fuel.
  unfoldable pub respond : ℕ → (ℕ → ℕ → ℕ) → ℕ → Request Value → App → Option (Response Value × App)
  unfolding save_event_handler checkpoint get_state health
  respond fuel now rate_limit health_request app = some (with_status health, app)
  respond fuel now rate_limit (event_request agent_id body) app =
      handled (save_event_handler v t Nats fuel now rate_limit agent_id body app)
  respond fuel now rate_limit (checkpoint_request agent_id body) app =
      let r = checkpoint v t Nats agent_id body app in some (status_or_error r.0, r.1)
  respond fuel now rate_limit (state_request agent_id) app =
      let r = get_state v t Nats agent_id app in some (state_or_error r.0, r.1)
  respond fuel now rate_limit unrouted app = some (by_axum, app)

  abbrev before_rest :
      Response Value → Option (List (Response Value) × App) → Option (List (Response Value) × App)
  before_rest r none = none
  before_rest r (some (rs, app)) = some (r ∷ rs, app)

  -- `axum::serve`, over the requests that come.
  unfoldable pub serve :
      ℕ → (ℕ → ℕ → ℕ) → ℕ → List (Request Value) → App → Option (List (Response Value) × App)
  unfolding respond
  serve fuel now rate_limit [] app = some ([], app)
  serve fuel now rate_limit (request ∷ requests) app =
      elim (respond fuel now rate_limit request app) [
        | none ↦ none
        | some (r, app') ↦ before_rest r (serve fuel now rate_limit requests app')
      ]
