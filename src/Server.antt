-- ===== src/Server.antt =====
-- src/bin/server.rs: the handlers of the HTTP sidecar, and the texts of the errors that they answer.
pub mod Checkpoint
pub mod Concurrent
pub mod Events
pub mod Recovery
pub mod Requests
pub mod Startup
pub mod Uncaptured
use skialith.Common.{ℕ, String, Option, none, some, List, [], ◌∷◌, Result, ok, err, map_err}
use skialith.Common.Int.{ℤ}
use skialith.Common.Text.{◌<>◌}
use skialith.External.Json.{Json}
use skialith.External.JetStream.{JetStream}
use skialith.Trace.Table.{TraceTable}
use skialith.Store.SaveEvent.{
  SkialithError, serialize, nats_connect, nats_publish, jet_stream_publish, jet_stream, sqlx,
  queue_closed, instance_lock, Services, StoreState, StateOf, ErrorOf, save_event,
}
use skialith.Manager.{AgentManagerError, ManagerError, checkpoint_state}
use skialith.Manager
use skialith.Resurrection.{ResurrectionError, AgentState, resume_agent}

-- The `#[error]` texts.
unfoldable pub display_store : {A B C D E F : Type 0} → SkialithError A B C D E F → String
display_store (serialize _) = "failed to serialize event payload"
display_store (nats_connect _) = "nats connect failed"
display_store (nats_publish _) = "nats publish failed"
display_store (jet_stream_publish _) = "jetstream publish failed"
display_store (jet_stream _) = "jetstream stream error"
display_store (sqlx _) = "tidb write failed"
display_store queue_closed = "event queue is closed"
display_store (instance_lock s) = "instance lock: " <> s

unfoldable pub display_manager : {A B C : Type 0} → AgentManagerError A B C → String
display_manager (Manager.serialize _) = "failed to serialize checkpoint state"
display_manager (Manager.publish _) = "jetstream publish failed"
display_manager (Manager.ack _) = "jetstream ack failed"

unfoldable pub display_resurrection : {A : Type 0} → ResurrectionError A → String
display_resurrection _ = "tidb query failed"

pub record ApiError : Type 0 where
  pub status : ℕ
  pub error : String

unfoldable pub internal : String → ApiError
internal text = record { status = 500; error = text }

-- `SaveEventRequest` and `CheckpointRequest`, parsed by axum.
pub record SaveEventRequest (Value : Type 0) : Type 0 where
  pub event_id : String
  pub payload : Value

pub record CheckpointRequest (Value : Type 0) : Type 0 where
  pub step_index : ℤ
  pub state : Value

pub record AgentStateResponse (Value : Type 0) : Type 0 where
  pub agent_id : String
  pub step_index : ℤ
  pub state : Value

abbrev pub response_of : {Value : Type 0} → AgentState Value → AgentStateResponse Value
response_of agent_state = record {
  agent_id = agent_state.agent_id;
  step_index = agent_state.step_index;
  state = agent_state.state;
}

abbrev pub no_content : ℕ
no_content = 204

unfoldable pub health : ℕ
health = 200

module _ (v : Services) (t : TraceTable v.json.Value) (Nats : Type 0) where
  open v use {json.{Value, object, number}}

  -- `AppState`: the store, the log that the store and the manager reach, and the database.
  pub record AppState : Type 0 where
    pub store : StateOf v
    pub tidb : t.Db

  abbrev pub answer : {E A : Type 0} → (E → String) → ℕ → Result E A → Result ApiError ℕ
  answer display status (ok _) = ok status
  answer display status (err e) = err (internal (display e))

  -- A `serde_json::Value` serialises to itself.
  abbrev pub to_value : Value → Result v.json.Error Value
  to_value x = ok x

  abbrev pub after_save :
      AppState
      → Option (Result (ErrorOf v) (Unit {0}) × StateOf v)
      → Option (Result ApiError ℕ × AppState)
  after_save app none = none
  after_save app (some (r, store)) =
      some (answer display_store no_content r, record app { store = store })

  -- POST /agents/{agent_id}/events. `none`: the rate limiter has not returned within the fuel.
  unfoldable pub save_event_handler :
      ℕ
      → (ℕ → ℕ → ℕ)
      → ℕ
      → String
      → SaveEventRequest Value
      → AppState
      → Option (Result ApiError ℕ × AppState)
  unfolding save_event internal display_store
  save_event_handler fuel now rate_limit agent_id body app =
      after_save app
        (save_event v to_value fuel now rate_limit agent_id body.event_id body.payload app.store)

  unfoldable pub checkpoint_payload : CheckpointRequest Value → Value
  checkpoint_payload body =
      object (("step_index", number body.step_index) ∷ ("state", body.state) ∷ [])

  -- POST /agents/{agent_id}/checkpoint
  unfoldable pub checkpoint :
      String → CheckpointRequest Value → AppState → Result ApiError ℕ × AppState
  unfolding checkpoint_state internal display_manager checkpoint_payload
  checkpoint agent_id body app =
      let published =
        checkpoint_state v.json v.jet_stream Nats agent_id (to_value (checkpoint_payload body))
          app.store.js in
      (
        answer display_manager no_content published.0,
        record app { store = record app.store { js = published.1 } },
      )

  abbrev state_or_error :
      Result (ResurrectionError t.DbError) (AgentState Value)
      → Result ApiError (AgentStateResponse Value)
  state_or_error (ok a) = ok (response_of a)
  state_or_error (err e) = err (internal (display_resurrection e))

  -- GET /agents/{agent_id}/state
  unfoldable pub get_state :
      String → AppState → Result ApiError (AgentStateResponse Value) × AppState
  unfolding resume_agent internal display_resurrection
  get_state agent_id app = (
    state_or_error (resume_agent v.json t agent_id app.tidb).0,
    record app { tidb = (resume_agent v.json t agent_id app.tidb).1 },
  )
