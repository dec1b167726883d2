-- ===== src/Server/Requests/Served.antt =====
-- What holds of the sidecar after any requests.
use skialith.Common.{
  ℕ, ◌/◌, ◌≤◌, ◌≡◌, refl, ◌∙◌, ◌⊎◌, inl, inr, String, some, List, [], ◌∷◌, Result, ok, err,
  Result-cases,
}
use skialith.External.JetStream.{Acknowledges}
use skialith.Limits.Limiter.{look}
use skialith.Limits.Sleep.{IsSteady}
use skialith.Trace.Table.{TraceRow, TraceTable}
use skialith.Trace.Keyed.{IsKeyed, newest, columns}
use skialith.Resurrection.{state_of_row, resume_agent}
use skialith.Store.Mpsc.{Delivers}
use skialith.Store.SaveEvent.{Services, ErrorOf, publish_and_enqueue}
use skialith.Store.SaveEvent.Branches.{publish_and_enqueue-Saved}
use skialith.Store.SaveEvent.Returns.{save_event_slot, publish_and_enqueue-limiter}
use skialith.Store.SaveEvent.WriteAhead.{WriteAhead, WriteAhead-Saved, grown}
use skialith.Server.{
  ApiError, SaveEventRequest, CheckpointRequest, health, internal, AppState, answer, to_value,
  save_event_handler, checkpoint, get_state, response_of, display_store, no_content,
}
use skialith.Server.Checkpoint.{Answered, logged, not_logged, checkpoint-Answered}
use skialith.Server.Requests.{
  Request, health_request, event_request, checkpoint_request, state_request, unrouted, Response,
  with_status, with_state, with_error, by_axum, status_or_error, state_or_error, respond, serve,
}

module _ (v : Services) (t : TraceTable v.json.Value) (Nats : Type 0) where
  open v use {json.{Value}, jet_stream.{stored}, queue.{accepted}}
  open t use {rows}

  -- What a response can be, where the table has `db_rows`.
  abbrev pub Failed : Response Value → Type 0
  Failed r = (text : String) × (r ≡ with_error (internal text))

  abbrev pub Answers : List (TraceRow Value) → Request Value → Response Value → Type 0
  Answers db_rows health_request r = r ≡ with_status 200
  Answers db_rows (event_request agent_id body) r = (r ≡ with_status 204) ⊎ Failed r
  Answers db_rows (checkpoint_request agent_id body) r = (r ≡ with_status 204) ⊎ Failed r
  Answers db_rows (state_request agent_id) r =
      (r
        ≡ with_state
            (response_of (state_of_row v.json agent_id (columns (newest agent_id db_rows)))))
      ⊎ Failed r
  Answers db_rows unrouted r = r ≡ by_axum

  abbrev pub AllAnswer :
      List (TraceRow Value) → List (Request Value) → List (Response Value) → Type 0
  AllAnswer db_rows [] [] = Unit {0}
  AllAnswer db_rows [] (r ∷ rs) = ⊥
  AllAnswer db_rows (q ∷ qs) [] = ⊥
  AllAnswer db_rows (q ∷ qs) (r ∷ rs) = Answers db_rows q r × AllAnswer db_rows qs rs

  -- A state of the sidecar between two requests: the queue is in the log, the window of the limiter does
  -- not lie in the future, and the table is `db_rows`.
  pub record Sound (now : ℕ → ℕ → ℕ) (db_rows : List (TraceRow Value)) (app : AppState v t Nats)
      : Type 0 where
    pub write_ahead : WriteAhead v app.store
    pub in_window : app.store.rate_limiter.window_start ≤ look now app.store.clock / 1000
    pub same_rows : rows app.tidb ≡ db_rows

  abbrev Responds :
      (ℕ → ℕ → ℕ) → ℕ → List (TraceRow Value) → Request Value → AppState v t Nats → Type 0
  Responds now rate_limit db_rows q app =
      (r : Response Value) × (app' : AppState v t Nats) × (respond v t Nats 2 now rate_limit q app
        ≡ some (r, app'))
      × Answers db_rows q r
      × Sound now db_rows app'

  pub saved_or_Failed :
      (r : Result (ErrorOf v) (Unit {0}))
      → let a = status_or_error v t Nats (answer v t Nats display_store no_content r) in
        (a ≡ with_status 204) ⊎ Failed a
  saved_or_Failed (ok u) = inl refl
  saved_or_Failed (err e) = inr (display_store e, refl)

  pub state_answer :
      (keyed : IsKeyed t) (db_rows : List (TraceRow Value)) (agent_id : String)
      (app : AppState v t Nats)
      → rows app.tidb ≡ db_rows
      → Answers db_rows
          (state_request agent_id)
          (state_or_error v t Nats (get_state v t Nats agent_id app).0)
  unfolding get_state resume_agent
  state_answer keyed db_rows agent_id app same =
      elim (Result-cases (t.fetch_optional agent_id app.tidb).0) [
        | inr (e, h) ↦ rw h (inr (_, refl))
        | inl (o, h) ↦ rw (h, keyed.fetch_ok agent_id app.tidb o h, same) (inl refl)
      ]

  module _ (acks : Acknowledges v.jet_stream) (delivers : Delivers v.queue) (keyed : IsKeyed t)
      (now : ℕ → ℕ → ℕ) (steady : IsSteady now) (rate_limit : ℕ)
      (db_rows : List (TraceRow Value)) where
    event-Responds :
        (agent_id : String) (body : SaveEventRequest Value) (app : AppState v t Nats)
        → Sound now db_rows app
        → Responds now rate_limit db_rows (event_request agent_id body) app
    unfolding respond save_event_handler
    event-Responds agent_id body app sound =
        let (slot, e, js, queue, window) =
          save_event_slot v (to_value v t Nats) now rate_limit agent_id body.event_id body.payload
            app.store steady sound.in_window in
        let out = publish_and_enqueue v agent_id body.event_id (ok body.payload) slot in
        let same = publish_and_enqueue-limiter v agent_id body.event_id (ok body.payload) slot in
        (
          status_or_error v t Nats (answer v t Nats display_store no_content out.0),
          record app { store = out.1 },
          rw e refl,
          saved_or_Failed out.0,
          record {
            write_ahead =
                WriteAhead-Saved v agent_id body.event_id (ok body.payload) slot out.1 out.0
                  (publish_and_enqueue-Saved v agent_id body.event_id (ok body.payload) acks
                    delivers slot)
                  (rw (js, queue) sound.write_ahead);
            in_window = rw (same.0, same.1) window;
            same_rows = sound.same_rows;
          },
        )

    checkpoint_answer :
        (agent_id : String) (body : CheckpointRequest Value) (app app' : AppState v t Nats)
        (r : Result ApiError ℕ)
        → Answered v t Nats agent_id body app app' r
        → Answers db_rows (checkpoint_request agent_id body) (status_or_error v t Nats r)
    unfolding internal
    checkpoint_answer agent_id body app app' _ (logged _) = inl refl
    checkpoint_answer agent_id body app app' _ (not_logged _) =
        inr ("jetstream publish failed", refl)

    checkpoint_log :
        (agent_id : String) (body : CheckpointRequest Value) (app app' : AppState v t Nats)
        (r : Result ApiError ℕ)
        → Answered v t Nats agent_id body app app' r
        → app'.store.enqueue_tx ≡ app.store.enqueue_tx
        → WriteAhead v app.store
        → WriteAhead v app'.store
    checkpoint_log agent_id body app app' _ (logged took) same h =
        rw same (grown v (stored app.store.js) (stored app'.store.js) _ _ took h)
    checkpoint_log agent_id body app app' _ (not_logged (inl kept)) same h = rw (same, kept) h
    checkpoint_log agent_id body app app' _ (not_logged (inr took)) same h =
        rw same (grown v (stored app.store.js) (stored app'.store.js) _ _ took h)

    checkpoint-Responds :
        (agent_id : String) (body : CheckpointRequest Value) (app : AppState v t Nats)
        → Sound now db_rows app
        → Responds now rate_limit db_rows (checkpoint_request agent_id body) app
    unfolding respond checkpoint
    checkpoint-Responds agent_id body app sound =
        let out = checkpoint v t Nats agent_id body app in
        let (answered, _, queue, _) = checkpoint-Answered v t Nats acks agent_id body app in
        (
          status_or_error v t Nats out.0,
          out.1,
          refl,
          checkpoint_answer agent_id body app out.1 out.0 answered,
          record {
            write_ahead =
                checkpoint_log agent_id body app out.1 out.0 answered queue sound.write_ahead;
            in_window = sound.in_window;
            same_rows = sound.same_rows;
          },
        )

    state-Responds :
        (agent_id : String) (app : AppState v t Nats)
        → Sound now db_rows app
        → Responds now rate_limit db_rows (state_request agent_id) app
    unfolding respond get_state resume_agent
    state-Responds agent_id app sound =
        let out = get_state v t Nats agent_id app in
        (
          state_or_error v t Nats out.0,
          out.1,
          refl,
          state_answer keyed db_rows agent_id app sound.same_rows,
          record {
            write_ahead = sound.write_ahead;
            in_window = sound.in_window;
            same_rows = keyed.rows-fetch agent_id app.tidb ∙ sound.same_rows;
          },
        )

    Responds-request :
        (q : Request Value) (app : AppState v t Nats)
        → Sound now db_rows app
        → Responds now rate_limit db_rows q app
    unfolding respond health
    Responds-request health_request app sound = (_, app, refl, refl, sound)
    Responds-request (event_request agent_id body) app sound =
        event-Responds agent_id body app sound
    Responds-request (checkpoint_request agent_id body) app sound =
        checkpoint-Responds agent_id body app sound
    Responds-request (state_request agent_id) app sound = state-Responds agent_id app sound
    Responds-request unrouted app sound = (_, app, refl, refl, sound)

    -- The sidecar answers every request of any sequence, on a clock that is not set back; its answers
    -- are those of the routes; the queue of events stays in the log; and the table is never written: so
    -- every state that it answers is the one that the table had for the agent before all requests,
    -- whatever events and checkpoints came between.
    pub serve-Sound :
        (requests : List (Request Value)) (app : AppState v t Nats)
        → Sound now db_rows app
        → (rs : List (Response Value)) × (app' : AppState v t Nats) × (serve v t Nats 2 now
              rate_limit requests app
            ≡ some (rs, app'))
          × AllAnswer db_rows requests rs
          × Sound now db_rows app'
    unfolding serve
    serve-Sound [] app sound = ([], app, refl, tt, sound)
    serve-Sound (q ∷ qs) app sound =
        let (r, app1, e, right, sound1) = Responds-request q app sound in
        let (rs, app2, e2, rights, sound2) = serve-Sound qs app1 sound1 in
        (r ∷ rs, app2, rw (e, serve) (rw e2 refl), (right, rights), sound2)
