-- ===== src/Server/Concurrent.antt =====
-- The sidecar under requests that overlap: axum runs each in a task of its own, which stops at every
-- `await` and, in the limiter, between any two accesses of the shared atomics; and a task is dropped
-- at an `await` when its client goes away. A message that it has sent by then is lost, or reaches the
-- log at some later time, with nobody left to see the acknowledgement.

pub mod Promises
pub mod Kept
pub mod Enqueued
pub mod EnqueuedOnce
pub mod Moved
pub mod Sound
pub mod Alone
use skialith.Common.{ℕ, ◌≡◌, String, List, [], ◌∷◌, Result, ok, err, map_err, update}
use skialith.External.JetStream.{Message}
use skialith.Trace.Table.{TraceTable}
use skialith.Limits.{u32_max}
use skialith.Limits.Limiter.{RateLimiter, Meter}
use skialith.Limits.Interleaved.{Pc as LimiterPc, Move as LimiterMove, top, asleep, granted}
use skialith.Store.SaveEvent.{Services, StateOf, ErrorOf}
use skialith.Store.SaveEvent.Interleaved.{
  Pc as StorePc, Move as StoreMove, ready, awaiting, sending, returned, with_js,
}
use skialith.Manager.{ManagerError}
use skialith.Manager
use skialith.Server.{
  ApiError, SaveEventRequest, CheckpointRequest, checkpoint_payload, health, AppState, answer,
  display_store, display_manager, no_content, get_state,
}
use skialith.Server.Checkpoint.{checkpoint_message}
use skialith.Server.Requests.{
  Request, health_request, event_request, checkpoint_request, state_request, unrouted, Response,
  with_status, with_state, with_error, by_axum, App, status_or_error, state_or_error,
}

module _ (v : Services) (t : TraceTable v.json.Value) (Nats : Type 0) where
  open v use {json.{Value, to_vec}, jet_stream.{AckFuture, PublishError, publish, await_ack}}

  -- Where a request stands, with the local variables that are live there.
  pub data Task : Type 0 where
    arrived : Request Value → Task
    limiting : String → SaveEventRequest Value → LimiterPc → Task  -- in `RateLimiter::wait`
    saving : StorePc v → Task  -- in `SkialithStore::save_event`, behind the limiter
    acknowledging : String → CheckpointRequest Value → AckFuture → Task  -- in `checkpoint_state`
    answered : Request Value → Response Value → Task
    dropped : Request Value → Task
    abandoned : Request Value → AckFuture → Task  -- dropped, with its message still under way

  -- The tasks that can be dropped: one that has not begun, or is at an `await`.
  abbrev pub AtAwait : Task → Type 0
  AtAwait (arrived q) = Unit {0}
  AtAwait (limiting a b asleep) = Unit {0}
  AtAwait (limiting a b p) = ⊥
  AtAwait (saving (returned c r)) = ⊥
  AtAwait (saving p) = Unit {0}
  AtAwait (acknowledging a b f) = Unit {0}
  AtAwait (answered q r) = ⊥
  AtAwait (dropped q) = ⊥
  AtAwait (abandoned q f) = ⊥

  abbrev pub request_of_store : StorePc v → Request Value
  request_of_store (ready (a, e, ok p)) = event_request a (record { event_id = e; payload = p })
  request_of_store (ready (a, e, err x)) = unrouted
  request_of_store (awaiting a e p f) = event_request a (record { event_id = e; payload = p })
  request_of_store (sending a e p) = event_request a (record { event_id = e; payload = p })
  request_of_store (returned (a, e, ok p) r) =
      event_request a (record { event_id = e; payload = p })
  request_of_store (returned (a, e, err x) r) = unrouted

  abbrev pub request_of : Task → Request Value
  request_of (arrived q) = q
  request_of (limiting a b p) = event_request a b
  request_of (saving p) = request_of_store p
  request_of (acknowledging a b f) = checkpoint_request a b
  request_of (answered q r) = q
  request_of (dropped q) = q
  request_of (abandoned q f) = q

  abbrev pub with_limiter : App v t Nats → RateLimiter → App v t Nats
  with_limiter app r = record app { store = record app.store { rate_limiter = r } }

  abbrev pub with_clock : App v t Nats → Meter → App v t Nats
  with_clock app m = record app { store = record app.store { clock = m } }

  abbrev pub with_log : App v t Nats → v.jet_stream.Js → App v t Nats
  with_log app js = record app { store = with_js v app.store js }

  abbrev pub with_store : App v t Nats → StateOf v → App v t Nats
  with_store app store = record app { store = store }

  abbrev pub saved : Result (ErrorOf v) (Unit {0}) → Response Value
  saved r = status_or_error v t Nats (answer v t Nats display_store no_content r)

  abbrev pub checkpointed : Result PublishError (Unit {0}) → Response Value
  checkpointed r = status_or_error v t Nats (
      answer v t Nats {E = ManagerError v.json v.jet_stream Nats} display_manager no_content
        (map_err Manager.publish r))

  pub data Move (limit : ℕ) (app : App v t Nats) : Task → App v t Nats → Task → Type 0 where
    answers_health :
        Move limit app (arrived health_request) app (answered health_request (with_status health))
    not_routed : Move limit app (arrived unrouted) app (answered unrouted by_axum)
    waits :
        (a : String) (b : SaveEventRequest Value)
        → Move limit app (arrived (event_request a b)) app (limiting a b top)
    not_limited :
        (a : String) (b : SaveEventRequest Value)
        → limit ≡ u32_max
        → Move limit app (limiting a b top) app (saving (ready (a, b.event_id, ok b.payload)))
    in_limiter :
        (a : String) (b : SaveEventRequest Value) {p p' : LimiterPc} {r : RateLimiter}
        → LimiterMove limit app.store.rate_limiter p r p'
        → Move limit app (limiting a b p) (with_limiter app r) (limiting a b p')
    admitted :
        (a : String) (b : SaveEventRequest Value) (s : ℕ)
        → Move limit app
            (limiting a b (granted s))
            app
            (saving (ready (a, b.event_id, ok b.payload)))
    in_store :
        {p p' : StorePc v} {store : StateOf v}
        → StoreMove v app.store p store p'
        → Move limit app (saving p) (with_store app store) (saving p')
    responds :
        (a e : String) (x : Value) (r : Result (ErrorOf v) (Unit {0}))
        → Move limit app
            (saving (returned (a, e, ok x) r))
            app
            (answered (event_request a (record { event_id = e; payload = x })) (saved r))
    not_published :
        (a : String) (b : CheckpointRequest Value) (x : PublishError)
        → (publish (checkpoint_message v t Nats a b) app.store.js).0 ≡ err x
        → Move limit app
            (arrived (checkpoint_request a b))
            (with_log app (publish (checkpoint_message v t Nats a b) app.store.js).1)
            (answered (checkpoint_request a b) (checkpointed (err x)))
    published :
        (a : String) (b : CheckpointRequest Value) (f : AckFuture)
        → (publish (checkpoint_message v t Nats a b) app.store.js).0 ≡ ok f
        → Move limit app
            (arrived (checkpoint_request a b))
            (with_log app (publish (checkpoint_message v t Nats a b) app.store.js).1)
            (acknowledging a b f)
    acknowledged :
        (a : String) (b : CheckpointRequest Value) (f : AckFuture)
        → Move limit app
            (acknowledging a b f)
            (with_log app (await_ack f app.store.js).1)
            (answered (checkpoint_request a b) (checkpointed (await_ack f app.store.js).0))
    resumed :
        (a : String)
        → Move limit app
            (arrived (state_request a))
            (get_state v t Nats a app).1
            (answered (state_request a) (state_or_error v t Nats (get_state v t Nats a app).0))
    time_passes : (p : Task) (m : Meter) → Move limit app p (with_clock app m) p
    leaves_event :
        (a e : String) (x : Value) (f : AckFuture)
        → Move limit app
            (saving (awaiting a e x f))
            app
            (abandoned (event_request a (record { event_id = e; payload = x })) f)
    leaves_checkpoint :
        (a : String) (b : CheckpointRequest Value) (f : AckFuture)
        → Move limit app (acknowledging a b f) app (abandoned (checkpoint_request a b) f)
    lands :
        (q : Request Value) (f : AckFuture)
        → Move limit app (abandoned q f) (with_log app (await_ack f app.store.js).1) (dropped q)
    goes_away : (p : Task) → AtAwait p → Move limit app p app (dropped (request_of p))

  pub record System : Type 0 where
    pub app : App v t Nats
    pub task : ℕ → Task

  pub data Step (limit : ℕ) (s : System) : System → Type 0 where
    run :
        (i : ℕ) {app : App v t Nats} {p : Task}
        → Move limit s.app (s.task i) app p
        → Step limit s (record { app = app; task = update s.task i p })

  -- The sidecar before any of its requests has begun.
  abbrev pub listening : (ℕ → Request Value) → App v t Nats → System
  listening requests app = record { app = app; task = λ i. arrived (requests i) }

  pub data Reach (limit : ℕ) (requests : ℕ → Request Value) (app : App v t Nats)
      : System → Type 0 where
    start : Reach limit requests app (listening requests app)
    next :
        {s s' : System} → Reach limit requests app s → Step limit s s' → Reach limit requests app s'
