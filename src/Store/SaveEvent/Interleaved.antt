-- ===== src/Store/SaveEvent/Interleaved.antt =====
-- `save_event` run by many tasks at once on the clones of one store, behind the rate limiter: a task
-- stops at each `await`, and the others go on meanwhile.
pub mod Logged
pub mod Alone
use skialith.Common.{ℕ, ◌≡◌, String, List, [], ◌∷◌, Result, ok, err, map_err, update}
use skialith.External.JetStream.{Message}
use skialith.Store.Events.{PendingEvent}
use skialith.Store.SaveEvent.{
  Services, StateOf, ErrorOf, serialize, jet_stream_publish, envelope, accepted_or_closed,
  message_of, pending_of,
}
use skialith.Store.SaveEvent.WriteAhead.{Call}

module _ (v : Services) where
  open v use {
    json.{Value, to_vec},
    jet_stream.{AckFuture, PublishError, publish, await_ack},
    queue.{send},
  }

  -- Where a call stands, with the local variables that are live there.
  pub data Pc : Type 0 where
    ready : Call v → Pc  -- has its slot
    awaiting : (agent_id event_id : String) (payload : Value) → AckFuture → Pc  -- `ack.await`
    sending : (agent_id event_id : String) (payload : Value) → Pc  -- `enqueue_tx.send(..).await`
    returned : Call v → Result (ErrorOf v) (Unit {0}) → Pc

  abbrev pub payload_json : String → String → Value → List ℕ
  payload_json agent_id event_id payload = to_vec (envelope v agent_id event_id payload)

  abbrev pub message : String → String → Value → Message
  message agent_id event_id payload = message_of v agent_id (payload_json agent_id event_id payload)

  abbrev pub pending : String → String → Value → PendingEvent
  pending agent_id event_id payload =
      pending_of v agent_id event_id (payload_json agent_id event_id payload)

  abbrev pub with_js : StateOf v → v.jet_stream.Js → StateOf v
  with_js s js = record s { js = js }

  pub data Move (s : StateOf v) : Pc → StateOf v → Pc → Type 0 where
    serialize_fails :
        (a e : String) (x : v.json.Error)
        → Move s (ready (a, e, err x)) s (returned (a, e, err x) (err (serialize x)))
    publish_fails :
        (a e : String) (p : Value) (x : PublishError)
        → (publish (message a e p) s.js).0 ≡ err x
        → Move s
            (ready (a, e, ok p))
            (with_js s (publish (message a e p) s.js).1)
            (returned (a, e, ok p) (err (jet_stream_publish x)))
    publishes :
        (a e : String) (p : Value) (f : AckFuture)
        → (publish (message a e p) s.js).0 ≡ ok f
        → Move s
            (ready (a, e, ok p))
            (with_js s (publish (message a e p) s.js).1)
            (awaiting a e p f)
    ack_fails :
        (a e : String) (p : Value) (f : AckFuture) (x : PublishError)
        → (await_ack f s.js).0 ≡ err x
        → Move s
            (awaiting a e p f)
            (with_js s (await_ack f s.js).1)
            (returned (a, e, ok p) (err (jet_stream_publish x)))
    acknowledged :
        (a e : String) (p : Value) (f : AckFuture)
        → (await_ack f s.js).0 ≡ ok tt
        → Move s (awaiting a e p f) (with_js s (await_ack f s.js).1) (sending a e p)
    sends :
        (a e : String) (p : Value)
        → Move s
            (sending a e p)
            (record s { enqueue_tx = (send (pending a e p) s.enqueue_tx).1 })
            (returned (a, e, ok p) (accepted_or_closed v (send (pending a e p) s.enqueue_tx).0))

  pub record System : Type 0 where
    pub store : StateOf v
    pub pc : ℕ → Pc

  pub data Step (s : System) : System → Type 0 where
    run :
        (i : ℕ) {store : StateOf v} {p : Pc}
        → Move s.store (s.pc i) store p
        → Step s (record { store = store; pc = update s.pc i p })

  abbrev pub called : (ℕ → Call v) → StateOf v → System
  called calls store = record { store = store; pc = λ i. ready (calls i) }

  pub data Reach (calls : ℕ → Call v) (store : StateOf v) : System → Type 0 where
    start : Reach calls store (called calls store)
    next : {s t : System} → Reach calls store s → Step s t → Reach calls store t
