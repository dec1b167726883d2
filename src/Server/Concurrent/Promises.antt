-- ===== src/Server/Concurrent/Promises.antt =====
-- What a request knows of the store while it is on its way, and what its answer promises.
use skialith.Common.{ℕ, ◌≡◌, subst, List}
use skialith.Trace.Table.{TraceRow, TraceTable}
use skialith.Limits.Interleaved.{SeenFree}
use skialith.Store.SaveEvent.{Services, StateOf}
use skialith.Store.SaveEvent.WriteAhead.{Contains}
use skialith.Store.SaveEvent.Interleaved.{message, pending}
use skialith.Store.SaveEvent.Interleaved.Logged.{
  InQueue, InQueue-Grows, Contains-Grows, Knows, Knows-Grows, Grows,
}
use skialith.Server.Checkpoint.{checkpoint_message}
use skialith.Server.Requests.{
  Request, health_request, event_request, checkpoint_request, state_request, unrouted, Response,
  with_status, with_state, with_error, by_axum,
}
use skialith.Server.Requests.Served.{Answers}
use skialith.Server.Concurrent.{
  Task, arrived, limiting, saving, acknowledging, answered, dropped, abandoned, request_of,
}

module _ (v : Services) (t : TraceTable v.json.Value) (Nats : Type 0) where
  open v use {json.{Value}, jet_stream.{stored, sent}, queue.{accepted}}

  -- What a status promises: the event in the log and in the queue, the checkpoint in the log.
  abbrev pub Durable : StateOf v → Request Value → Response Value → Type 0
  Durable s (event_request a b) (with_status n) =
      Contains (stored s.js) (message v a b.event_id b.payload)
      × InQueue v (accepted s.enqueue_tx) (pending v a b.event_id b.payload)
  Durable s (checkpoint_request a b) (with_status n) =
      Contains (stored s.js) (checkpoint_message v t Nats a b)
  Durable s q r = Unit {0}

  Durable-Grows :
      {s s' : StateOf v} (q : Request Value) (r : Response Value)
      → Grows v s s'
      → Durable s q r
      → Durable s' q r
  Durable-Grows (event_request a b) (with_status n) g h =
      (Contains-Grows v _ g h.0, InQueue-Grows v _ g h.1)
  Durable-Grows (event_request a b) (with_state x) g h = tt
  Durable-Grows (event_request a b) (with_error x) g h = tt
  Durable-Grows (event_request a b) by_axum g h = tt
  Durable-Grows (checkpoint_request a b) (with_status n) g h = Contains-Grows v _ g h
  Durable-Grows (checkpoint_request a b) (with_state x) g h = tt
  Durable-Grows (checkpoint_request a b) (with_error x) g h = tt
  Durable-Grows (checkpoint_request a b) by_axum g h = tt
  Durable-Grows health_request r g h = tt
  Durable-Grows (state_request a) r g h = tt
  Durable-Grows unrouted r g h = tt

  module _ (limit : ℕ) (db_rows : List (TraceRow Value)) where
    -- What a task knows of the store.
    abbrev pub TaskKnows : StateOf v → Task v t Nats → Type 0
    TaskKnows s (arrived q) = Unit {0}
    TaskKnows s (limiting a b p) = SeenFree limit p
    TaskKnows s (saving p) = Knows v s p
    TaskKnows s (acknowledging a b f) = sent f ≡ checkpoint_message v t Nats a b
    TaskKnows s (answered q r) = Answers v t Nats db_rows q r × Durable s q r
    TaskKnows s (dropped q) = Unit {0}
    TaskKnows s (abandoned q f) = Unit {0}

    pub TaskKnows-Grows :
        {s s' : StateOf v} (p : Task v t Nats) → Grows v s s' → TaskKnows s p → TaskKnows s' p
    TaskKnows-Grows (arrived q) g h = h
    TaskKnows-Grows (limiting a b p) g h = h
    TaskKnows-Grows (saving p) g h = Knows-Grows v p g h
    TaskKnows-Grows (acknowledging a b f) g h = h
    TaskKnows-Grows (answered q r) g h = (h.0, Durable-Grows q r g h.1)
    TaskKnows-Grows (dropped q) g h = h
    TaskKnows-Grows (abandoned q f) g h = h

    -- A request that has been answered: its route's answer, and what that promises.
    abbrev pub Served : StateOf v → Request Value → Task v t Nats → Type 0
    Served s q (answered _ r) = Answers v t Nats db_rows q r × Durable s q r
    Served s q _ = Unit {0}

    pub served :
        (s : StateOf v) (q : Request Value) (p : Task v t Nats)
        → request_of v t Nats p ≡ q
        → TaskKnows s p
        → Served s q p
    served s q (arrived q') e k = tt
    served s q (limiting a b p) e k = tt
    served s q (saving p) e k = tt
    served s q (acknowledging a b f) e k = tt
    served s q (answered q' r) e k = subst (λ x. Answers v t Nats db_rows x r × Durable s x r) e k
    served s q (dropped q') e k = tt
    served s q (abandoned q' f) e k = tt
