-- ===== src/Server/Concurrent/Enqueued.antt =====
-- The queue of the batch writer under requests that overlap: what each of them puts there.
use mathlib.Core.List.{append_assoc, append-nil}
use skialith.Common.{
  ℕ, ◌≡◌, refl, sym, ap, ◌∙◌, subst, String, Bool, true, false, List, [], ◌∷◌, ◌++◌, Result, ok,
  err,
}
use skialith.Trace.Table.{TraceTable}
use skialith.Store.Events.{PendingEvent}
use skialith.Store.Mpsc.{Delivers}
use skialith.Store.SaveEvent.{Services, StateOf, ErrorOf, accepted_or_closed}
use skialith.Store.SaveEvent.Interleaved.{
  Pc as StorePc, Move as StoreMove, ready, awaiting, sending, returned, pending, serialize_fails,
  publish_fails, publishes, ack_fails, acknowledged as log_acknowledged, sends,
}
use skialith.Server.{get_state}
use skialith.Server.Requests.{Request, event_request, with_status, App}
use skialith.Server.Concurrent.{
  Task, arrived, limiting, saving, acknowledging, answered, dropped, abandoned, AtAwait, request_of,
  saved, Move, answers_health, not_routed, waits, not_limited, in_limiter, admitted, in_store,
  responds, not_published, published, acknowledged, resumed, time_passes, leaves_event,
  leaves_checkpoint, lands, goes_away,
}

module _ (v : Services) (t : TraceTable v.json.Value) (Nats : Type 0) where
  open v use {json.{Value}, queue.{accepted}}

  -- What a request is worth in the queue.
  abbrev pub event_of : Request Value → List PendingEvent
  event_of (event_request a b) = pending v a b.event_id b.payload ∷ []
  event_of q = []

  abbrev pub events_of : (ℕ → Request Value) → List ℕ → List PendingEvent
  events_of requests [] = []
  events_of requests (i ∷ is) = event_of (requests i) ++ events_of requests is

  pub events_of-snoc :
      (requests : ℕ → Request Value) (is : List ℕ) (i : ℕ)
      → events_of requests (is ++ i ∷ []) ≡ events_of requests is ++ event_of (requests i)
  events_of-snoc requests [] i = append-nil (event_of (requests i))
  events_of-snoc requests (k ∷ is) i =
      ap (λ l. event_of (requests k) ++ l) (events_of-snoc requests is i)
      ∙ sym (append_assoc (event_of (requests k)) (events_of requests is) (event_of (requests i)))

  -- The tasks that have been at the queue.
  abbrev pub PastQueue : Task v t Nats → Type 0
  PastQueue (saving (returned c r)) = Unit {0}
  PastQueue (answered q r) = Unit {0}
  PastQueue _ = ⊥

  -- The tasks whose event was accepted.
  abbrev pub Accepted : Task v t Nats → Type 0
  Accepted (saving (returned c (ok u))) = Unit {0}
  Accepted (answered (event_request a b) (with_status n)) = Unit {0}
  Accepted _ = ⊥

  -- What a move does to the queue.
  pub data Queued (s s' : StateOf v) (p p' : Task v t Nats) : Type 0 where
    kept :
        accepted s'.enqueue_tx ≡ accepted s.enqueue_tx
        → (PastQueue p → PastQueue p')
        → (Accepted p' → Accepted p)
        → Queued s s' p p'
    enqueued :
        accepted s'.enqueue_tx ≡ accepted s.enqueue_tx ++ event_of (request_of v t Nats p')
        → ¬ PastQueue p
        → PastQueue p'
        → Queued s s' p p'

  AtAwait-not-PastQueue : (p : Task v t Nats) → AtAwait v t Nats p → ¬ PastQueue p
  AtAwait-not-PastQueue (arrived q) h k = k
  AtAwait-not-PastQueue (limiting a b p) h k = k
  AtAwait-not-PastQueue (saving (ready c)) h k = k
  AtAwait-not-PastQueue (saving (awaiting a e p f)) h k = k
  AtAwait-not-PastQueue (saving (sending a e p)) h k = k
  AtAwait-not-PastQueue (saving (returned c r)) h k = h
  AtAwait-not-PastQueue (acknowledging a b f) h k = k
  AtAwait-not-PastQueue (answered q r) h k = h
  AtAwait-not-PastQueue (dropped q) h k = h
  AtAwait-not-PastQueue (abandoned q f) h k = h

  module _ (delivers : Delivers v.queue) where
    Queued-sends :
        (a e : String) (x : Value) (s : StateOf v) (b : Bool) (c : _)
        → v.queue.send (pending v a e x) s.enqueue_tx ≡ (b, c)
        → Queued s
            (record s { enqueue_tx = c })
            (saving (sending a e x))
            (saving (returned (a, e, ok x) (accepted_or_closed v b)))
    Queued-sends a e x s true c h =
        enqueued
          (subst (λ r. accepted r.1 ≡ accepted s.enqueue_tx ++ pending v a e x ∷ []) h
            (delivers.send_ok (pending v a e x) s.enqueue_tx (ap (λ r. r.0) h)))
          (λ k. k) tt
    Queued-sends a e x s false c h =
        kept
          (subst (λ r. accepted r.1 ≡ accepted s.enqueue_tx) h
            (delivers.send_closed (pending v a e x) s.enqueue_tx (ap (λ r. r.0) h)))
          (λ k. tt) (λ k. k)

    Queued-StoreMove :
        {s s' : StateOf v} {p p' : StorePc v}
        → StoreMove v s p s' p'
        → Queued s s' (saving p) (saving p')
    Queued-StoreMove (serialize_fails a e x) = kept refl (λ k. tt) (λ k. k)
    Queued-StoreMove (publish_fails a e p x h) = kept refl (λ k. tt) (λ k. k)
    Queued-StoreMove (publishes a e p f h) = kept refl (λ k. k) (λ k. k)
    Queued-StoreMove (ack_fails a e p f x h) = kept refl (λ k. tt) (λ k. k)
    Queued-StoreMove (log_acknowledged a e p f h) = kept refl (λ k. k) (λ k. k)
    Queued-StoreMove {s} (sends a e p) = Queued-sends a e p s _ _ refl

    Accepted-saved :
        (a e : String) (x : Value) (b : _) (r : Result (ErrorOf v) (Unit {0}))
        → Accepted (answered (event_request a b) (saved v t Nats r))
        → Accepted (saving (returned (a, e, ok x) r))
    Accepted-saved a e x b (ok u) h = tt
    Accepted-saved a e x b (err y) h = h

    pub Queued-Move :
        {limit : ℕ} {app app' : App v t Nats} {p p' : Task v t Nats}
        → Move v t Nats limit app p app' p'
        → Queued app.store app'.store p p'
    unfolding get_state
    Queued-Move answers_health = kept refl (λ k. tt) (λ k. k)
    Queued-Move not_routed = kept refl (λ k. tt) (λ k. k)
    Queued-Move (waits a b) = kept refl (λ k. k) (λ k. k)
    Queued-Move (not_limited a b h) = kept refl (λ k. k) (λ k. k)
    Queued-Move (in_limiter a b mv) = kept refl (λ k. k) (λ k. k)
    Queued-Move (admitted a b s) = kept refl (λ k. k) (λ k. k)
    Queued-Move (in_store mv) = Queued-StoreMove mv
    Queued-Move (responds a e x r) =
        kept refl (λ k. tt) (Accepted-saved a e x (record { event_id = e; payload = x }) r)
    Queued-Move (not_published a b x h) = kept refl (λ k. tt) (λ k. k)
    Queued-Move (published a b f h) = kept refl (λ k. k) (λ k. k)
    Queued-Move (acknowledged a b f) = kept refl (λ k. tt) (λ k. k)
    Queued-Move (resumed a) = kept refl (λ k. tt) (λ k. k)
    Queued-Move (time_passes p m) = kept refl (λ k. k) (λ k. k)
    Queued-Move (leaves_event a e x f) = kept refl (λ k. k) (λ k. k)
    Queued-Move (leaves_checkpoint a b f) = kept refl (λ k. k) (λ k. k)
    Queued-Move (lands q f) = kept refl (λ k. k) (λ k. k)
    Queued-Move (goes_away p h) =
        kept refl (λ k. absurd (AtAwait-not-PastQueue p h k)) (λ k. elim k [ ])
