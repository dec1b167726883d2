-- ===== src/Store/SaveEvent/Interleaved/Logged.antt =====
-- The log and the queue, however the calls interleave.
use mathlib.Core.List.{append_assoc}
use skialith.Common.{
  ℕ, ◌≡◌, refl, sym, ap, ◌∙◌, subst, ◌⊎◌, inl, inr, Bool, true, false, String, List, [], ◌∷◌, ◌++◌,
  ok, err, update-all,
}
use skialith.External.JetStream.{Message, Acknowledges}
use skialith.Store.Events.{PendingEvent}
use skialith.Store.Mpsc.{Delivers}
use skialith.Store.SaveEvent.{Services, StateOf, accepted_or_closed}
use skialith.Store.SaveEvent.WriteAhead.{
  Call, WriteAhead, Contains, Contains-snoc, AllLogged-snoc, grown,
}
use skialith.Store.SaveEvent.Interleaved.{
  Pc, ready, awaiting, sending, returned, message, pending, Move, serialize_fails, publish_fails,
  publishes, ack_fails, acknowledged, sends, System, Step, run, Reach, start, next,
}

module _ (v : Services) where
  open v use {json.{Value}, jet_stream.{stored, sent}, queue.{accepted}}

  abbrev pub InQueue : List PendingEvent → PendingEvent → Type 0
  InQueue q ev =
      (before : List PendingEvent) × (after : List PendingEvent) × (q ≡ before ++ ev ∷ after)

  InQueue-snoc :
      (q : List PendingEvent) (ev x : PendingEvent) → InQueue q ev → InQueue (q ++ x ∷ []) ev
  InQueue-snoc q ev x (before, after, e) =
      (before, after ++ x ∷ [], ap (λ l. l ++ x ∷ []) e ∙ append_assoc before (ev ∷ after) (x ∷ []))

  -- What a task knows: what it awaits, what the log has, and, once it has answered `Ok`, that the log and
  -- the queue have its event.
  abbrev pub Knows : StateOf v → Pc v → Type 0
  Knows s (ready c) = Unit {0}
  Knows s (awaiting a e p f) = sent f ≡ message v a e p
  Knows s (sending a e p) = Contains (stored s.js) (message v a e p)
  Knows s (returned (a, e, err x) (err y)) = Unit {0}
  Knows s (returned (a, e, err x) (ok u)) = ⊥
  Knows s (returned (a, e, ok p) (err y)) = Unit {0}
  Knows s (returned (a, e, ok p) (ok u)) =
      Contains (stored s.js) (message v a e p) × InQueue (accepted s.enqueue_tx) (pending v a e p)

  -- A call that has answered `Ok` has its event in the log and in the queue.
  abbrev pub InBoth : StateOf v → Pc v → Type 0
  InBoth s (returned (a, e, ok p) (ok u)) =
      Contains (stored s.js) (message v a e p) × InQueue (accepted s.enqueue_tx) (pending v a e p)
  InBoth s (returned (a, e, err x) (ok u)) = ⊥
  InBoth s _ = Unit {0}

  InBoth-Knows : (s : StateOf v) (p : Pc v) → Knows s p → InBoth s p
  InBoth-Knows s (ready c) k = tt
  InBoth-Knows s (awaiting a e p f) k = tt
  InBoth-Knows s (sending a e p) k = tt
  InBoth-Knows s (returned (a, e, err x) (err y)) k = tt
  InBoth-Knows s (returned (a, e, err x) (ok u)) k = k
  InBoth-Knows s (returned (a, e, ok p) (err y)) k = tt
  InBoth-Knows s (returned (a, e, ok p) (ok u)) k = k

  -- The log and the queue only grow, each by one at a time.
  pub record Grows (s s' : StateOf v) : Type 0 where
    pub log :
        (stored s'.js ≡ stored s.js) ⊎ ((m : Message) × (stored s'.js ≡ stored s.js ++ m ∷ []))
    pub enqueued :
        (accepted s'.enqueue_tx ≡ accepted s.enqueue_tx)
        ⊎ ((ev : PendingEvent) × (accepted s'.enqueue_tx ≡ accepted s.enqueue_tx ++ ev ∷ []))

  pub Contains-Grows :
      {s s' : StateOf v} (m : Message)
      → Grows s s'
      → Contains (stored s.js) m
      → Contains (stored s'.js) m
  Contains-Grows {s} {s'} m g h = elim g.log [
    | inl same ↦ subst (λ l. Contains l m) (sym same) h
    | inr (x, more) ↦ subst (λ l. Contains l m) (sym more) (Contains-snoc (stored s.js) m x h)
  ]

  pub InQueue-Grows :
      {s s' : StateOf v} (ev : PendingEvent)
      → Grows s s'
      → InQueue (accepted s.enqueue_tx) ev
      → InQueue (accepted s'.enqueue_tx) ev
  InQueue-Grows {s} {s'} ev g h = elim g.enqueued [
    | inl same ↦ subst (λ q. InQueue q ev) (sym same) h
    | inr (x, more) ↦
        subst (λ q. InQueue q ev) (sym more) (InQueue-snoc (accepted s.enqueue_tx) ev x h)
  ]

  pub Knows-Grows : {s s' : StateOf v} (p : Pc v) → Grows s s' → Knows s p → Knows s' p
  Knows-Grows (ready c) g h = h
  Knows-Grows (awaiting a e p f) g h = h
  Knows-Grows (sending a e p) g h = Contains-Grows (message v a e p) g h
  Knows-Grows (returned (a, e, err x) (err y)) g h = h
  Knows-Grows (returned (a, e, err x) (ok u)) g h = h
  Knows-Grows (returned (a, e, ok p) (err y)) g h = h
  Knows-Grows (returned (a, e, ok p) (ok u)) g h =
      (Contains-Grows (message v a e p) g h.0, InQueue-Grows (pending v a e p) g h.1)

  -- What one move does, where the task knows what it should.
  pub record Moved (s s' : StateOf v) (q : Pc v) : Type 0 where
    pub grows : Grows s s'
    pub knows : Knows s' q
    pub write_ahead : WriteAhead v s → WriteAhead v s'

  quiet_log :
      {s s' : StateOf v} (q : Pc v)
      → stored s'.js ≡ stored s.js
      → s'.enqueue_tx ≡ s.enqueue_tx
      → Knows s' q
      → Moved s s' q
  quiet_log {s} {s'} q same kept k = record {
    grows = record { log = inl same; enqueued = inl (ap accepted kept) };
    knows = k;
    write_ahead = λ h. rw (same, kept) h;
  }

  log_grown :
      {s s' : StateOf v} (q : Pc v) (m : Message)
      → stored s'.js ≡ stored s.js ++ m ∷ []
      → s'.enqueue_tx ≡ s.enqueue_tx
      → Knows s' q
      → Moved s s' q
  log_grown {s} {s'} q m more kept k = record {
    grows = record { log = inr (m, more); enqueued = inl (ap accepted kept) };
    knows = k;
    write_ahead =
        λ h. rw kept (grown v (stored s.js) (stored s'.js) m (accepted s.enqueue_tx) more h);
  }

  module _ (acks : Acknowledges v.jet_stream) (delivers : Delivers v.queue) where
    Moved-sends :
        (a e : String) (p : Value) (s : StateOf v) (b : Bool) (c : _)
        → v.queue.send (pending v a e p) s.enqueue_tx ≡ (b, c)
        → Contains (stored s.js) (message v a e p)
        → Moved s (record s { enqueue_tx = c }) (returned (a, e, ok p) (accepted_or_closed v b))
    Moved-sends a e p s true c h here =
        let more =
          subst (λ r. accepted r.1 ≡ accepted s.enqueue_tx ++ pending v a e p ∷ []) h
            (delivers.send_ok (pending v a e p) s.enqueue_tx (ap (λ r. r.0) h)) in
        record {
          grows = record { log = inl refl; enqueued = inr (pending v a e p, more) };
          knows = (here, (accepted s.enqueue_tx, [], more));
          write_ahead = λ w.
              rw more
                (AllLogged-snoc v (stored s.js) (accepted s.enqueue_tx) (pending v a e p) w here);
        }
    Moved-sends a e p s false c h here =
        let kept =
          subst (λ r. accepted r.1 ≡ accepted s.enqueue_tx) h
            (delivers.send_closed (pending v a e p) s.enqueue_tx (ap (λ r. r.0) h)) in
        record {
          grows = record { log = inl refl; enqueued = inl kept };
          knows = tt;
          write_ahead = λ w. rw kept w;
        }

    pub Move-Moved : {s s' : StateOf v} {p q : Pc v} → Move v s p s' q → Knows s p → Moved s s' q
    Move-Moved (serialize_fails a e x) k = quiet_log _ refl refl tt
    Move-Moved {s} (publish_fails a e p x h) k =
        quiet_log _ (acks.stored-publish (message v a e p) s.js) refl tt
    Move-Moved {s} (publishes a e p f h) k =
        quiet_log _ (acks.stored-publish (message v a e p) s.js) refl
          (acks.sent-publish (message v a e p) s.js f h)
    Move-Moved {s} (ack_fails a e p f x h) k = elim (acks.ack_err f s.js x h) [
      | inl same ↦ quiet_log _ same refl tt
      | inr took ↦ log_grown _ (sent f) took refl tt
    ]
    Move-Moved {s} (acknowledged a e p f h) k =
        let took = acks.ack_ok f s.js h ∙ ap (λ m. stored s.js ++ m ∷ []) k in
        log_grown _ (message v a e p) took refl (stored s.js, [], took)
    Move-Moved {s} (sends a e p) k = Moved-sends a e p s _ _ refl k

  record Inv (s : System v) : Type 0 where
    write_ahead : WriteAhead v s.store
    knows : (i : ℕ) → Knows s.store (s.pc i)

  module _ (acks : Acknowledges v.jet_stream) (delivers : Delivers v.queue) where
    Step-Inv : {s t : System v} → Step v s t → Inv s → Inv t
    Step-Inv {s} (run i {store} {p} mv) inv =
        let moved = Move-Moved acks delivers mv (inv.knows i) in
        record {
          write_ahead = moved.write_ahead inv.write_ahead;
          knows =
              update-all (Knows store) s.pc i p moved.knows
                (λ j. Knows-Grows (s.pc j) moved.grows (inv.knows j));
        }

    Reach-Inv :
        {calls : ℕ → Call v} {store : StateOf v} {s : System v}
        → WriteAhead v store
        → Reach v calls store s
        → Inv s
    Reach-Inv w start = record { write_ahead = w; knows = λ i. tt }
    Reach-Inv w (next r st) = Step-Inv st (Reach-Inv w r)

    -- The log comes first, however any number of calls interleave and wherever each of them fails: every
    -- event that the queue of the batch writer has accepted is in the log, with the same bytes and under
    -- its agent's subject, if it was so before; and a call that has answered `Ok` has its event in
    -- both. The tasks are past the rate limiter.
    pub Reach-WriteAhead :
        {calls : ℕ → Call v} {store : StateOf v} {s : System v}
        → WriteAhead v store
        → Reach v calls store s
        → WriteAhead v s.store × ((i : ℕ) → InBoth s.store (s.pc i))
    Reach-WriteAhead {s} w r =
        let inv = Reach-Inv w r in
        (inv.write_ahead, λ i. InBoth-Knows s.store (s.pc i) (inv.knows i))
