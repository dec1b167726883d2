-- ===== src/Store/Retry/Loop.antt =====
-- The retry loop, from its attempts.
use mathlib.Core.Path.{ap₂}
use skialith.Common.{
  ℕ, ◌+◌, ◌≡◌, refl, sym, ap, ◌∙◌, ◌⊎◌, inl, inr, Bool, true, false, Option, none, some, List, [],
  ◌∷◌, ◌++◌, err, Result-cases, Bool-cases, arith,
}
use skialith.Store.Events.{PendingEvent}
use skialith.Store.Backend.{Backend, IsReliable, WriterOf}
use skialith.Store.Flush.{flush_batch}
use skialith.Store.Retry.{
  sleep, retry_strategy, attempts, route, final_attempt, flush_batch_with_retry,
}
use skialith.Store.Retry.Outcome.{
  Outcome, dead_lettered, lost, dead, sum, Tried, flush_err, attempt_err, attempt_ok,
}

module _ (b : Backend) (reliable : IsReliable b) where
  open b use {dead_letters.{Chan, send}}
  open reliable use {delivers}

  -- An attempt that fails has slept for nothing.
  slept-flush_err :
      (v : WriterOf b) (e : b.database.DbError)
      → (flush_batch b v).0 ≡ err e
      → (flush_batch b v).1.slept_ms ≡ v.slept_ms
  slept-flush_err v e h = let (_, _, rest) = flush_err b reliable v e h in rest.1

  module _ (w : WriterOf b) (ev : PendingEvent) (evs : List PendingEvent)
      (full : w.batch ≡ ev ∷ evs) where
    abbrev Returned : List ℕ → WriterOf b → Bool × WriterOf b → Type 0
    Returned delays v r =
        ((r.0 ≡ true) × (r.1.batch ≡ []) × Outcome b w r.1)
        ⊎ ((r.0 ≡ false) × Tried b w r.1 × (r.1.slept_ms ≡ v.slept_ms + sum b delays))

    Tried-sleep : (delay : ℕ) (v : WriterOf b) → Tried b w v → Tried b w (sleep b delay v)
    Tried-sleep delay v t = record { batch = t.batch; written = t.written; channel = t.channel }

    attempts_lem :
        (delays : List ℕ) (v : WriterOf b) → Tried b w v → Returned delays v (attempts b delays v)
    unfolding attempts
    attempts_lem [] v t = inr (refl, t, omega arith)
    attempts_lem (delay ∷ delays) v t = elim (Result-cases (flush_batch b v).0) [
      | inl (u, e) ↦
          rw (e, attempts)
            (let (cleared, outcome) = attempt_ok b reliable w ev evs full v u t e in
              inl (refl, cleared, outcome))
      | inr (x, e) ↦
          rw (e, attempts)
            (elim (attempts_lem delays (sleep b delay (flush_batch b v).1)
              (Tried-sleep delay _ (attempt_err b reliable w ev evs full v x t e))) [
                | inl done ↦ inl done
                | inr (f, tried, slept) ↦
                    inr (f, tried, omega (arith, slept, slept-flush_err v x e))
              ])
    ]

    -- What routing leaves, where `o` is the channel that the writer has.
    route_lem :
        (o : Option Chan) (v : WriterOf b)
        → v.dead_letter_tx ≡ o
        → Tried b w v
        → v.slept_ms ≡ w.slept_ms + sum b (retry_strategy b)
        → ((route b o v).batch ≡ []) × Outcome b w (route b o v)
    unfolding route
    route_lem none v e t slept =
        (refl, lost (inl (sym t.channel ∙ e, e)) (ap (dead b) t.channel) t.written slept)
    route_lem (some c) v e t slept =
        let channel = sym t.channel ∙ e in
        let same = ap (dead b) (sym channel) in
        let as_sent = ap (λ x. send x c) (sym t.batch) in
        (
          refl,
          elim (Bool-cases (send v.batch c).0) [
            | inl taken ↦
                dead_lettered
                  (c, channel, ap (λ r. some r.1) (sym as_sent), ap (λ r. r.0) as_sent ∙ taken)
                  (delivers.send_ok v.batch c taken ∙ ap₂ (λ d x. d ++ x ∷ []) same t.batch)
                  t.written slept
            | inr closed ↦
                lost
                  (inr
                    (c, channel, ap (λ r. some r.1) (sym as_sent), ap (λ r. r.0) as_sent ∙ closed))
                  (delivers.send_closed v.batch c closed ∙ same) t.written slept
          ],
        )

    final_lem :
        (v : WriterOf b)
        → Tried b w v
        → v.slept_ms ≡ w.slept_ms + sum b (retry_strategy b)
        → ((final_attempt b v).batch ≡ []) × Outcome b w (final_attempt b v)
    unfolding final_attempt
    final_lem v t slept = elim (Result-cases (flush_batch b v).0) [
      | inl (u, e) ↦ rw (e, final_attempt) (attempt_ok b reliable w ev evs full v u t e)
      | inr (x, e) ↦
          rw (e, final_attempt)
            (route_lem _ (flush_batch b v).1 refl (attempt_err b reliable w ev evs full v x t e)
              (slept-flush_err v x e ∙ slept))
    ]

    -- A flush with retries of a batch that is not empty leaves the batch empty, and the
    -- batch has one of three outcomes: in the table; accepted by the dead-letter channel;
    -- or lost, without such a channel or with a closed one. The table gains the batch once
    -- at most.
    pub flush_batch_with_retry_lem :
        ((flush_batch_with_retry b w).batch ≡ []) × Outcome b w (flush_batch_with_retry b w)
    unfolding flush_batch_with_retry
    flush_batch_with_retry_lem =
        let t : Tried b w w = record { batch = refl; written = inl refl; channel = refl } in
        elim (attempts_lem (retry_strategy b) w t) [
          | inl (e, cleared, outcome) ↦ rw e (cleared, outcome)
          | inr (e, tried, slept) ↦ rw e (final_lem (attempts b (retry_strategy b) w).1 tried slept)
        ]
