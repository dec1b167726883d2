-- ===== src/Benchmark/Polling.antt =====
-- The end of the waiting loop of `bench_batch_persistence`.
use skialith.Common.{
  ℕ, zero, suc, ◌+◌, ◌-◌, ◌*◌, ◌≤◌, ◌<◌, ◌≡◌, refl, ◌∙◌, inl, inr, true, false, Option, some, ltb,
  leb, arith, Bool-cases,
}
use skialith.Benchmark.{Polled, persisted, timed_out, deadline_ms, await_persisted}

module _ {W : Type 0} (now : W → ℕ) (count_rows : W → ℕ × W) (sleep : W → W) where
  -- No call sets the clock back, and a pass takes the 5 ms of its sleep at least.
  abbrev pub TakesTime : Type 0
  TakesTime = (w : W) → (now w ≤ now (count_rows w).1) × (now w + 5 ≤ now (sleep w))

  -- What the last pass has seen: it ran the query in some state `v`.
  pub data Ended (event_count start : ℕ) : Polled → W → Type 0 where
    all_visible :
        (v : W)
        → event_count ≤ (count_rows v).0
        → Ended event_count start (persisted (now (count_rows v).1 - start)) (count_rows v).1
    too_late :
        (v : W)
        → (count_rows v).0 < event_count
        → start + deadline_ms < now (count_rows v).1
        → Ended event_count start (timed_out (count_rows v).0) (count_rows v).1

  module _ (event_count start : ℕ) where
    abbrev awaited : ℕ → W → Option (Polled × W)
    awaited fuel w = await_persisted now count_rows sleep fuel event_count start w

    pass_visible :
        (fuel : ℕ) (w : W)
        → leb event_count (count_rows w).0 ≡ true
        → awaited (suc fuel) w ≡ some (persisted (now (count_rows w).1 - start), (count_rows w).1)
    unfolding await_persisted
    pass_visible fuel w e = rw (e, await_persisted) refl

    pass_late :
        (fuel : ℕ) (w : W)
        → leb event_count (count_rows w).0 ≡ false
        → ltb deadline_ms (now (count_rows w).1 - start) ≡ true
        → awaited (suc fuel) w ≡ some (timed_out (count_rows w).0, (count_rows w).1)
    unfolding await_persisted
    pass_late fuel w e late = rw (e, await_persisted) (rw late refl)

    pass_again :
        (fuel : ℕ) (w : W)
        → leb event_count (count_rows w).0 ≡ false
        → ltb deadline_ms (now (count_rows w).1 - start) ≡ false
        → awaited (suc fuel) w ≡ awaited fuel (sleep (count_rows w).1)
    unfolding await_persisted
    pass_again fuel w e early = rw (e, await_persisted) (rw early refl)

    abbrev pub Returns : ℕ → W → Type 0
    Returns fuel w =
        (p : Polled) × (w' : W) × (await_persisted now count_rows sleep fuel event_count start w
          ≡ some (p, w'))
        × Ended event_count start p w'

    visible_pass :
        (fuel : ℕ) (w : W) → leb event_count (count_rows w).0 ≡ true → Returns (suc fuel) w
    visible_pass fuel w visible = (
      persisted (now (count_rows w).1 - start),
      (count_rows w).1,
      pass_visible fuel w visible,
      all_visible w (ground arith),
    )

    late_pass :
        (fuel : ℕ) (w : W) → start + deadline_ms < now (count_rows w).1 → Returns (suc fuel) w
    late_pass fuel w late = elim (Bool-cases (leb event_count (count_rows w).0)) [
      | inl visible ↦ visible_pass fuel w visible
      | inr fewer ↦ (
        timed_out (count_rows w).0,
        (count_rows w).1,
        pass_late fuel w fewer (ground arith),
        too_late w (ground arith) late,
      )
    ]

    await_from :
        (fuel : ℕ) (w : W) → TakesTime → start + 15001 ≤ now w + 5 * fuel → Returns (suc fuel) w
    await_from zero w time enough = late_pass zero w (omega (arith, (time w).0))
    await_from (suc fuel) w time enough = elim (Bool-cases (leb event_count (count_rows w).0)) [
      | inl visible ↦ visible_pass (suc fuel) w visible
      | inr fewer ↦ elim (Bool-cases (ltb deadline_ms (now (count_rows w).1 - start))) [
        | inl late ↦ late_pass (suc fuel) w (ground arith)
        | inr early ↦
            let (p, w', e, ended) =
              await_from fuel (sleep (count_rows w).1) time
                (omega (arith, (time w).0, (time (count_rows w).1).1)) in
            (p, w', pass_again (suc fuel) w fewer early ∙ e, ended)
      ]
    ]

    -- The loop ends within 3002 passes, on a clock that is not set back and under which a pass takes the
    -- 5 ms of its sleep at least: with all events visible at its last query, or with fewer, after the
    -- deadline of 15 seconds.
    pub await_persisted-Returns : (w : W) → TakesTime → start ≤ now w → Returns 3002 w
    await_persisted-Returns w time started = await_from 3001 w time (omega arith)
