-- ===== src/Tests/Serving.antt =====
-- The limiter and the configuration.
use skialith.Common.{
  update, ℕ, ◌+◌, ◌*◌, ◌≤◌, ◌≡◌, refl, false, none, some, Option, List, arith, length,
}
use skialith.Limits.Limiter.{default}
use skialith.Limits.Throughput.{grants, occurrences, grants-le-limit}
use skialith.Limits.Interleaved.{
  top, got_now, new_window, reset, granted, System, Reach, start, next, run, read_clock, see_later,
  store_window, store_count,
}
use skialith.Limits.Overrun.{grants as grants_of, resets, Reach-grants-le}
use native.Mathlib.Decide.{ℕ_discrete}
use skialith.Store.Config.{SkialithStore, default as default_cfg, new, with_dead_letter}
use skialith.Tests.Saving.{clock, clock-IsSteady}

grants-le-limit_example :
    (l : List ℕ) × (grants 3 2 clock (record { readings = 0; slept_ms = 0 }) default ≡ some l)
    × (length l ≡ 3)
    × ((s : ℕ) → occurrences s l ≤ 2)
grants-le-limit_example = grants-le-limit 2 (omega arith) clock clock-IsSteady 3

abbrev no_store : Option (SkialithStore (Unit {0}) (Unit {0}))
no_store = new false (record default_cfg { channel_capacity = 0 }) 1000 none

no_channel : no_store ≡ none
unfolding new
no_channel = refl

dead_letter_batches :
    (s : SkialithStore (Unit {0}) (Unit {0}))
    → (with_dead_letter tt s).writer.cfg.max_batch_size ≡ 256
unfolding with_dead_letter
dead_letter_batches s = refl

-- One task that opens the window of second 5.
abbrev opened : System
opened = record {
  limiter = record { window_start = 5; count = 1 };
  pc =
      update (update (update (update (λ i. top) 0 (got_now 5)) 0 (new_window 5)) 0 (reset 5)) 0
        (granted 5);
}

opening : Reach 1 opened
unfolding ℕ_discrete
opening =
    next
      (next (next (next start (run 0 (read_clock 5 (λ e. cc)))) (run 0 (see_later (λ e. cc))))
        (run 0 store_window))
      (run 0 store_count)

Reach-grants-le_example : (1 ≤ 1) × (grants_of opening ≤ 1 * (1 + resets opening))
Reach-grants-le_example = Reach-grants-le opening
