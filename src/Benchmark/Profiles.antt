-- ===== src/Benchmark/Profiles.antt =====
-- The second scenario, where its first store is refused.
use skialith.Common.{ℕ, ◌≡◌, refl, some, List, ◌∷◌, Result, err}
use skialith.Store.Config.{SkialithConfig}
use skialith.Benchmark.{panicked, bench_profile, bench_batch_persistence}

module _ {W St CE SE : Type 0} (connects : SkialithConfig → W → Result CE St × W)
    (save : St → ℕ → W → Result SE (Unit {0}) × W) (now : W → ℕ) (count_rows : W → ℕ × W)
    (sleep : W → W) (clean_up : St → W → W) where
  -- Whatever the error, `expect` panics, and no event is saved.
  pub refused_profile :
      (fuel event_count : ℕ) (cfg : SkialithConfig) (profiles : List SkialithConfig) (w : W)
      (e : CE)
      → (connects cfg w).0 ≡ err e
      → bench_batch_persistence connects save now count_rows sleep clean_up fuel event_count
          (cfg ∷ profiles)
          w
        ≡ some (panicked "connect failed", (connects cfg w).1)
  unfolding bench_batch_persistence
  refused_profile fuel event_count cfg profiles w e h =
      rw (h, bench_batch_persistence, bench_profile) refl
