-- ===== src/Limits/Limiter.antt =====
-- `RateLimiter` of src/limits.rs, as one task runs it. The wall clock is an argument: `now k s` is
-- the answer, in milliseconds since the epoch, to the k-th call of `SystemTime::now` after sleeps
-- of s milliseconds in all.
use skialith.Common.{
  ℕ, zero, suc, ◌+◌, ◌-◌, ◌/◌, ◌%◌, Option, none, some, ltb, ◌==◌, not, if◌then◌else◌,
}
use skialith.Limits.{u32_max}

pub record RateLimiter : Type 0 where
  pub window_start : ℕ
  pub count : ℕ

abbrev pub default : RateLimiter
default = record { window_start = 0; count = 0 }

-- What a task has used of the clock.
pub record Meter : Type 0 where
  pub readings : ℕ
  pub slept_ms : ℕ

abbrev pub look : (ℕ → ℕ → ℕ) → Meter → ℕ
look now m = now m.readings m.slept_ms

abbrev pub looked : Meter → Meter
looked m = record m { readings = suc m.readings }

unfoldable pub sleep_ms : ℕ → ℕ
sleep_ms now_ms = 1001 - now_ms % 1000

-- The second reading of a pass, and the sleep.
unfoldable pub sleep : (ℕ → ℕ → ℕ) → Meter → Meter
unfolding sleep_ms
sleep now m = record { readings = suc m.readings; slept_ms = m.slept_ms + sleep_ms (look now m) }

-- One pass of the loop: the claimed slot, or `none` where the window is full.
unfoldable pub try_claim : ℕ → ℕ → RateLimiter → Option RateLimiter
try_claim limit now_secs r =
    if not (now_secs == r.window_start)
    then some (record { window_start = now_secs; count = 1 })
    else if ltb r.count limit
    then some (record r { count = r.count + 1 })
    else none

unfoldable pub wait_loop : ℕ → ℕ → (ℕ → ℕ → ℕ) → Meter → RateLimiter → Option (RateLimiter × Meter)
unfolding try_claim sleep
wait_loop zero limit now m r = none
wait_loop (suc fuel) limit now m r = elim (try_claim limit (look now m / 1000) r) [
  | some claimed ↦ some (claimed, looked m)
  | none ↦ wait_loop fuel limit now (sleep now (looked m)) r
]

unfoldable pub wait : ℕ → ℕ → (ℕ → ℕ → ℕ) → Meter → RateLimiter → Option (RateLimiter × Meter)
unfolding wait_loop
wait fuel limit now m r = if limit == u32_max then some (r, m) else wait_loop fuel limit now m r
