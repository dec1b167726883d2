-- ===== src/Limits/Sleep.antt =====
-- The sleep of `RateLimiter::wait` and the end of its loop.
use skialith.Common.{
  ℕ, suc, ◌+◌, ◌/◌, ◌%◌, ◌≤◌, ◌<◌, ◌≡◌, refl, ◌⊎◌, inl, inr, some, none, arith, Bool-cases, ltb,
  ◌==◌,
}
use skialith.Limits.Limiter.{
  RateLimiter, Meter, look, looked, sleep_ms, sleep, try_claim, wait_loop,
}

-- The sleep takes between 2 and 1001 ms, and ends one millisecond into the very next second.
pub sleep_to_next_second :
    (now_ms : ℕ)
    → (2 ≤ sleep_ms now_ms)
      × (sleep_ms now_ms ≤ 1001)
      × ((now_ms + sleep_ms now_ms) / 1000 ≡ now_ms / 1000 + 1)
      × ((now_ms + sleep_ms now_ms) % 1000 ≡ 1)
unfolding sleep_ms
sleep_to_next_second now_ms = omega arith

-- A wall clock that is never set back, and on which a sleep takes as long as was asked for.
pub record IsSteady (now : ℕ → ℕ → ℕ) : Type 0 where
  pub forward : (k s : ℕ) → now k s ≤ now (suc k) s
  pub slept : (k s d : ℕ) → now k s + d ≤ now (suc k) (s + d)

-- What one call leaves: one more slot of the same window, or the first of a later one.
pub data Claim (limit : ℕ) (r r' : RateLimiter) : Type 0 where
  next_slot :
      r'.window_start ≡ r.window_start → r'.count ≡ r.count + 1 → r.count < limit → Claim limit r r'
  new_window : r.window_start < r'.window_start → r'.count ≡ 1 → Claim limit r r'

try_claim_cases :
    (limit s : ℕ) (r : RateLimiter)
    → r.window_start ≤ s
    → ((r' : RateLimiter) × (try_claim limit s r ≡ some r')
        × Claim limit r r'
        × (r'.window_start ≡ s))
      ⊎ ((try_claim limit s r ≡ none) × (s ≡ r.window_start) × (limit ≤ r.count))
unfolding try_claim
try_claim_cases limit s r h = elim (Bool-cases (s == r.window_start)) [
  | inr late ↦
      inl (record { window_start = s; count = 1 }, rw late, new_window (ground arith) refl, refl)
  | inl same ↦ elim (Bool-cases (ltb r.count limit)) [
    | inl free ↦ inl (
      record r { count = r.count + 1 },
      rw (same, free),
      next_slot refl refl (ground arith),
      ground arith,
    )
    | inr full ↦ inr (rw (same, full), ground arith, ground arith)
  ]
]

module _ (limit : ℕ) (now : ℕ → ℕ → ℕ) (steady : IsSteady now) where
  later_second : (m : Meter) → look now m / 1000 < look now (sleep now (looked m)) / 1000
  unfolding sleep
  later_second m = omega (
    arith,
    sleep_to_next_second (look now (looked m)),
    steady.forward m.readings m.slept_ms,
    steady.slept (suc m.readings) m.slept_ms (sleep_ms (look now (looked m))),
  )

  readings-sleep : (m : Meter) → (sleep now m).readings ≡ suc m.readings
  unfolding sleep
  readings-sleep m = refl

  -- The window that the second pass finds has passed, so it opens a new one.
  second_pass :
      (m : Meter) (r : RateLimiter)
      → look now m / 1000 ≡ r.window_start
      → (r' : RateLimiter) × (wait_loop 1 limit now (sleep now (looked m)) r
          ≡ some (r', looked (sleep now (looked m))))
        × (r.window_start < r'.window_start)
        × (r'.count ≡ 1)
        × (r'.window_start ≡ look now (sleep now (looked m)) / 1000)
  unfolding wait_loop try_claim
  second_pass m r e = (
    record { window_start = look now (sleep now (looked m)) / 1000; count = 1 },
    ground (arith, later_second m),
    omega (arith, later_second m),
    refl,
    refl,
  )

  -- On a clock that is never set back, and from a window that does not lie in the future, a
  -- task that is alone gets its slot within two passes of the loop and three readings of the
  -- clock: the next slot of the window, or the first of a later one.
  pub wait_loop_returns :
      (m : Meter) (r : RateLimiter)
      → r.window_start ≤ look now m / 1000
      → (r' : RateLimiter) × (m' : Meter) × (wait_loop 2 limit now m r ≡ some (r', m'))
        × Claim limit r r'
        × (r'.window_start ≤ look now m' / 1000)
        × (m'.readings ≤ m.readings + 3)
  unfolding wait_loop
  wait_loop_returns m r h = elim (try_claim_cases limit (look now m / 1000) r h) [
    | inl (r', e, claim, w) ↦ (
      r',
      looked m,
      rw (e, wait_loop),
      claim,
      omega (arith, steady.forward m.readings m.slept_ms),
      omega arith,
    )
    | inr (e, same, full) ↦
        let (r', loop, later, one, w) = second_pass m r same in
        let slept : Meter = sleep now (looked m) in
        (
          r',
          looked slept,
          rw (e, wait_loop) loop,
          new_window later one,
          omega (arith, steady.forward slept.readings slept.slept_ms),
          omega (arith, readings-sleep (looked m)),
        )
  ]
