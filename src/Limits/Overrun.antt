-- ===== src/Limits/Overrun.antt =====
-- How far many tasks together can overrun the limit: the documented race at a window's boundary.
use skialith.Common.{ℕ, ◌+◌, ◌*◌, ◌≤◌, max, ◌≡◌, arith}
use skialith.Limits.Limiter.{RateLimiter}
use skialith.Limits.Interleaved.{
  Pc, Move, read_clock, see_later, see_same, store_window, store_count, see_free, see_full,
  swap_wins, swap_loses, wake, System, run, Reach, start, next, Reach-count-le,
}

mul_step : (l n : ℕ) → l * (1 + n) ≡ l + l * n
mul_step l n = grind arith

module _ {limit : ℕ} where
  -- Whether a move is a store to `count`.
  unfoldable pub reset : {r r' : RateLimiter} {p p' : Pc} → Move limit r p r' p' → ℕ
  reset store_count = 1
  reset _ = 0

  -- Whether a move gives a task its slot.
  unfoldable pub grant : {r r' : RateLimiter} {p p' : Pc} → Move limit r p r' p' → ℕ
  grant store_count = 1
  grant (swap_wins e) = 1
  grant _ = 0

  unfoldable pub resets : {s : System} → Reach limit s → ℕ
  unfolding reset
  resets start = 0
  resets (next r (run i mv)) = reset mv + resets r

  unfoldable pub grants : {s : System} → Reach limit s → ℕ
  unfolding grant
  grants start = 0
  grants (next r (run i mv)) = grant mv + grants r

  Move-grants :
      {r r' : RateLimiter} {p p' : Pc} (mv : Move limit r p r' p') (g n : ℕ)
      → g ≤ max 1 limit * n + r.count
      → r.count ≤ max 1 limit
      → grant mv + g ≤ max 1 limit * (reset mv + n) + r'.count
  unfolding grant reset
  Move-grants (read_clock _ _) g n h k = omega arith
  Move-grants (see_later _) g n h k = omega arith
  Move-grants (see_same _) g n h k = omega arith
  Move-grants store_window g n h k = omega arith
  Move-grants store_count g n h k = omega (arith, mul_step (max 1 limit) n)
  Move-grants (see_free _) g n h k = omega arith
  Move-grants (see_full _) g n h k = omega arith
  Move-grants (swap_wins e) g n h k = omega arith
  Move-grants (swap_loses _) g n h k = omega arith
  Move-grants wake g n h k = omega arith

  grants_counted :
      {s : System} (r : Reach limit s) → grants r ≤ max 1 limit * resets r + s.limiter.count
  unfolding grants resets
  grants_counted start = omega arith
  grants_counted (next r (run i mv)) =
      Move-grants mv (grants r) (resets r) (grants_counted r) (Reach-count-le r)

  -- However the tasks interleave, the counter never passes the limit (or one, where the limit is 0),
  -- and all tasks together get at most the limit's worth of slots for the start and for each reset of
  -- the counter: so the race between the tasks that open a window costs at most one such worth for
  -- each of them.
  pub Reach-grants-le :
      {s : System} (r : Reach limit s)
      → (s.limiter.count ≤ max 1 limit) × (grants r ≤ max 1 limit * (1 + resets r))
  Reach-grants-le r = (
    Reach-count-le r,
    omega (arith, grants_counted r, Reach-count-le r, mul_step (max 1 limit) (resets r)),
  )
