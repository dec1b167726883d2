-- ===== src/Limits/Interleaved/Alone.antt =====
-- A task that no other comes between: its moves are `wait`.
use skialith.Common.{
  ℕ, zero, suc, ◌/◌, ◌≡◌, ◌≢◌, refl, inl, inr, some, none, some-inj, ◌≤◌, Option-cases, ltb, ◌==◌,
  subst, Bool-cases, arith,
}
use skialith.Limits.{u32_max}
use skialith.Limits.Limiter.{RateLimiter, Meter, look, looked, sleep, try_claim, wait_loop}
use skialith.Limits.Interleaved.{
  Pc, top, granted, Move, read_clock, see_later, see_same, store_window, store_count, see_free,
  see_full, swap_wins, wake,
}

pub data Moves (limit : ℕ) : RateLimiter → Pc → RateLimiter → Pc → Type 0 where
  done : {r : RateLimiter} {p : Pc} → Moves limit r p r p
  then :
      {r r' r'' : RateLimiter} {p p' p'' : Pc}
      → Move limit r p r' p'
      → Moves limit r' p' r'' p''
      → Moves limit r p r'' p''

module _ (limit : ℕ) (now : ℕ → ℕ → ℕ) (limited : limit ≢ u32_max) where
  claimed-Moves :
      (s : ℕ) (r r' : RateLimiter)
      → try_claim limit s r ≡ some r'
      → Moves limit r top r' (granted s)
  unfolding try_claim
  claimed-Moves s r r' h = elim (Bool-cases (s == r.window_start)) [
    | inr late ↦
        subst (λ x. Moves limit r top x (granted s)) (some-inj (rw late at h))
          (then (read_clock s limited)
            (then (see_later (ground arith)) (then store_window (then store_count done))))
    | inl same ↦ elim (Bool-cases (ltb r.count limit)) [
      | inl free ↦
          subst (λ x. Moves limit r top x (granted s)) (some-inj (rw (same, free) at h))
            (then (read_clock s limited) (
              then (see_same (ground arith))
                (then (see_free (ground arith)) (then (swap_wins refl) done))))
      | inr full ↦ absurd (cc (rw (same, full) at h))
    ]
  ]

  full_lem :
      (s : ℕ) (r : RateLimiter)
      → try_claim limit s r ≡ none
      → (s ≡ r.window_start) × (limit ≤ r.count)
  unfolding try_claim
  full_lem s r h = elim (Bool-cases (s == r.window_start)) [
    | inr late ↦ absurd (cc (rw late at h))
    | inl same ↦ elim (Bool-cases (ltb r.count limit)) [
      | inl free ↦ absurd (cc (rw (same, free) at h))
      | inr full ↦ (ground arith, ground arith)
    ]
  ]

  -- The moves of `Interleaved` are those of the code: a task whose moves come one after another takes
  -- the limiter where the loop of `wait` takes it, whatever the clock shows, and has its slot.
  pub wait_loop-Moves :
      (fuel : ℕ) (m m' : Meter) (r r' : RateLimiter)
      → wait_loop fuel limit now m r ≡ some (r', m')
      → (s : ℕ) × Moves limit r top r' (granted s)
  unfolding wait_loop
  wait_loop-Moves zero m m' r r' h = absurd (cc h)
  wait_loop-Moves (suc fuel) m m' r r' h =
      let s = look now m / 1000 in
      elim (Option-cases (try_claim limit s r)) [
        | inr (claimed, e) ↦ (
          s,
          subst (λ x. Moves limit r top x.0 (granted s)) (some-inj (rw (e, wait_loop) at h))
              (claimed-Moves s r claimed e),
        )
        | inl e ↦
            let (same, full) = full_lem s r e in
            let (s', rest) =
              wait_loop-Moves fuel (sleep now (looked m)) m' r r' (rw (e, wait_loop) at h) in
            (
              s',
              then (read_clock s limited)
                  (then (see_same same) (then (see_full full) (then wake rest))),
            )
      ]
