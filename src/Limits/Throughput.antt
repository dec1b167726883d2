-- ===== src/Limits/Throughput.antt =====
-- What `RateLimiter::wait` promises to a single caller: a ceiling on the slots of each second.
use skialith.Common.{
  ℕ, zero, suc, ◌+◌, ◌-◌, ◌/◌, ◌≤◌, ◌<◌, max, ◌≡◌, refl, ◌∙◌, Option, some, none, List, [], ◌∷◌,
  arith, ltb, ◌==◌, if◌then◌else◌, length,
}
use skialith.Limits.{u32_max}
use skialith.Limits.Limiter.{RateLimiter, default, Meter, look, wait_loop, wait}
use skialith.Limits.Sleep.{IsSteady, Claim, next_slot, new_window, wait_loop_returns}

-- The seconds in which the slots of n successive calls of `wait` fell, the first call first.
-- `none` would mean that a call did not return.
unfoldable pub grants : ℕ → ℕ → (ℕ → ℕ → ℕ) → Meter → RateLimiter → Option (List ℕ)
unfolding wait
grants zero limit now m r = some []
grants (suc n) limit now m r = elim (wait 2 limit now m r) [
  | none ↦ none
  | some (r', m') ↦ elim (grants n limit now m' r') [
    | none ↦ none
    | some l ↦ some (r'.window_start ∷ l)
  ]
]

unfoldable pub occurrences : ℕ → List ℕ → ℕ
occurrences s [] = 0
occurrences s (x ∷ xs) = (if s == x then 1 else 0) + occurrences s xs

-- The slots that second `s` has left when the limiter is in state `r`.
abbrev room : ℕ → RateLimiter → ℕ → ℕ
room limit r s =
    if ltb s r.window_start
    then 0
    else if s == r.window_start
    then max 1 limit - r.count
    else max 1 limit

room-default : (limit s : ℕ) → room limit default s ≤ max 1 limit
room-default limit s = ground arith

room-Claim :
    (limit : ℕ) (r r' : RateLimiter) (s : ℕ)
    → Claim limit r r'
    → (if s == r'.window_start then 1 else 0) + room limit r' s ≤ room limit r s
room-Claim limit r r' s (next_slot w c free) = ground arith
room-Claim limit r r' s (new_window later one) = ground arith

wait-eq-wait_loop :
    (limit : ℕ) (now : ℕ → ℕ → ℕ) (m : Meter) (r : RateLimiter)
    → limit < u32_max
    → wait 2 limit now m r ≡ wait_loop 2 limit now m r
unfolding wait
wait-eq-wait_loop limit now m r h = ground arith

grants-suc :
    (n limit : ℕ) (now : ℕ → ℕ → ℕ) (m m' : Meter) (r r' : RateLimiter) (l : List ℕ)
    → wait 2 limit now m r ≡ some (r', m')
    → grants n limit now m' r' ≡ some l
    → grants (suc n) limit now m r ≡ some (r'.window_start ∷ l)
unfolding grants
grants-suc n limit now m m' r r' l e rest = rw (e, grants) (rw rest)

module _ (limit : ℕ) (bounded : limit < u32_max) (now : ℕ → ℕ → ℕ) (steady : IsSteady now) where
  grants_from :
      (n : ℕ) (m : Meter) (r : RateLimiter)
      → r.window_start ≤ look now m / 1000
      → (l : List ℕ) × (grants n limit now m r ≡ some l)
        × (length l ≡ n)
        × ((s : ℕ) → occurrences s l ≤ room limit r s)
  unfolding grants occurrences
  grants_from zero m r h = ([], refl, refl, λ s. omega arith)
  grants_from (suc n) m r h =
      let (r', m', e, claim, h', _) = wait_loop_returns limit now steady m r h in
      let (l, rest, len, fits) = grants_from n m' r' h' in
      (
        r'.window_start ∷ l,
        grants-suc n limit now m m' r r' l (wait-eq-wait_loop limit now m r bounded ∙ e) rest,
        omega arith,
        λ s. omega (arith, room-Claim limit r r' s claim, fits s),
      )

  -- On a clock that is never set back, and under a limit below u32::MAX, every call of a
  -- single caller returns, however often it asks, and no second gives out more slots than the
  -- limit, or than one where the limit is 0.
  pub grants-le-limit :
      (n : ℕ)
      → (l : List ℕ) × (grants n limit now (record { readings = 0; slept_ms = 0 }) default ≡ some l)
        × (length l ≡ n)
        × ((s : ℕ) → occurrences s l ≤ max 1 limit)
  grants-le-limit n =
      let (l, e, len, fits) =
        grants_from n (record { readings = 0; slept_ms = 0 }) default (omega arith) in
      (l, e, len, λ s. omega (arith, fits s, room-default limit s))
