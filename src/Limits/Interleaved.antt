-- ===== src/Limits/Interleaved.antt =====
-- `RateLimiter::wait` run by many tasks at once, one access of the shared atomics at a time. The
-- accesses of src/limits.rs are single moves; the clock may show anything at each reading.
pub mod Alone
use skialith.Common.{ℕ, ◌+◌, ◌≤◌, ◌<◌, max, ◌≡◌, ◌≢◌, arith, update, update-all}
use skialith.Limits.{u32_max}
use skialith.Limits.Limiter.{RateLimiter, default}

-- Where a task stands in the loop, with the local variables that are live there.
pub data Pc : Type 0 where
  top : Pc  -- before the loop, and at its head
  got_now : (now_secs : ℕ) → Pc  -- before the load of `window_start`
  new_window : (now_secs : ℕ) → Pc  -- before the store to `window_start`
  reset : (now_secs : ℕ) → Pc  -- before the store to `count`
  same_window : (now_secs : ℕ) → Pc  -- before the load of `count`
  claiming : (now_secs c : ℕ) → Pc  -- before the compare-exchange
  asleep : Pc  -- the window is full
  granted : (now_secs : ℕ) → Pc

pub data Move (limit : ℕ) (r : RateLimiter) : Pc → RateLimiter → Pc → Type 0 where
  read_clock : (now_secs : ℕ) → limit ≢ u32_max → Move limit r top r (got_now now_secs)
  see_later : {s : ℕ} → s ≢ r.window_start → Move limit r (got_now s) r (new_window s)
  see_same : {s : ℕ} → s ≡ r.window_start → Move limit r (got_now s) r (same_window s)
  store_window : {s : ℕ} → Move limit r (new_window s) (record r { window_start = s }) (reset s)
  store_count : {s : ℕ} → Move limit r (reset s) (record r { count = 1 }) (granted s)
  see_free : {s : ℕ} → r.count < limit → Move limit r (same_window s) r (claiming s r.count)
  see_full : {s : ℕ} → limit ≤ r.count → Move limit r (same_window s) r asleep
  swap_wins :
      {s c : ℕ} → r.count ≡ c → Move limit r (claiming s c) (record r { count = c + 1 }) (granted s)
  swap_loses : {s c : ℕ} → r.count ≢ c → Move limit r (claiming s c) r top
  wake : Move limit r asleep r top

pub record System : Type 0 where
  pub limiter : RateLimiter
  pub pc : ℕ → Pc

pub data Step (limit : ℕ) (s : System) : System → Type 0 where
  run :
      (i : ℕ) {r : RateLimiter} {p : Pc}
      → Move limit s.limiter (s.pc i) r p
      → Step limit s (record { limiter = r; pc = update s.pc i p })

abbrev pub init : System
init = record { limiter = default; pc = λ _. top }

pub data Reach (limit : ℕ) : System → Type 0 where
  start : Reach limit init
  next : {s t : System} → Reach limit s → Step limit s t → Reach limit t

-- A task about to swap has seen a count below the limit.
abbrev pub SeenFree : ℕ → Pc → Type 0
SeenFree limit (claiming s c) = c < limit
SeenFree limit _ = Unit

record Inv (limit : ℕ) (s : System) : Type 0 where
  counted : s.limiter.count ≤ max 1 limit
  seen : (i : ℕ) → SeenFree limit (s.pc i)

module _ {limit : ℕ} {r : RateLimiter} where
  pub Move-count :
      {p p' : Pc} {r' : RateLimiter}
      → Move limit r p r' p'
      → SeenFree limit p
      → r.count ≤ max 1 limit
      → r'.count ≤ max 1 limit
  Move-count store_count seen h = omega arith
  Move-count (swap_wins e) seen h = omega arith
  Move-count _ seen h = h

  pub Move-SeenFree : {p p' : Pc} {r' : RateLimiter} → Move limit r p r' p' → SeenFree limit p'
  Move-SeenFree (see_free h) = h
  Move-SeenFree _ = tt

Step-Inv : {limit : ℕ} {s t : System} → Step limit s t → Inv limit s → Inv limit t
Step-Inv {limit} {s} (run i {p} mv) inv = record {
  counted = Move-count mv (inv.seen i) inv.counted;
  seen = update-all (SeenFree limit) s.pc i p (Move-SeenFree mv) inv.seen;
}

Reach-Inv : {limit : ℕ} {s : System} → Reach limit s → Inv limit s
Reach-Inv start = record { counted = omega arith; seen = λ i. tt }
Reach-Inv (next r st) = Step-Inv st (Reach-Inv r)

-- However the tasks interleave, the counter never passes the limit (or one, where the limit is
-- 0).
pub Reach-count-le : {limit : ℕ} {s : System} → Reach limit s → s.limiter.count ≤ max 1 limit
Reach-count-le r = (Reach-Inv r).counted
