-- ===== src/Benchmark/Calls.antt =====
-- The calls that a scenario makes one after the other.
use skialith.Common.{
  ℕ, zero, suc, ◌+◌, ◌-◌, ◌≡◌, refl, inl, inr, String, List, ◌++◌, [], ◌∷◌, Result, Result-cases,
}
use skialith.Benchmark.{Bench, done, panicked, timed_calls, reported}

-- A scenario has ended, or panicked with this message.
abbrev pub AnsweredBy : {X : Type 0} → String → Bench X → Type 0
AnsweredBy message (done x) = Unit {0}
AnsweredBy message (panicked m) = m ≡ message

-- What each call does to the world, in whatever order `Goes` names it, the scenario does.
module _ {W SaveError : Type 0} (now : W → ℕ) (call : ℕ → W → Result SaveError (Unit {0}) × W)
    (Goes : W → W → Type 0) (goes_refl : (w : W) → Goes w w)
    (goes_trans : (w w' w'' : W) → Goes w w' → Goes w' w'' → Goes w w'')
    (goes : (i : ℕ) (w : W) → Goes w (call i w).1) where
  timed_calls_lem :
      (message : String) (rounds i : ℕ) (latencies : List ℕ) (w : W)
      → Goes w (timed_calls now call message rounds i latencies w).1
        × AnsweredBy message (timed_calls now call message rounds i latencies w).0
  unfolding timed_calls
  timed_calls_lem message zero i latencies w = (goes_refl w, tt)
  timed_calls_lem message (suc rounds) i latencies w = elim (Result-cases (call i w).0) [
    | inr (x, e) ↦ rw (e, timed_calls) (goes i w, refl)
    | inl (u, e) ↦
        let (later, answer) =
          timed_calls_lem message rounds (i + 1) (latencies ++ (now (call i w).1 - now w) ∷ [])
            (call i w).1 in
        rw (e, timed_calls) (goes_trans _ _ _ (goes i w) later, answer)
  ]

  AnsweredBy-reported :
      (message : String) (r : Bench (List ℕ) × W)
      → AnsweredBy message r.0
      → ((reported r).1 ≡ r.1) × AnsweredBy message (reported r).0
  AnsweredBy-reported message (done l, w) h = (refl, tt)
  AnsweredBy-reported message (panicked m, w) h = (refl, h)

  pub reported-timed_calls :
      (message : String) (rounds : ℕ) (w : W)
      → Goes w (reported (timed_calls now call message rounds 0 [] w)).1
        × AnsweredBy message (reported (timed_calls now call message rounds 0 [] w)).0
  reported-timed_calls message rounds w =
      let (later, answer) = timed_calls_lem message rounds 0 [] w in
      let (same, answer') = AnsweredBy-reported message _ answer in (rw same later, answer')
