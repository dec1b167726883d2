-- ===== src/Benchmark/Tasks/Joined.antt =====
-- The return of `join_all`.
use skialith.Common.{
  ℕ, ◌+◌, ◌*◌, ◌≤◌, ◌<◌, ◌≡◌, refl, sym, ap, subst, ◌⊎◌, inl, inr, true, List, [], ◌∷◌, ◌++◌, total,
  total-at, total-replicate, arith, ltb, Bool-cases,
}
use skialith.Benchmark.Tasks.{
  Phase, spawned, waiting, saving, finished, crashed, Counters, Turn, arrive, release, save,
  complete, Scenario, Step, turn, Reach, start, next,
}
use skialith.Benchmark.Tasks.Counts.{
  one, past_barrier, all_ready, turns_left, Inv, Turn-turns_left, Reach-Inv,
}

-- A task that counts under `f`, if any does.
find_task :
    (f : Phase → ℕ) (tasks : List Phase)
    → (total f tasks ≡ 0)
      ⊎ ((before : List Phase) × (p : Phase) × (after : List Phase) × (tasks ≡ before ++ p ∷ after)
          × (0 < f p))
find_task f [] = inl refl
find_task f (p ∷ ps) = elim (Bool-cases (ltb 0 (f p))) [
  | inl here ↦ inr ([], p, ps, refl, ground arith)
  | inr none ↦ elim (find_task f ps) [
    | inl rest ↦ inl (ground (arith, rest))
    | inr (before, q, after, e, counts) ↦ inr (p ∷ before, q, after, ap (λ l. p ∷ l) e, counts)
  ]
]

abbrev is_waiting : Phase → ℕ
is_waiting waiting = 1
is_waiting _ = 0

-- A task that is neither at the barrier nor at its end.
abbrev is_active : Phase → ℕ
is_active spawned = 1
is_active (saving i) = 1
is_active _ = 0

none_spawned :
    (tasks : List Phase) → total is_active tasks ≡ 0 → total past_barrier tasks ≡ total one tasks
none_spawned [] h = refl
none_spawned (waiting ∷ ps) h = omega (arith, none_spawned ps (omega arith))
none_spawned (finished ∷ ps) h = omega (arith, none_spawned ps (omega arith))
none_spawned (crashed i ∷ ps) h = omega (arith, none_spawned ps (omega arith))
none_spawned (spawned ∷ ps) h = absurd (omega (arith, h))
none_spawned (saving i ∷ ps) h = absurd (omega (arith, h))

all_ready_of_idle :
    (tasks : List Phase)
    → total is_active tasks ≡ 0
    → total is_waiting tasks ≡ 0
    → all_ready tasks ≡ true
all_ready_of_idle [] h k = refl
all_ready_of_idle (finished ∷ ps) h k = all_ready_of_idle ps (omega arith) (omega arith)
all_ready_of_idle (crashed i ∷ ps) h k = all_ready_of_idle ps (omega arith) (omega arith)
all_ready_of_idle (waiting ∷ ps) h k = absurd (omega (arith, k))
all_ready_of_idle (spawned ∷ ps) h k = absurd (omega (arith, h))
all_ready_of_idle (saving i ∷ ps) h k = absurd (omega (arith, h))

abbrev pub CanStep : ℕ → ℕ → Scenario → Type 0
CanStep n e s = (t : Scenario) × Step n e s t

module _ {n e : ℕ} where
  step_at :
      (before : List Phase) (p : Phase) (after : List Phase) (s : Scenario)
      → s.tasks ≡ before ++ p ∷ after
      → ((d : Counters) × (q : Phase) × Turn n e s.counters p d q)
      → CanStep n e s
  step_at before p after s h (d, q, mv) = (
    record { tasks = before ++ q ∷ after; counters = d },
    subst
        (λ l.
          Step n e (record { tasks = l; counters = s.counters })
            (record { tasks = before ++ q ∷ after; counters = d }))
        (sym h) (turn before after mv),
  )

  active-Turn :
      (c : Counters) (p : Phase) → 0 < is_active p → (d : Counters) × (q : Phase) × Turn n e c p d q
  active-Turn c spawned h = (_, _, arrive)
  active-Turn c (saving i) h = elim (Bool-cases (ltb i e)) [
    | inl more ↦ (_, _, save (ground arith))
    | inr over ↦ (_, _, complete (ground arith))
  ]
  active-Turn c waiting h = absurd (omega (arith, h))
  active-Turn c finished h = absurd (omega (arith, h))
  active-Turn c (crashed i) h = absurd (omega (arith, h))

  waiting-Turn :
      (c : Counters) (p : Phase)
      → n ≤ c.arrived
      → 0 < is_waiting p
      → (d : Counters) × (q : Phase) × Turn n e c p d q
  waiting-Turn c waiting all h = (_, _, release all)
  waiting-Turn c spawned all h = absurd (omega (arith, h))
  waiting-Turn c (saving i) all h = absurd (omega (arith, h))
  waiting-Turn c finished all h = absurd (omega (arith, h))
  waiting-Turn c (crashed i) all h = absurd (omega (arith, h))

  ready_or_step : {s : Scenario} → Inv n e s → (all_ready s.tasks ≡ true) ⊎ CanStep n e s
  ready_or_step {s} inv = elim (find_task is_active s.tasks) [
    | inr (before, p, after, h, active) ↦
        inr (step_at before p after s h (active-Turn s.counters p active))
    | inl idle ↦ elim (find_task is_waiting s.tasks) [
      | inl none ↦ inl (all_ready_of_idle s.tasks idle none)
      | inr (before, p, after, h, held) ↦ inr (
          step_at before p after s h (
            waiting-Turn s.counters p
              (omega (arith, inv.size, inv.arrived, none_spawned s.tasks idle)) held))
    ]
  ]

  -- The number of turns of a run.
  abbrev pub turns : {s : Scenario} → Reach n e s → ℕ
  turns start = 0
  turns (next r st) = 1 + turns r

  Step-turns_left :
      {s t : Scenario} → Step n e s t → total (turns_left e) t.tasks < total (turns_left e) s.tasks
  Step-turns_left (turn before {p} after {q} mv) = omega (
    arith,
    Turn-turns_left mv,
    total-at (turns_left e) before p after,
    total-at (turns_left e) before q after,
  )

  turns_bounded :
      {s : Scenario} (r : Reach n e s) → turns r + total (turns_left e) s.tasks ≤ n * (e + 3)
  turns_bounded start = omega (arith, total-replicate (turns_left e) n spawned)
  turns_bounded (next r st) = omega (arith, turns_bounded r, Step-turns_left st)

  -- `join_all` returns, in whatever order the tasks take their turns and whether their calls succeed or
  -- not: no run has more than `concurrency * (events_per_task + 3)` turns, and as long as not all
  -- handles are ready, some task can take a turn; so no task is left behind at the barrier.
  pub join_all_returns :
      {s : Scenario} (r : Reach n e s)
      → (turns r ≤ n * (e + 3)) × ((all_ready s.tasks ≡ true) ⊎ CanStep n e s)
  join_all_returns r = (omega (arith, turns_bounded r), ready_or_step (Reach-Inv r))
