-- ===== src/Benchmark/Tasks/Counts.antt =====
-- What a state of a throughput scenario adds up to.
use skialith.Common.{
  ℕ, ◌+◌, ◌-◌, ◌<◌, ◌≡◌, ◌∙◌, Bool, true, ◌&&◌, List, [], ◌∷◌, total, total-at, total-replicate,
  arith,
}
use skialith.Benchmark.Tasks.{
  Phase, spawned, waiting, saving, finished, crashed, Counters, Turn, arrive, release, save, crash,
  complete, Scenario, Step, turn, Reach, start, next, is_ready,
}

abbrev pub one : Phase → ℕ
one p = 1

abbrev pub past_barrier : Phase → ℕ
past_barrier spawned = 0
past_barrier _ = 1

abbrev pub has_crashed : Phase → ℕ
has_crashed (crashed i) = 1
has_crashed _ = 0

abbrev pub crashes : List Phase → ℕ
crashes tasks = total has_crashed tasks

abbrev pub all_ready : List Phase → Bool
all_ready [] = true
all_ready (p ∷ ps) = is_ready p && all_ready ps

module _ (e : ℕ) where
  -- The events that a task has saved, and those that it will never save.
  abbrev pub saved_by : Phase → ℕ
  saved_by spawned = 0
  saved_by waiting = 0
  saved_by (saving i) = i
  saved_by finished = e
  saved_by (crashed i) = i

  abbrev pub missed_by : Phase → ℕ
  missed_by (crashed i) = e - i
  missed_by _ = 0

  -- By how much a task has left the bounds of its loop.
  abbrev pub surplus : Phase → ℕ
  surplus (saving i) = i - e
  surplus (crashed i) = (i + 1) - e
  surplus _ = 0

  -- The turns that a task has left.
  abbrev pub turns_left : Phase → ℕ
  turns_left spawned = e + 3
  turns_left waiting = e + 2
  turns_left (saving i) = (e - i) + 1
  turns_left _ = 0

pub record Inv (n e : ℕ) (s : Scenario) : Type 0 where
  pub size : total one s.tasks ≡ n
  pub arrived : total past_barrier s.tasks ≡ s.counters.arrived
  pub accepted : total (saved_by e) s.tasks ≡ s.counters.accepted
  pub in_bounds : total (surplus e) s.tasks ≡ 0

module _ {n e : ℕ} where
  Turn-past :
      {c d : Counters} {p q : Phase}
      → Turn n e c p d q
      → d.arrived + past_barrier p ≡ c.arrived + past_barrier q
  Turn-past arrive = omega arith
  Turn-past (release h) = omega arith
  Turn-past (save h) = omega arith
  Turn-past (crash h) = omega arith
  Turn-past (complete h) = omega arith

  Turn-saved :
      {c d : Counters} {p q : Phase}
      → Turn n e c p d q
      → surplus e p ≡ 0
      → (d.accepted + saved_by e p ≡ c.accepted + saved_by e q) × (surplus e q ≡ 0)
  Turn-saved arrive fine = (omega arith, omega arith)
  Turn-saved (release h) fine = (omega arith, omega arith)
  Turn-saved (save h) fine = (omega arith, omega arith)
  Turn-saved (crash h) fine = (omega arith, omega arith)
  Turn-saved (complete h) fine = (omega arith, omega arith)

  pub Turn-turns_left :
      {c d : Counters} {p q : Phase} → Turn n e c p d q → turns_left e q < turns_left e p
  Turn-turns_left arrive = omega arith
  Turn-turns_left (release h) = omega arith
  Turn-turns_left (save h) = omega arith
  Turn-turns_left (crash h) = omega arith
  Turn-turns_left (complete h) = omega arith

  Step-Inv : {s t : Scenario} → Step n e s t → Inv n e s → Inv n e t
  Step-Inv (turn before {p} after {q} mv) inv =
      let fine : surplus e p ≡ 0 =
        omega (arith, inv.in_bounds, total-at (surplus e) before p after) in
      let saved = Turn-saved mv fine in
      record {
        size = omega (arith, inv.size, total-at one before p after, total-at one before q after);
        arrived = omega (
          arith,
          inv.arrived,
          Turn-past mv,
          total-at past_barrier before p after,
          total-at past_barrier before q after,
        );
        accepted = omega (
          arith,
          inv.accepted,
          saved.0,
          total-at (saved_by e) before p after,
          total-at (saved_by e) before q after,
        );
        in_bounds = omega (
          arith,
          inv.in_bounds,
          saved.1,
          total-at (surplus e) before p after,
          total-at (surplus e) before q after,
        );
      }

  pub Reach-Inv : {s : Scenario} → Reach n e s → Inv n e s
  Reach-Inv start = record {
    size = total-replicate one n spawned ∙ omega arith;
    arrived = total-replicate past_barrier n spawned ∙ omega arith;
    accepted = total-replicate (saved_by e) n spawned ∙ omega arith;
    in_bounds = total-replicate (surplus e) n spawned ∙ omega arith;
  }
  Reach-Inv (next r st) = Step-Inv st (Reach-Inv r)
