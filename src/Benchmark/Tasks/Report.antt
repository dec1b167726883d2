-- ===== src/Benchmark/Tasks/Report.antt =====
-- The truth of what the throughput scenarios report.
use skialith.Common.{ℕ, ◌+◌, ◌*◌, ◌≤◌, ◌≡◌, refl, ap, ◌↔◌, true, List, [], ◌∷◌, total, arith}
use skialith.Benchmark.Tasks.{
  Phase, spawned, waiting, saving, finished, crashed, Scenario, Reach, reported_accepted,
}
use skialith.Benchmark.Tasks.Counts.{
  one, has_crashed, crashes, all_ready, saved_by, missed_by, surplus, Reach-Inv,
}

module _ (e : ℕ) where
  ready_saved :
      (tasks : List Phase)
      → all_ready tasks ≡ true
      → total (surplus e) tasks ≡ 0
      → total (saved_by e) tasks + total (missed_by e) tasks ≡ total one tasks * e
  ready_saved [] h k = omega arith
  ready_saved (finished ∷ ps) h k = grind (arith, ready_saved ps h (omega arith))
  ready_saved (crashed i ∷ ps) h k = grind (arith, ready_saved ps h (omega arith))
  ready_saved (spawned ∷ ps) h k = cc
  ready_saved (waiting ∷ ps) h k = cc
  ready_saved (saving i ∷ ps) h k = cc

  crash_misses : (p : Phase) → has_crashed p ≤ missed_by e p + surplus e p
  crash_misses spawned = omega arith
  crash_misses waiting = omega arith
  crash_misses (saving i) = omega arith
  crash_misses finished = omega arith
  crash_misses (crashed i) = omega arith

  crashes-le-missed :
      (tasks : List Phase) → crashes tasks ≤ total (missed_by e) tasks + total (surplus e) tasks
  crashes-le-missed [] = omega arith
  crashes-le-missed (p ∷ ps) = omega (arith, crash_misses p, crashes-le-missed ps)

  missed_once : (p : Phase) → has_crashed p ≡ 0 → missed_by e p ≡ 0
  missed_once spawned h = refl
  missed_once waiting h = refl
  missed_once (saving i) h = refl
  missed_once finished h = refl
  missed_once (crashed i) h = absurd (omega (arith, h))

  none_missed : (tasks : List Phase) → crashes tasks ≡ 0 → total (missed_by e) tasks ≡ 0
  none_missed [] h = refl
  none_missed (p ∷ ps) h = omega (arith, missed_once p (omega arith), none_missed ps (omega arith))

-- When all handles are ready, the report "total accepted, zero loss" is true exactly if no task has
-- panicked; and what was accepted is short of the total by one event at least for each task that has.
pub reported_iff :
    {n e : ℕ} {s : Scenario}
    → Reach n e s
    → all_ready s.tasks ≡ true
    → (s.counters.accepted ≡ reported_accepted n e ↔ crashes s.tasks ≡ 0)
      × (s.counters.accepted + crashes s.tasks ≤ reported_accepted n e)
reported_iff {n} {e} {s} r ready =
    let inv = Reach-Inv r in
    let saved = ready_saved e s.tasks ready inv.in_bounds in
    let size : total one s.tasks * e ≡ n * e = ap (λ m. m * e) inv.size in
    let crashed_le = crashes-le-missed e s.tasks in
    (
      (
        λ h. omega (arith, h, saved, size, inv.accepted, crashed_le),
        λ h. omega (arith, none_missed e s.tasks h, saved, size, inv.accepted),
      ),
      omega (arith, saved, size, inv.accepted, crashed_le),
    )
