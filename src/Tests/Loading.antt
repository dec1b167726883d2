-- ===== src/Tests/Loading.antt =====
-- A run of a throughput scenario: two tasks of one event each, of which the second fails.
use skialith.Common.{◌≡◌, refl, true, [], ◌∷◌, ◌↔◌, ◌≤◌, ◌*◌, ◌+◌, ◌⊎◌, arith}
use skialith.Benchmark.Tasks.{
  spawned, waiting, saving, finished, crashed, arrive, release, save, crash, complete, Scenario,
  turn, Backpressure, ConcurrentThroughput, start, next, reported_accepted,
}
use skialith.Benchmark.Tasks.Counts.{crashes, all_ready}
use skialith.Benchmark.Tasks.Joined.{CanStep, turns, join_all_returns}
use skialith.Benchmark.Tasks.Report.{reported_iff}

abbrev at_barrier : Scenario
at_barrier = record {
  tasks = waiting ∷ waiting ∷ [];
  counters = record { arrived = 2; accepted = 0 };
}

abbrev met : ConcurrentThroughput 2 1 at_barrier
met = next (next start (turn [] (spawned ∷ []) arrive)) (turn (waiting ∷ []) [] arrive)

abbrev ended : Scenario
ended = record {
  tasks = finished ∷ crashed 0 ∷ [];
  counters = record { arrived = 2; accepted = 1 };
}

abbrev one_failed : Backpressure 2 1 ended
one_failed =
    next
      (next
        (next
          (next (next met (turn (waiting ∷ []) [] (release (omega arith))))
            (turn [] (saving 0 ∷ []) (release (omega arith))))
          (turn (saving 0 ∷ []) [] (crash (omega arith))))
        (turn [] (crashed 0 ∷ []) (save (omega arith))))
      (turn [] (crashed 0 ∷ []) (complete (omega arith)))

join_all_returns_example :
    (turns met ≤ 2 * (1 + 3)) × ((all_ready at_barrier.tasks ≡ true) ⊎ CanStep 2 1 at_barrier)
join_all_returns_example = join_all_returns met

reported_iff_example :
    (1 ≡ reported_accepted 2 1 ↔ crashes ended.tasks ≡ 0)
    × (1 + crashes ended.tasks ≤ reported_accepted 2 1)
reported_iff_example = reported_iff one_failed refl
