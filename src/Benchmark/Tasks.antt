-- ===== src/Benchmark/Tasks.antt =====
-- The throughput scenarios of src/bin/benchmark.rs: `concurrency` tasks that meet at a barrier and then
-- save `events_per_task` events each, one after another, while `join_all` waits for all of them. Any
-- task may take the next turn, and any call of `save_event` may succeed or fail.
pub mod Counts
pub mod Joined
pub mod Report
use skialith.Common.{ℕ, ◌+◌, ◌*◌, ◌≤◌, ◌<◌, Bool, true, false, List, [], ◌∷◌, ◌++◌, replicate}

-- Where a spawned task stands.
pub data Phase : Type 0 where
  spawned : Phase  -- before `barrier.wait()`
  waiting : Phase  -- in it
  saving : (i : ℕ) → Phase  -- at the head of the loop
  finished : Phase
  crashed : (i : ℕ) → Phase  -- `expect` has panicked in round i

pub record Counters : Type 0 where
  pub arrived : ℕ  -- the tasks that have reached the barrier
  pub accepted : ℕ  -- the calls of `save_event` that have returned `Ok`

-- One turn of one task. The barrier lets a task pass when `concurrency` tasks have reached it.
pub data Turn (concurrency events_per_task : ℕ) (c : Counters)
    : Phase → Counters → Phase → Type 0 where
  arrive : Turn concurrency events_per_task c spawned (record c { arrived = c.arrived + 1 }) waiting
  release : concurrency ≤ c.arrived → Turn concurrency events_per_task c waiting c (saving 0)
  save :
      {i : ℕ}
      → i < events_per_task
      → Turn concurrency events_per_task c
          (saving i)
          (record c { accepted = c.accepted + 1 })
          (saving (i + 1))
  crash :
      {i : ℕ} → i < events_per_task → Turn concurrency events_per_task c (saving i) c (crashed i)
  complete :
      {i : ℕ} → events_per_task ≤ i → Turn concurrency events_per_task c (saving i) c finished

pub record Scenario : Type 0 where
  pub tasks : List Phase
  pub counters : Counters

pub data Step (concurrency events_per_task : ℕ) : Scenario → Scenario → Type 0 where
  turn :
      (before : List Phase) {p : Phase} (after : List Phase) {c d : Counters} {q : Phase}
      → Turn concurrency events_per_task c p d q
      → Step concurrency events_per_task
          (record { tasks = before ++ p ∷ after; counters = c })
          (record { tasks = before ++ q ∷ after; counters = d })

abbrev pub all_spawned : ℕ → Scenario
all_spawned concurrency = record {
  tasks = replicate concurrency spawned;
  counters = record { arrived = 0; accepted = 0 };
}

pub data Reach (concurrency events_per_task : ℕ) : Scenario → Type 0 where
  start : Reach concurrency events_per_task (all_spawned concurrency)
  next :
      {s t : Scenario}
      → Reach concurrency events_per_task s
      → Step concurrency events_per_task s t
      → Reach concurrency events_per_task t

-- The runs of the two scenarios, from the spawning of their tasks: they differ in the texts of the
-- identifiers and of the output only.
abbrev pub Backpressure : ℕ → ℕ → Scenario → Type 0
Backpressure concurrency events_per_task = Reach concurrency events_per_task

abbrev pub ConcurrentThroughput : ℕ → ℕ → Scenario → Type 0
ConcurrentThroughput concurrency events_per_task = Reach concurrency events_per_task

-- Whether the handle of a task is ready; `join_all` returns when all are.
abbrev pub is_ready : Phase → Bool
is_ready finished = true
is_ready (crashed i) = true
is_ready _ = false

-- The number that is printed as accepted, with the words "zero loss". What the handles return is not
-- looked at.
abbrev pub reported_accepted : ℕ → ℕ → ℕ
reported_accepted concurrency events_per_task = concurrency * events_per_task
