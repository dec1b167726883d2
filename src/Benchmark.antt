-- ===== src/Benchmark.antt =====
-- src/bin/benchmark.rs: the load generator. The library's functions, the clock and the queries that a
-- scenario calls are arguments; `W` is the world that they pass along. What is printed is a value.
pub mod Sorted
pub mod Quantiles
pub mod Polling
pub mod Profiles
pub mod Tasks
pub mod Main
pub mod Calls
use skialith.Common.{
  ℕ, zero, suc, ◌+◌, ◌-◌, ◌*◌, ◌/◌, min, String, true, false, Option, none, some, List, [], ◌∷◌,
  ◌++◌, Result, ok, err, length, ltb, leb, if◌then◌else◌,
}
use skialith.Store.Config.{SkialithConfig}

abbrev pub community_config : SkialithConfig
community_config = record { max_batch_size = 64; max_batch_linger = 100; channel_capacity = 10000 }

abbrev pub managed_config : SkialithConfig
managed_config = record { max_batch_size = 256; max_batch_linger = 10; channel_capacity = 10000 }

abbrev pub get_or : List ℕ → ℕ → ℕ → ℕ
get_or [] i d = d
get_or (x ∷ xs) zero d = x
get_or (x ∷ xs) (suc i) d = get_or xs i d

-- `p` is a whole number of percent. For these the index is computed without error in doubles, as long
-- as the list has fewer than 2 ^ 45 elements.
unfoldable pub percentile : List ℕ → ℕ → ℕ
percentile [] p = 0
percentile (x ∷ xs) p = get_or (x ∷ xs) (min (length (x ∷ xs) * p / 100) (length (x ∷ xs) - 1)) 0

unfoldable pub insert_sorted : ℕ → List ℕ → List ℕ
insert_sorted x [] = x ∷ []
insert_sorted x (y ∷ ys) = elim (leb x y) [ true ↦ x ∷ y ∷ ys | false ↦ y ∷ insert_sorted x ys ]

-- `sort_unstable` of numbers: the one sorted list of the same numbers.
unfoldable pub sort_unstable : List ℕ → List ℕ
unfolding insert_sorted
sort_unstable [] = []
sort_unstable (x ∷ xs) = insert_sorted x (sort_unstable xs)

pub record Latencies : Type 0 where
  pub p50 : ℕ
  pub p95 : ℕ
  pub p99 : ℕ
  pub maximum : ℕ

-- `last().copied().unwrap_or(0)`
abbrev pub last_or_zero : List ℕ → ℕ
last_or_zero [] = 0
last_or_zero (x ∷ xs) = get_or (x ∷ xs) (length xs) 0

abbrev pub quantiles_of : List ℕ → Latencies
quantiles_of sorted = record {
  p50 = percentile sorted 50;
  p95 = percentile sorted 95;
  p99 = percentile sorted 99;
  maximum = last_or_zero sorted;
}

unfoldable pub print_latencies : List ℕ → Latencies
unfolding percentile sort_unstable
print_latencies latencies = quantiles_of (sort_unstable latencies)

-- How a scenario ends: `expect` and `panic!` stop the program.
pub data Bench (A : Type 0) : Type 0 where
  done : A → Bench A
  panicked : String → Bench A

module _ {W E : Type 0} (now : W → ℕ) (call : ℕ → W → Result E (Unit {0}) × W)
    (message : String) where
  -- `for i in from..from + rounds`, with the time of each call.
  unfoldable pub timed_calls : ℕ → ℕ → List ℕ → W → Bench (List ℕ) × W
  timed_calls zero i latencies w = (done latencies, w)
  timed_calls (suc rounds) i latencies w = elim (call i w).0 [
    | err _ ↦ (panicked message, (call i w).1)
    | ok _ ↦ timed_calls rounds (i + 1) (latencies ++ (now (call i w).1 - now w) ∷ []) (call i w).1
  ]

abbrev pub reported : {W : Type 0} → Bench (List ℕ) × W → Bench Latencies × W
reported (done latencies, w) = (done (print_latencies latencies), w)
reported (panicked message, w) = (panicked message, w)

module _ {W E : Type 0} (now : W → ℕ) (call : ℕ → W → Result E (Unit {0}) × W) where
  -- `call i` saves the event `evt-i` of agent `bench-latency`.
  unfoldable pub bench_save_event_latency : ℕ → W → Bench Latencies × W
  unfolding timed_calls print_latencies
  bench_save_event_latency iterations w =
      reported (timed_calls now call "save_event failed" iterations 0 [] w)

  -- `call i` inserts one row for the event `evt-i` of agent `bench-baseline`.
  unfoldable pub bench_baseline_mysql_insert : ℕ → W → Bench Latencies × W
  unfolding timed_calls print_latencies
  bench_baseline_mysql_insert iterations w =
      reported (timed_calls now call "INSERT failed" iterations 0 [] w)

-- What the waiting loop of `bench_batch_persistence` prints: the time until all rows were visible, or
-- the rows that were there at the timeout.
pub data Polled : Type 0 where
  persisted : (after_ms : ℕ) → Polled
  timed_out : (count : ℕ) → Polled

abbrev pub deadline_ms : ℕ
deadline_ms = 15000

-- `count_rows` is the query, with 0 where it fails; `sleep` waits 5 ms.
module _ {W : Type 0} (now : W → ℕ) (count_rows : W → ℕ × W) (sleep : W → W) where
  unfoldable pub await_persisted : ℕ → ℕ → ℕ → W → Option (Polled × W)
  await_persisted zero event_count start w = none
  await_persisted (suc fuel) event_count start w =
      let (count, w') = count_rows w in
      elim (leb event_count count) [
        | true ↦ some (persisted (now w' - start), w')
        | false ↦ elim (ltb deadline_ms (now w' - start)) [
          | true ↦ some (timed_out count, w')
          | false ↦ await_persisted fuel event_count start (sleep w')
        ]
      ]

module _ {W Store ConnectError SaveError : Type 0}
    (connect : SkialithConfig → W → Result ConnectError Store × W)
    (save_event : Store → ℕ → W → Result SaveError (Unit {0}) × W) (now : W → ℕ)
    (count_rows : W → ℕ × W) (sleep : W → W) (clean_up : Store → W → W) where
  -- `save_event s i` saves the event of number `i` of this run.
  unfoldable pub save_events : Store → ℕ → ℕ → W → Bench (Unit {0}) × W
  save_events s zero i w = (done tt, w)
  save_events s (suc rounds) i w = elim (save_event s i w).0 [
    | err _ ↦ (panicked "save_event failed", (save_event s i w).1)
    | ok _ ↦ save_events s rounds (i + 1) (save_event s i w).1
  ]

  abbrev cleaned : Store → Option (Polled × W) → Option (Bench Polled × W)
  cleaned s none = none
  cleaned s (some (p, w)) = some (done p, clean_up s w)

  abbrev awaited : ℕ → ℕ → Store → Bench (Unit {0}) × W → Option (Bench Polled × W)
  awaited fuel event_count s (panicked message, w) = some (panicked message, w)
  awaited fuel event_count s (done _, w) =
      cleaned s (await_persisted now count_rows sleep fuel event_count (now w) w)

  abbrev profiled : ℕ → ℕ → Result ConnectError Store × W → Option (Bench Polled × W)
  profiled fuel event_count (err _, w) = some (panicked "connect failed", w)
  profiled fuel event_count (ok s, w) = awaited fuel event_count s (save_events s event_count 0 w)

  -- One round of the loop over the profiles. `clean_up` deletes the rows and drops the store.
  unfoldable pub bench_profile : ℕ → ℕ → SkialithConfig → W → Option (Bench Polled × W)
  unfolding save_events await_persisted
  bench_profile fuel event_count cfg w = profiled fuel event_count (connect cfg w)

  -- `none`: a waiting loop has not ended within the fuel.
  unfoldable pub bench_batch_persistence :
      ℕ → ℕ → List SkialithConfig → W → Option (Bench (List Polled) × W)
  unfolding bench_profile
  bench_batch_persistence fuel event_count [] w = some (done [], w)
  bench_batch_persistence fuel event_count (cfg ∷ profiles) w =
      elim (bench_profile fuel event_count cfg w) [
        | none ↦ none
        | some (panicked message, w') ↦ some (panicked message, w')
        | some (done p, w') ↦ elim (bench_batch_persistence fuel event_count profiles w') [
          | none ↦ none
          | some (panicked message, w'') ↦ some (panicked message, w'')
          | some (done ps, w'') ↦ some (done (p ∷ ps), w'')
        ]
      ]

-- The profiles of `bench_batch_persistence`.
abbrev pub profiles : List SkialithConfig
profiles = community_config ∷ managed_config ∷ []
