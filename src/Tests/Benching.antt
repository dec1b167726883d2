-- ===== src/Tests/Benching.antt =====
-- The benchmark at concrete inputs.
use skialith.Common.{ℕ, ◌+◌, ◌≤◌, ◌≡◌, refl, false, none, [], ◌∷◌, ok, arith}
use skialith.License.{load, allows_ha}
use skialith.Lock.Soon.{nothing}
use skialith.Store.Config.{clamp}
use skialith.Limits.{max_batch_size, min_flush_interval_ms}
use skialith.Benchmark.{community_config, managed_config, print_latencies}
use skialith.Benchmark.Quantiles.{IsQuantile, print_latencies_lem}
use skialith.Benchmark.Main.{World, main}
use skialith.Benchmark.Main.Stops.{Program, Course, main-Course}
use skialith.Tests.Locking.{Bucket, bucket, bucket-ComparesAndSwaps}
use skialith.Tests.Licensing.{keys}

print_latencies_lem_example :
    let l = print_latencies (7 ∷ 3 ∷ 9 ∷ []) in
    IsQuantile 50 l.p50 (7 ∷ 3 ∷ 9 ∷ [])
    × IsQuantile 95 l.p95 (7 ∷ 3 ∷ 9 ∷ [])
    × IsQuantile 99 l.p99 (7 ∷ 3 ∷ 9 ∷ [])
    × IsQuantile 100 l.maximum (7 ∷ 3 ∷ 9 ∷ [])
    × (l.p50 ≤ l.p95)
    × (l.p95 ≤ l.p99)
    × (l.p99 ≤ l.maximum)
print_latencies_lem_example = print_latencies_lem 7 (3 ∷ 9 ∷ [])

printed_latencies :
    print_latencies (7 ∷ 3 ∷ 9 ∷ []) ≡ record { p50 = 7; p95 = 9; p99 = 9; maximum = 9 }
unfolding print_latencies
printed_latencies = refl

-- A Community build clamps the second profile to the first.
clamped_profile : clamp false managed_config ≡ community_config
unfolding clamp max_batch_size min_flush_interval_ms
clamped_profile = refl

abbrev fresh : Bucket
fresh = record { count = 0; revision = 0; written = 0 }

abbrev bench_world : World Bucket ℕ
bench_world = record { kv = fresh; rest = 100 }

-- The servers answer, every event is saved, and a connection takes a second.
abbrev bench_run :
    Program keys bucket
      (Unit {0})
      (Unit {0})
      (Unit {0})
      (Unit {0})
      (Unit {0})
      (Unit {0})
      (Unit {0})
      ℕ
      (Unit {0})
      (Unit {0})
      bucket-ComparesAndSwaps
bench_run = record {
  managed = false;
  vars = λ name. none;
  seconds = λ t. t;
  now = λ w. 0;
  connect_nats = λ url w. (ok tt, w);
  get_or_create_stream = λ cfg w. (ok tt, w);
  connect_pool = λ url w. (ok tt, w);
  nats_answer = λ url t. ok tt;
  tidb_answer = λ url t. ok tt;
  dialling = λ w. record w { rest = w.rest + 1 };
  finishing = λ w. w;
  execute = λ sql w. (ok tt, w);
  latency_event = λ s i w. (ok tt, w);
  batch_event = λ s i w. (ok tt, w);
  count_rows = λ w. (0, w);
  sleep = λ w. w;
  clean_up = λ s w. w;
  backpressure = λ s w. w;
  concurrent_throughput = λ s w. w;
  baseline_insert = λ i w. (ok tt, w);
}

main-Course_example :
    Course keys bucket
      (Unit {0})
      (Unit {0})
      (Unit {0})
      (Unit {0})
      (Unit {0})
      (Unit {0})
      (Unit {0})
      ℕ
      (Unit {0})
      (Unit {0})
      bucket-ComparesAndSwaps
      bench_run
      3002
      bench_world
      (main keys bucket
        (Unit {0})
        (Unit {0})
        (Unit {0})
        (Unit {0})
        (Unit {0})
        (Unit {0})
        (Unit {0})
        ℕ
        (Unit {0})
        (Unit {0})
        bench_run
        3002
        bench_world)
unfolding load allows_ha
main-Course_example =
    main-Course keys bucket (Unit {0}) (Unit {0}) (Unit {0}) (Unit {0}) (Unit {0}) (Unit {0})
      (Unit {0}) ℕ (Unit {0}) (Unit {0}) bucket-ComparesAndSwaps bench_run 3002
      (record {
        dialling = λ w. record { later = omega arith; bucket = nothing };
        finishing = λ w. record { later = omega arith; bucket = nothing };
        saving = λ s i w. record { later = omega arith; bucket = nothing };
        executing = λ sql w. record { later = omega arith; bucket = nothing };
      })
      (λ t. refl) bench_world
