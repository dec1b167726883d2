-- ===== src/Benchmark/Main/Stops.antt =====
-- How a run of the benchmark ends without an HA licence.
use skialith.Common.{
  ℕ, ◌+◌, ◌≤◌, ◌<◌, ◌≡◌, refl, ap, inl, inr, String, false, some, [], ◌∷◌, Result, ok, err, arith,
  ltb, Bool-cases, Result-cases,
}
use skialith.License.{Keys, load, allows_ha}
use skialith.Lock.{KeyValue, ComparesAndSwaps, lock_ttl}
use skialith.Lock.Soon.{Since, nothing, Since-trans}
use skialith.Store.Config.{SkialithConfig}
use skialith.Store.Config
use skialith.Store.Streams.{agent_traces_stream}
use skialith.Store.Connect.{Stop, returned, panic, connect_panic}
use skialith.Store.Connect.Again.{connects_once}
use skialith.Benchmark.{
  Bench, done, Latencies, Polled, timed_calls, bench_save_event_latency, bench_batch_persistence,
  community_config, managed_config, profiles, reported,
}
use skialith.Benchmark
use skialith.Benchmark.Calls.{AnsweredBy, reported-timed_calls}
use skialith.Benchmark.Profiles.{refused_profile}
use skialith.Benchmark.Main.{
  BenchError, failed, panicked, clear_bench_data, StoreOf, StoreErrorOf, WorldOf, Surroundings,
  Outcome, connect_store, first_scenario, after_first, after_connect, after_pool, after_stream,
  after_nats, main, stream, nats, store, sqlx, nats_url, tidb_url,
}

module _ (keys : Keys) (k : KeyValue) (A B C D E F Tx R Stream SaveError : Type 0)
    (cas : ComparesAndSwaps k) where
  abbrev pub Program : Type 0
  Program = Surroundings keys k A B C D E F Tx R Stream SaveError

  abbrev pub W : Type 0
  W = WorldOf keys k A B C D E F Tx R Stream SaveError

  abbrev pub TheStore : Type 0
  TheStore = StoreOf keys k A B C D E F Tx R Stream SaveError

  abbrev pub TheError : Type 0
  TheError = StoreErrorOf keys k A B C D E F Tx R Stream SaveError

  module _ (p : Program) where
    abbrev pub connects : SkialithConfig → W → Result (Stop TheError) TheStore × W
    connects = connect_store keys k A B C D E F Tx R Stream SaveError p

    abbrev pub first : TheStore → W → Bench Latencies × W
    first = first_scenario keys k A B C D E F Tx R Stream SaveError p

    abbrev clock : W → ℕ
    clock w = p.seconds w.rest

    abbrev db_url : String
    db_url = tidb_url keys k A B C D E F Tx R Stream SaveError p

    abbrev server_url : String
    server_url = nats_url keys k A B C D E F Tx R Stream SaveError p

    -- The world that a run connects its store in, where it gets that far.
    abbrev pub asked : W → W
    asked w =
        (p.connect_pool db_url
          (p.get_or_create_stream agent_traces_stream (p.connect_nats server_url w).1).1).1

    -- The clock has not been set back, and nothing but instances have touched the bucket.
    pub record Ages (w w' : W) : Type 0 where
      pub later : clock w ≤ clock w'
      pub bucket : Since k cas (clock w) w.kv w'.kv

    Ages-refl : (w : W) → Ages w w
    Ages-refl w = record { later = omega arith; bucket = nothing }

    Ages-trans : {w w' w'' : W} → Ages w w' → Ages w' w'' → Ages w w''
    Ages-trans a b = record {
      later = omega (arith, a.later, b.later);
      bucket = Since-trans k cas a.later a.bucket b.bucket;
    }

    -- What a run relies on: time goes on while a store connects, in the calls of `save_event` and in the
    -- statements; and, the claim of the lock aside, these leave the bucket to the instances.
    pub record IsTimely : Type 0 where
      pub dialling : (w : W) → Ages w (p.dialling w)
      pub finishing : (w : W) → Ages w (p.finishing w)
      pub saving : (s : TheStore) (i : ℕ) (w : W) → Ages w (p.latency_event s i w).1
      pub executing : (sql : String) (w : W) → Ages w (p.execute sql w).1

    Ages-clear : IsTimely → (w : W) → Ages w (clear_bench_data p.execute w)
    unfolding clear_bench_data
    Ages-clear timely w = Ages-trans (timely.executing _ w) (timely.executing _ _)

    -- The first scenario, from the world in which the store was connected.
    first_scenario_lem :
        IsTimely
        → (s : TheStore) (w : W)
        → Ages w (first s w).1 × AnsweredBy "save_event failed" (first s w).0
    unfolding bench_save_event_latency
    first_scenario_lem timely s w =
        let (later, answer) =
          reported-timed_calls p.now (p.latency_event s) Ages Ages-refl (λ w w1 w2. Ages-trans)
            (timely.saving s) "save_event failed" 500 (clear_bench_data p.execute w) in
        (Ages-trans (Ages-clear timely w) later, answer)

    module _ (fuel : ℕ) where
      -- The ways in which a run can go that connects its store in the world `w` and has the outcome `o`:
      -- it ends at a connection, an event of the first scenario is not saved, the second scenario is
      -- refused its store, or the second store asks for the lock when that of the first could have run out.
      pub data Course (w : W) (o : Outcome keys k A B C D E F Tx R Stream SaveError p)
          : Type 0 where
        not_started :
            (e : BenchError B Stream F TheError) (w' : W) → o ≡ some (failed e, w') → Course w o
        unsaved : (w' : W) → o ≡ some (panicked "save_event failed", w') → Course w o
        refused : (w' : W) → o ≡ some (panicked "connect failed", w') → Course w o
        slow :
            (s : TheStore) (w' : W) (l : Latencies)
            → (connects Config.default w).0 ≡ ok s
            → first s (connects Config.default w).1 ≡ (done l, w')
            → clock (p.dialling w) + lock_ttl ≤ clock (p.dialling w')
            → o ≡ after_first keys k A B C D E F Tx R Stream SaveError p fuel s (done l, w')
            → Course w o

      module _ (timely : IsTimely)
          (no_ha : (t : ℕ) → allows_ha t (load keys (p.vars "SKIALITH_LICENSE_KEY")) ≡ false) where
        second_refused :
            (s : TheStore) (w w' : W) (l : Latencies)
            → (connects Config.default w).0 ≡ ok s
            → Ages (connects Config.default w).1 w'
            → clock (p.dialling w') < clock (p.dialling w) + lock_ttl
            → Course w (after_first keys k A B C D E F Tx R Stream SaveError p fuel s (done l, w'))
        unfolding connect_store
        second_refused s w w' l held ages soon =
            let dialled = timely.dialling w in
            let finished = timely.finishing (record { kv = _; rest = (p.dialling w).rest }) in
            let since = Ages-trans finished (Ages-trans ages (timely.dialling w')) in
            elim (Result-cases (connects community_config w').0) [
              | inl (s', again) ↦ absurd (
                  connects_once keys k A B C D E F Tx cas (clock w) (clock w) (clock (p.dialling w))
                    (p.vars "SKIALITH_LICENSE_KEY") p.managed Config.default _ _ (p.dialling w).kv
                    (p.dialling w').kv s s' (clock w') (clock w') (clock (p.dialling w'))
                    community_config _ _ held (no_ha (clock w)) since.bucket
                    (omega (arith, dialled.later, finished.later, ages.later)) soon again)
              | inr (x, e) ↦ refused (connects community_config w').1 (
                  rw
                    (refused_profile (connects) p.batch_event p.now p.count_rows p.sleep p.clean_up
                      fuel 1000 community_config (managed_config ∷ []) w' x e)
                    refl)
            ]

        first_done :
            (s : TheStore) (w : W) (r : Bench Latencies × W)
            → (connects Config.default w).0 ≡ ok s
            → first s (connects Config.default w).1 ≡ r
            → Ages (connects Config.default w).1 r.1
            → AnsweredBy "save_event failed" r.0
            → Course w (after_first keys k A B C D E F Tx R Stream SaveError p fuel s r)
        first_done s w (Benchmark.panicked m, w') held run ages e =
            unsaved w' (ap (λ m. some (panicked m, w')) e)
        first_done s w (done l, w') held run ages _ =
            elim (Bool-cases (ltb (clock (p.dialling w')) (clock (p.dialling w) + lock_ttl))) [
              | inl soon ↦ second_refused s w w' l held ages (ground arith)
              | inr late ↦ slow s w' l held run (ground arith) refl
            ]

        never_panics :
            (w : W) (message : String)
            → (connects Config.default w).0 ≡ err (panic message)
            → Config.default.channel_capacity ≡ 0
        unfolding connect_store
        never_panics w message h =
            connect_panic keys k A B C D E F Tx (clock w) (clock w) (clock (p.dialling w)) _
              p.managed Config.default _ _ (p.dialling w).kv message h

        connected :
            (w : W) (r : Result (Stop TheError) TheStore)
            → (connects Config.default w).0 ≡ r
            → Course w (
                after_connect keys k A B C D E F Tx R Stream SaveError p fuel
                  (r, (connects Config.default w).1))
        connected w (err (returned e)) h = not_started (store e) _ refl
        connected w (err (panic message)) h = absurd (omega (arith, never_panics w message h))
        connected w (ok s) h =
            let w1 = (connects Config.default w).1 in
            let (ages, answer) = first_scenario_lem timely s w1 in
            first_done s w _ h refl ages answer

        pool_asked :
            (w : W) (r : Result F (Unit {0}))
            → Course w (after_pool keys k A B C D E F Tx R Stream SaveError p fuel (r, w))
        pool_asked w (err e) = not_started (sqlx e) w refl
        pool_asked w (ok _) = connected w _ refl

        stream_asked :
            (w : W) (r : Result Stream (Unit {0}))
            → Course
                (p.connect_pool db_url w).1
                (after_stream keys k A B C D E F Tx R Stream SaveError p fuel (r, w))
        stream_asked w (err e) = not_started (stream e) w refl
        stream_asked w (ok _) = pool_asked (p.connect_pool db_url w).1 (p.connect_pool db_url w).0

        nats_asked :
            (w : W) (r : Result B (Unit {0}))
            → Course
                (p.connect_pool db_url (p.get_or_create_stream agent_traces_stream w).1).1
                (after_nats keys k A B C D E F Tx R Stream SaveError p fuel (r, w))
        nats_asked w (err e) = not_started (nats e) w refl
        nats_asked w (ok _) =
            stream_asked (p.get_or_create_stream agent_traces_stream w).1
              (p.get_or_create_stream agent_traces_stream w).0

        -- Without an HA licence, the benchmark does not get past its second scenario, save where that asks
        -- for the lock 30 seconds or more after its own store has: it returns the error of a connection,
        -- or an event of the first scenario is not saved and it panics, or there are those 30 seconds,
        -- or `main`, which holds the lock for as long as it runs, is in the way of the store that the
        -- second scenario connects, and it panics. Other instances may start and beat meanwhile, and an
        -- answer of the bucket may be an error or be lost. The clock is not set back, and connecting,
        -- saving and the statements leave the bucket to the instances.
        pub main-Course :
            (w : W) → Course (asked w) (main keys k A B C D E F Tx R Stream SaveError p fuel w)
        unfolding main
        main-Course w = nats_asked (p.connect_nats server_url w).1 (p.connect_nats server_url w).0
