-- ===== src/Main.antt =====
-- src/main.rs: the example program. It connects a store, runs the migrations and saves one event.
pub mod Ran
use skialith.Common.{
  ℕ, String, Bool, Option, none, some, [], ◌∷◌, Result, ok, err, map_err, unwrap_or,
}
use skialith.License.{Keys}
use skialith.Lock.{KeyValue, Heartbeat}
use skialith.Store.Config.{SkialithConfig, SkialithStore}
use skialith.Store.Config
use skialith.Store.SaveEvent.{Services, StateOf, ErrorOf, save_event}
use skialith.Store.Connect.{Stop, returned, panic, connect}

pub record ExamplePayload : Type 0 where
  pub message : String

-- What `?` passes to the caller of `main`.
pub data MainError (Store Migrate : Type 0) : Type 0 where
  no_variable : (name : String) → MainError Store Migrate
  store : Store → MainError Store Migrate
  migrate : Migrate → MainError Store Migrate
  panicked : (message : String) → MainError Store Migrate

module _ (v : Services) (keys : Keys) (k : KeyValue) (Tx Migrate : Type 0) where
  -- What surrounds the process: the variables, those of `.env` among them; what the servers answer;
  -- the clock, in seconds where `connect` reads it and as `Limits.Limiter` takes it.
  pub record Surroundings : Type 0 where
    pub managed : Bool
    pub vars : String → Option String
    pub nats_at : String → Result v.Connect (Unit {0})
    pub tidb_at : String → Result v.Sqlx (Unit {0})
    pub migrations : Result Migrate (Unit {0})
    pub license_now : ℕ
    pub ha_now : ℕ
    pub lock_now : ℕ
    pub now : ℕ → ℕ → ℕ

  -- The bucket of the lock; and the log, the queue and the limiter that the store gets.
  pub record Process : Type 0 where
    pub kv : k.Kv
    pub state : StateOf v

  abbrev pub StoreError : Type 0
  StoreError = ErrorOf v

  abbrev pub Outcome : Type 0
  Outcome = Option (Result (MainError StoreError Migrate) (Unit {0}) × Process)

  -- `ExamplePayload`, serialised.
  abbrev pub payload_value : ExamplePayload → Result v.json.Error v.json.Value
  payload_value p = ok (v.json.object (("message", v.json.string p.message) ∷ []))

  abbrev pub example : ExamplePayload
  example = record { message = "hello from skialith_store" }

  -- The state of a store that has been connected: its limiter is new.
  abbrev pub opened : SkialithStore Tx Heartbeat → StateOf v → StateOf v
  opened s state = record state { rate_limiter = s.rate_limiter }

  abbrev pub nats_url : Surroundings → String
  nats_url w = unwrap_or (w.vars "NATS_URL") "nats://127.0.0.1:4222"

  abbrev pub connected :
      Surroundings → String → k.Kv → Result (Stop StoreError) (SkialithStore Tx Heartbeat) × k.Kv
  connected w tidb_url kv =
      connect keys k v.json.Error v.Connect v.NatsPublish v.jet_stream.PublishError v.CreateStream
        v.Sqlx Tx w.license_now w.ha_now w.lock_now (w.vars "SKIALITH_LICENSE_KEY") w.managed
        Config.default (w.nats_at (nats_url w)) (w.tidb_at tidb_url) kv

  abbrev ended : k.Kv → Option (Result StoreError (Unit {0}) × StateOf v) → Outcome
  ended kv none = none
  ended kv (some (r, state)) = some (map_err store r, record { kv = kv; state = state })

  abbrev pub migrated :
      ℕ → Surroundings → SkialithStore Tx Heartbeat → Result Migrate (Unit {0}) → Process → Outcome
  migrated fuel w s (err e) p = some (err (migrate e), p)
  migrated fuel w s (ok _) p = ended p.kv (
      save_event v payload_value fuel w.now s.rate_limit "agent-123" "event-001" example
        (opened s p.state))

  abbrev pub with_store :
      ℕ
      → Surroundings
      → StateOf v
      → Result (Stop StoreError) (SkialithStore Tx Heartbeat) × k.Kv
      → Outcome
  with_store fuel w state (err (returned e), kv) =
      some (err (store e), record { kv = kv; state = state })
  with_store fuel w state (err (panic message), kv) =
      some (err (panicked message), record { kv = kv; state = state })
  with_store fuel w state (ok s, kv) =
      migrated fuel w s w.migrations (record { kv = kv; state = state })

  abbrev pub with_url : ℕ → Surroundings → Option String → Process → Outcome
  with_url fuel w none p = some (err (no_variable "TIDB_URL"), p)
  with_url fuel w (some tidb_url) p = with_store fuel w p.state (connected w tidb_url p.kv)

  -- `none`: the rate limiter has not returned within the fuel.
  unfoldable pub main : ℕ → Surroundings → Process → Outcome
  unfolding connect save_event
  main fuel w p = with_url fuel w (w.vars "TIDB_URL") p
