-- ===== src/Server/Startup.antt =====
-- `main` of src/bin/server.rs: the variables, the connections, and the requests that are then served.
pub mod Port
pub mod Started
use Prim.Native.Char.{Char, code}
use Prim.Native.String.{String}
use skialith.Common.{
  ℕ, ◌+◌, ◌-◌, ◌*◌, Bool, ◌&&◌, Option, none, some, List, Result, ok, err, unwrap_or, leb, ltb,
  ◌==◌, if◌then◌else◌,
}
use skialith.License.{Keys}
use skialith.Lock.{KeyValue, Heartbeat}
use skialith.Trace.Table.{TraceTable}
use skialith.Store.Config.{SkialithStore}
use skialith.Store.Config
use skialith.Store.SaveEvent.{Services, StateOf, ErrorOf}
use skialith.Store.Connect.{Stop, returned, panic, connect}
use skialith.Server.{AppState}
use skialith.Server.Requests.{Request, Response, serve}

abbrev pub is_digit : Char → Bool
is_digit c = leb b'0' (code c) && leb (code c) b'9'

abbrev pub digit_of : Char → ℕ
digit_of c = code c - b'0'

-- `checked_mul` and `checked_add` on u16.
abbrev pub checked : ℕ → Option ℕ
checked n = if ltb n 65536 then some n else none

abbrev pub digit_added : Option ℕ → ℕ → Option ℕ
digit_added none d = none
digit_added (some n) d = checked (n + d)

-- The loop of `u16::from_str`, over the number read so far.
unfoldable pub parse_digits : ℕ → String → Option ℕ
parse_digits n String.[] = some n
parse_digits n (String.◌∷◌ c s) =
    elim (if is_digit c then digit_added (checked (n * 10)) (digit_of c) else none) [
      | none ↦ none
      | some n' ↦ parse_digits n' s
    ]

abbrev pub parse_unsigned : String → Option ℕ
parse_unsigned String.[] = none
parse_unsigned (String.◌∷◌ c s) = parse_digits 0 (String.◌∷◌ c s)

-- One `+` may stand before the digits.
abbrev pub without_plus : String → String
without_plus String.[] = String.[]
without_plus (String.◌∷◌ c s) = if code c == b'+' then s else String.◌∷◌ c s

-- `parse::<u16>`; the kinds of its errors are not told apart.
unfoldable pub parse_u16 : String → Option ℕ
unfolding parse_digits
parse_u16 s = parse_unsigned (without_plus s)

-- How the program stops before it serves: an `expect`, or an error that `?` passes on.
pub data Stopped (StoreError Connect Io : Type 0) : Type 0 where
  panicked : (message : String) → Stopped StoreError Connect Io
  store : StoreError → Stopped StoreError Connect Io
  nats : Connect → Stopped StoreError Connect Io
  bind : Io → Stopped StoreError Connect Io

module _ (v : Services) (keys : Keys) (k : KeyValue) (t : TraceTable v.json.Value)
    (Tx Nats Io : Type 0) where
  open v use {json.{Value}}

  -- What surrounds the process: the variables, those of `.env` among them; what the servers answer to
  -- the store and to the client of the manager; whether the port is free; the clock, in seconds where
  -- `connect` reads it and as `Limits.Limiter` takes it.
  pub record Surroundings : Type 0 where
    pub managed : Bool
    pub vars : String → Option String
    pub nats_at : String → Result v.Connect (Unit {0})
    pub tidb_at : String → Result v.Sqlx (Unit {0})
    pub manager_at : String → Result v.Connect (Unit {0})
    pub bind_at : ℕ → Result Io (Unit {0})
    pub license_now : ℕ
    pub ha_now : ℕ
    pub lock_now : ℕ
    pub now : ℕ → ℕ → ℕ

  abbrev pub StoppedOf : Type 0
  StoppedOf = Stopped (ErrorOf v) v.Connect Io

  abbrev pub Served : Type 0
  Served = List (Response Value) × AppState v t Nats

  abbrev pub Outcome : Type 0
  Outcome = Result StoppedOf (Option Served)

  abbrev pub nats_url : Surroundings → String
  nats_url w = unwrap_or (w.vars "NATS_URL") "nats://127.0.0.1:4222"

  abbrev pub port : Surroundings → Option ℕ
  port w = parse_u16 (unwrap_or (w.vars "SERVER_PORT") "8080")

  abbrev pub connected :
      Surroundings → String → k.Kv → Result (Stop (ErrorOf v)) (SkialithStore Tx Heartbeat) × k.Kv
  connected w tidb_url kv =
      connect keys k v.json.Error v.Connect v.NatsPublish v.jet_stream.PublishError v.CreateStream
        v.Sqlx Tx w.license_now w.ha_now w.lock_now (w.vars "SKIALITH_LICENSE_KEY") w.managed
        Config.default (w.nats_at (nats_url w)) (w.tidb_at tidb_url) kv

  -- `AppState`, over the store that has been connected.
  abbrev pub app_of : SkialithStore Tx Heartbeat → AppState v t Nats → AppState v t Nats
  app_of s app = record app { store = record app.store { rate_limiter = s.rate_limiter } }

  abbrev pub bound :
      ℕ
      → Surroundings
      → List (Request Value)
      → SkialithStore Tx Heartbeat
      → AppState v t Nats
      → Result Io (Unit {0})
      → Outcome
  bound fuel w requests s app (err e) = err (bind e)
  bound fuel w requests s app (ok _) =
      ok (serve v t Nats fuel w.now s.rate_limit requests (app_of s app))

  abbrev pub with_manager :
      ℕ
      → Surroundings
      → List (Request Value)
      → ℕ
      → SkialithStore Tx Heartbeat
      → AppState v t Nats
      → Result v.Connect (Unit {0})
      → Outcome
  with_manager fuel w requests p s app (err e) = err (nats e)
  with_manager fuel w requests p s app (ok _) = bound fuel w requests s app (w.bind_at p)

  abbrev pub with_store :
      ℕ
      → Surroundings
      → List (Request Value)
      → ℕ
      → AppState v t Nats
      → Result (Stop (ErrorOf v)) (SkialithStore Tx Heartbeat)
      → Outcome
  with_store fuel w requests p app (err (returned e)) = err (store e)
  with_store fuel w requests p app (err (panic message)) = err (panicked message)
  with_store fuel w requests p app (ok s) =
      with_manager fuel w requests p s app (w.manager_at (nats_url w))

  abbrev pub with_port :
      ℕ
      → Surroundings
      → List (Request Value)
      → String
      → k.Kv
      → AppState v t Nats
      → Option ℕ
      → Outcome × k.Kv
  with_port fuel w requests tidb_url kv app none =
      (err (panicked "SERVER_PORT must be a valid port number"), kv)
  with_port fuel w requests tidb_url kv app (some p) =
      let c = connected w tidb_url kv in (with_store fuel w requests p app c.0, c.1)

  abbrev pub with_url :
      ℕ
      → Surroundings
      → List (Request Value)
      → k.Kv
      → AppState v t Nats
      → Option String
      → Outcome × k.Kv
  with_url fuel w requests kv app none =
      (err (panicked "TIDB_URL environment variable is required"), kv)
  with_url fuel w requests kv app (some tidb_url) =
      with_port fuel w requests tidb_url kv app (port w)

  -- `app` has the log and the queue that the store gets, and the database. `ok none`: the rate limiter
  -- has not returned within the fuel.
  unfoldable pub main :
      ℕ → Surroundings → List (Request Value) → k.Kv → AppState v t Nats → Outcome × k.Kv
  unfolding connect serve
  main fuel w requests kv app = with_url fuel w requests kv app (w.vars "TIDB_URL")
