-- ===== src/Store/Connect.antt =====
-- `SkialithStore::connect`: the licence, the lock, the connections.
pub mod Again
pub mod Fresh
pub mod LockedOut
use skialith.Common.{
  ℕ, ◌≡◌, ◌≢◌, ◌<◌, inl, sym, ap, ◌∙◌, String, Bool, Option, none, some, Bool-cases, ◌==◌, arith,
  inr, Result, ok, err, ok-inj,
}
use skialith.Common.Text.{◌<>◌, trim}
use skialith.Limits.{community_rate_limit}
use skialith.License.{Keys, load, effective_rate_limit, allows_ha}
use skialith.License.Terms.{License}
use skialith.License.Signed.{IsSigned, granted-IsSigned}
use skialith.Lock.{KeyValue, LockError, already_running, nats, Heartbeat, acquire}
use skialith.Store.Config.{SkialithConfig, SkialithStore, clamp, new}
use skialith.Limits.Limiter.{default}
use skialith.Store.SaveEvent.{SkialithError, nats_connect, sqlx, instance_lock}

-- The `#[error]` texts of `LockError`.
unfoldable pub display_lock : LockError → String
display_lock already_running =
    "Community Edition allows only one instance.\nAnother instance is already running (NATS KV lock held).\nRunning multiple instances bypasses the Community rate limit and risks duplicate writes.\nUpgrade to an enterprise license for coordinated HA: hello@durable.dev"
display_lock (nats text) = "NATS KV error acquiring instance lock: " <> text

-- How a call does not come to a store: with an error, or with a panic.
pub data Stop (E : Type 0) : Type 0 where
  returned : E → Stop E
  panic : String → Stop E

module _ (keys : Keys) (k : KeyValue) (A B C D E F Tx : Type 0) where
  abbrev pub ConnectError : Type 0
  ConnectError = Stop (SkialithError A B C D E F)

  abbrev pub Store : Type 0
  Store = SkialithStore Tx Heartbeat

  abbrev pub created : Option Store → Result ConnectError Store
  created none = err (panic "mpsc bounded channel requires buffer > 0")
  created (some s) = ok s

  -- With the lock, the database; with both, the store.
  abbrev pub with_database :
      Bool → SkialithConfig → ℕ → Heartbeat → Result F (Unit {0}) → Result ConnectError Store
  with_database managed cfg rate_limit lock (err e) = err (returned (sqlx e))
  with_database managed cfg rate_limit lock (ok _) =
      created (new managed cfg rate_limit (some lock))

  abbrev pub with_lock :
      Bool
      → SkialithConfig
      → ℕ
      → Result F (Unit {0})
      → Result LockError Heartbeat
      → Result ConnectError Store
  with_lock managed cfg rate_limit database (err e) =
      err (returned (instance_lock (display_lock e)))
  with_lock managed cfg rate_limit database (ok lock) =
      with_database managed cfg rate_limit lock database

  -- The clock in seconds is read for the rate limit, for HA and by the lock; then comes the licence
  -- variable. The answers of NATS and of the database come as arguments.
  unfoldable pub connect :
      ℕ
      → ℕ
      → ℕ
      → Option String
      → Bool
      → SkialithConfig
      → Result B (Unit {0})
      → Result F (Unit {0})
      → k.Kv
      → Result ConnectError Store × k.Kv
  unfolding effective_rate_limit allows_ha load acquire new display_lock
  connect now ha_now lock_now var managed cfg (err e) database kv =
      (err (returned (nats_connect e)), kv)
  connect now ha_now lock_now var managed cfg (ok _) database kv =
      let license = load keys var in
      let locked = acquire k lock_now (allows_ha ha_now license) kv in
      (with_lock managed cfg (effective_rate_limit now license) database locked.0, locked.1)

  pub fresh_limits :
      (managed : Bool) (cfg : SkialithConfig) (rate_limit : ℕ) (lock : Option Heartbeat) (s : Store)
      → created (new managed cfg rate_limit lock) ≡ ok s
      → (s.rate_limit ≡ rate_limit) × (s.rate_limiter ≡ default)
  unfolding new
  fresh_limits managed cfg rl lock s h =
      elim (Bool-cases ((clamp managed cfg).channel_capacity == 0)) [
        | inl z ↦ absurd (let e = rw z at h in cc)
        | inr nz ↦
            let e = rw nz at h in
            (sym (ap (λ x. x.rate_limit) (ok-inj e)), sym (ap (λ x. x.rate_limiter) (ok-inj e)))
      ]

  created_panic :
      (managed : Bool) (cfg : SkialithConfig) (rate_limit : ℕ) (lock : Option Heartbeat)
      (message : String)
      → created (new managed cfg rate_limit lock) ≡ err (panic message)
      → cfg.channel_capacity ≡ 0
  unfolding new clamp
  created_panic managed cfg rl lock message h = elim (Bool-cases (cfg.channel_capacity == 0)) [
    | inl z ↦ ground arith
    | inr nz ↦ absurd (let e = rw nz at h in cc)
  ]

  with_lock_panic :
      (managed : Bool) (cfg : SkialithConfig) (rate_limit : ℕ) (database : Result F (Unit {0}))
      (locked : Result LockError Heartbeat) (message : String)
      → with_lock managed cfg rate_limit database locked ≡ err (panic message)
      → cfg.channel_capacity ≡ 0
  with_lock_panic managed cfg rl database (err e) message h = cc
  with_lock_panic managed cfg rl (err e) (ok lock) message h = cc
  with_lock_panic managed cfg rl (ok _) (ok lock) message h =
      created_panic managed cfg rl (some lock) message h

  -- It panics for a channel of capacity 0 alone.
  pub connect_panic :
      (now ha_now lock_now : ℕ) (var : Option String) (managed : Bool) (cfg : SkialithConfig)
      (server : Result B (Unit {0})) (database : Result F (Unit {0})) (kv : k.Kv) (message : String)
      → (connect now ha_now lock_now var managed cfg server database kv).0 ≡ err (panic message)
      → cfg.channel_capacity ≡ 0
  unfolding connect
  connect_panic now ha_now lock_now var managed cfg (err e) database kv message h = cc
  connect_panic now ha_now lock_now var managed cfg (ok _) database kv message h =
      with_lock_panic managed cfg _ database _ message h

  with_lock-rate_limit :
      (managed : Bool) (cfg : SkialithConfig) (rate_limit : ℕ) (database : Result F (Unit {0}))
      (locked : Result LockError Heartbeat) (s : Store)
      → with_lock managed cfg rate_limit database locked ≡ ok s
      → s.rate_limit ≡ rate_limit
  with_lock-rate_limit managed cfg rl database (err e) s h = cc
  with_lock-rate_limit managed cfg rl (err e) (ok lock) s h = cc
  with_lock-rate_limit managed cfg rl (ok _) (ok lock) s h =
      (fresh_limits managed cfg rl (some lock) s h).0

  -- A store that was connected with another rate limit than the community ceiling was started with a
  -- licence key that, once trimmed, is signed and had not expired.
  pub connect-IsSigned :
      (now ha_now lock_now : ℕ) (var : Option String) (managed : Bool) (cfg : SkialithConfig)
      (server : Result B (Unit {0})) (database : Result F (Unit {0})) (kv : k.Kv) (s : Store)
      → (connect now ha_now lock_now var managed cfg server database kv).0 ≡ ok s
      → s.rate_limit ≢ community_rate_limit
      → (raw : String) × (lic : License) × (var ≡ some raw)
        × IsSigned keys (trim raw) lic
        × (now < lic.expires_at)
  unfolding connect
  connect-IsSigned now ha_now lock_now var managed cfg (err e) database kv s h more = cc
  connect-IsSigned now ha_now lock_now var managed cfg (ok _) database kv s h more =
      let e = with_lock-rate_limit managed cfg _ database _ s h in
      granted-IsSigned keys now var (inl (λ eq. more (e ∙ eq)))
