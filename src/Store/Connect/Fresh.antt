-- ===== src/Store/Connect/Fresh.antt =====
-- The limiter of a store that has just been connected.
use skialith.Common.{ℕ, ◌≡◌, Bool, Option, some, String, Result, ok, err}
use skialith.License.{Keys}
use skialith.Limits.Limiter.{default}
use skialith.Lock.{KeyValue, LockError, Heartbeat}
use skialith.Store.Config.{SkialithConfig}
use skialith.Store.Connect.{Store, fresh_limits, with_lock, connect}

module _ (keys : Keys) (k : KeyValue) (A B C D E F Tx : Type 0) where
  with_lock-rate_limiter :
      (managed : Bool) (cfg : SkialithConfig) (rate_limit : ℕ) (database : Result F (Unit {0}))
      (locked : Result LockError Heartbeat) (s : Store keys k A B C D E F Tx)
      → with_lock keys k A B C D E F Tx managed cfg rate_limit database locked ≡ ok s
      → s.rate_limiter ≡ default
  with_lock-rate_limiter managed cfg rl database (err e) s h = cc
  with_lock-rate_limiter managed cfg rl (err e) (ok lock) s h = cc
  with_lock-rate_limiter managed cfg rl (ok _) (ok lock) s h =
      (fresh_limits keys k A B C D E F Tx managed cfg rl (some lock) s h).1

  -- It is new: it has granted nothing yet.
  pub connect-rate_limiter :
      (now ha_now lock_now : ℕ) (var : Option String) (managed : Bool) (cfg : SkialithConfig)
      (server : Result B (Unit {0})) (database : Result F (Unit {0})) (kv : k.Kv)
      (s : Store keys k A B C D E F Tx)
      → (connect keys k A B C D E F Tx now ha_now lock_now var managed cfg server database kv).0
        ≡ ok s
      → s.rate_limiter ≡ default
  unfolding connect
  connect-rate_limiter now ha_now lock_now var managed cfg (err e) database kv s h = cc
  connect-rate_limiter now ha_now lock_now var managed cfg (ok _) database kv s h =
      with_lock-rate_limiter managed cfg _ database _ s h
