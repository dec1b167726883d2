-- ===== src/Store/Connect/LockedOut.antt =====
-- A connection that fails after the lock was taken.
use skialith.Common.{
  ℕ, ◌+◌, ◌≤◌, ◌<◌, ◌≡◌, refl, sym, ap, ◌∙◌, String, Bool, false, Option, Result, ok, err,
}
use skialith.License.{Keys, load, effective_rate_limit, allows_ha}
use skialith.Lock.{
  KeyValue, ComparesAndSwaps, IsAvailable, LockError, already_running, lock_ttl, Heartbeat, acquire,
}
use skialith.Lock.Soon.{nothing, acquire_again}
use skialith.Store.Config.{SkialithConfig}
use skialith.Store.SaveEvent.{sqlx, instance_lock}
use skialith.Store.Connect.{returned, connect, with_lock, display_lock}
use skialith.Store.Connect.Again.{allows_ha_later, refused_connect}

module _ (keys : Keys) (k : KeyValue) (A B C D E F Tx : Type 0) where
  with_lock-sqlx :
      (managed : Bool) (cfg : SkialithConfig) (rate_limit : ℕ) (x : F)
      (locked : Result LockError Heartbeat)
      → with_lock keys k A B C D E F Tx managed cfg rate_limit (err x) locked
        ≡ err (returned (sqlx x))
      → (h : Heartbeat) × (locked ≡ ok h)
  with_lock-sqlx managed cfg rate_limit x (ok h) e = (h, refl)
  with_lock-sqlx managed cfg rate_limit x (err y) e = cc

  taken :
      (now ha_now lock_now : ℕ) (var : Option String) (managed : Bool) (cfg : SkialithConfig)
      (x : F) (kv : k.Kv)
      → (connect keys k A B C D E F Tx now ha_now lock_now var managed cfg (ok tt) (err x) kv).0
        ≡ err (returned (sqlx x))
      → allows_ha ha_now (load keys var) ≡ false
      → (h : Heartbeat) × ((acquire k lock_now false kv).0 ≡ ok h)
        × ((connect keys k A B C D E F Tx now ha_now lock_now var managed cfg (ok tt) (err x) kv).1
            ≡ (acquire k lock_now false kv).1)
  unfolding connect
  taken now ha_now lock_now var managed cfg x kv e no_ha =
      let (h, held) = with_lock-sqlx managed cfg (effective_rate_limit now (load keys var)) x _ e in
      (
        h,
        ap (λ b. (acquire k lock_now b kv).0) (sym no_ha) ∙ held,
        ap (λ b. (acquire k lock_now b kv).1) no_ha,
      )

  -- Without an HA licence, a start that fails at the database locks the next one out: it took the lock,
  -- and dropping the guard leaves the entry, so that another `connect` within 30 seconds is told that an
  -- instance is running, when none is and though the database is back.
  pub failed_connect_locks_out :
      (cas : ComparesAndSwaps k) (available : IsAvailable k) (now ha_now lock_now : ℕ)
      (var : Option String) (managed : Bool) (cfg : SkialithConfig) (x : F) (kv : k.Kv)
      (now' ha_now' lock_now' : ℕ) (cfg' : SkialithConfig) (database' : Result F (Unit {0}))
      → (connect keys k A B C D E F Tx now ha_now lock_now var managed cfg (ok tt) (err x) kv).0
        ≡ err (returned (sqlx x))
      → allows_ha ha_now (load keys var) ≡ false
      → ha_now ≤ ha_now'
      → lock_now' < lock_now + lock_ttl
      → (connect keys k A B C D E F Tx now' ha_now' lock_now' var managed cfg'
          (ok tt)
          database'
          (connect keys k A B C D E F Tx now ha_now lock_now var managed cfg
            (ok tt)
            (err x)
            kv).1).0
        ≡ err (returned (instance_lock (display_lock already_running)))
  failed_connect_locks_out cas available now ha_now lock_now var managed cfg x kv now' ha_now'
        lock_now' cfg' database' e no_ha later soon =
      let (h, held, same) = taken now ha_now lock_now var managed cfg x kv e no_ha in
      refused_connect keys k A B C D E F Tx now' ha_now' lock_now' var managed cfg' database' _
        already_running (allows_ha_later ha_now ha_now' (load keys var) later no_ha)
        (ap (λ kv'. (acquire k lock_now' false kv').0) same
          ∙ acquire_again k cas lock_now lock_now' kv (acquire k lock_now false kv).1 h available
              held nothing soon)
