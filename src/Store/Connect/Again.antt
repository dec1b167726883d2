-- ===== src/Store/Connect/Again.antt =====
-- A second store, connected while the first is held.
use skialith.Common.{
  ℕ, ◌+◌, ◌≤◌, ◌<◌, ◌≡◌, ◌≢◌, subst, refl, sym, ap, ◌∙◌, String, Bool, false, Option, none, some,
  Result, ok, err, arith,
}
use skialith.License.{Keys, load, effective_rate_limit, allows_ha}
use skialith.License.Terms.{License}
use skialith.Lock.{
  KeyValue, ComparesAndSwaps, IsAvailable, LockError, already_running, lock_ttl, Heartbeat, acquire,
}
use skialith.Lock.Soon.{Since, none_acquires, acquire_again}
use skialith.Store.Config.{SkialithConfig}
use skialith.Store.SaveEvent.{instance_lock}
use skialith.Store.Connect.{Store, returned, connect, with_lock, display_lock}

-- A licence that does not allow HA does not come to allow it.
pub allows_ha_later :
    (now later : ℕ) (o : Option License)
    → now ≤ later
    → allows_ha now o ≡ false
    → allows_ha later o ≡ false
unfolding allows_ha
allows_ha_later now later none le h = refl
allows_ha_later now later (some l) le h = ground arith

module _ (keys : Keys) (k : KeyValue) (A B C D E F Tx : Type 0) where
  -- What an answer of the lock makes of a call of `connect`.
  with_lock-ok :
      (managed : Bool) (cfg : SkialithConfig) (rate_limit : ℕ) (database : Result F (Unit {0}))
      (locked : Result LockError Heartbeat) (s : Store keys k A B C D E F Tx)
      → with_lock keys k A B C D E F Tx managed cfg rate_limit database locked ≡ ok s
      → (h : Heartbeat) × (locked ≡ ok h)
  with_lock-ok managed cfg rate_limit database (ok h) s e = (h, refl)
  with_lock-ok managed cfg rate_limit database (err x) s e = cc

  -- A connected store without HA has the lock.
  connected :
      (now ha_now lock_now : ℕ) (var : Option String) (managed : Bool) (cfg : SkialithConfig)
      (server : Result B (Unit {0})) (database : Result F (Unit {0})) (kv : k.Kv)
      (s : Store keys k A B C D E F Tx)
      → (connect keys k A B C D E F Tx now ha_now lock_now var managed cfg server database kv).0
        ≡ ok s
      → allows_ha ha_now (load keys var) ≡ false
      → (h : Heartbeat) × ((acquire k lock_now false kv).0 ≡ ok h)
        × ((connect keys k A B C D E F Tx now ha_now lock_now var managed cfg server database kv).1
            ≡ (acquire k lock_now false kv).1)
  unfolding connect
  connected now ha_now lock_now var managed cfg (err x) database kv s e no_ha = cc
  connected now ha_now lock_now var managed cfg (ok _) database kv s e no_ha =
      let (h, held) = with_lock-ok managed cfg _ database _ s e in
      (
        h,
        ap (λ b. (acquire k lock_now b kv).0) (sym no_ha) ∙ held,
        ap (λ b. (acquire k lock_now b kv).1) no_ha,
      )

  pub refused_connect :
      (now ha_now lock_now : ℕ) (var : Option String) (managed : Bool) (cfg : SkialithConfig)
      (database : Result F (Unit {0})) (kv : k.Kv) (x : LockError)
      → allows_ha ha_now (load keys var) ≡ false
      → (acquire k lock_now false kv).0 ≡ err x
      → (connect keys k A B C D E F Tx now ha_now lock_now var managed cfg (ok tt) database kv).0
        ≡ err (returned (instance_lock (display_lock x)))
  unfolding connect
  refused_connect now ha_now lock_now var managed cfg database kv x no_ha held =
      ap
        (with_lock keys k A B C D E F Tx managed cfg (effective_rate_limit now (load keys var))
          database)
        (ap (λ b. (acquire k lock_now b kv).0) no_ha ∙ held)

  -- Without an HA licence a store cannot be connected within 30 seconds after another was, in whatever
  -- state the bucket was and whatever all instances have done to it since: the error says that an
  -- instance is running, also where both are in one process.
  pub connect_again :
      (cas : ComparesAndSwaps k) (available : IsAvailable k) (now ha_now lock_now : ℕ)
      (var : Option String) (managed : Bool) (cfg : SkialithConfig) (server : Result B (Unit {0}))
      (database : Result F (Unit {0})) (kv kv' : k.Kv) (s : Store keys k A B C D E F Tx)
      (now' ha_now' lock_now' : ℕ) (cfg' : SkialithConfig) (database' : Result F (Unit {0}))
      → (connect keys k A B C D E F Tx now ha_now lock_now var managed cfg server database kv).0
        ≡ ok s
      → allows_ha ha_now (load keys var) ≡ false
      → Since k cas lock_now
          (connect keys k A B C D E F Tx now ha_now lock_now var managed cfg server database kv).1
          kv'
      → ha_now ≤ ha_now'
      → lock_now' < lock_now + lock_ttl
      → (connect keys k A B C D E F Tx now' ha_now' lock_now' var managed cfg'
          (ok tt)
          database'
          kv').0
        ≡ err (returned (instance_lock (display_lock already_running)))
  connect_again cas available now ha_now lock_now var managed cfg server database kv kv' s now'
        ha_now' lock_now' cfg' database' e no_ha since later soon =
      let (held, claimed, same) =
        connected now ha_now lock_now var managed cfg server database kv s e no_ha in
      refused_connect now' ha_now' lock_now' var managed cfg' database' kv' already_running
        (allows_ha_later ha_now ha_now' (load keys var) later no_ha)
        (acquire_again k cas lock_now lock_now' kv kv' held available claimed
          (subst (λ x. Since k cas lock_now x kv') same since) soon)

  -- And whatever the servers answer, there is no second store.
  pub connects_once :
      (cas : ComparesAndSwaps k) (now ha_now lock_now : ℕ) (var : Option String) (managed : Bool)
      (cfg : SkialithConfig) (server : Result B (Unit {0})) (database : Result F (Unit {0}))
      (kv kv' : k.Kv) (s s' : Store keys k A B C D E F Tx) (now' ha_now' lock_now' : ℕ)
      (cfg' : SkialithConfig) (server' : Result B (Unit {0})) (database' : Result F (Unit {0}))
      → (connect keys k A B C D E F Tx now ha_now lock_now var managed cfg server database kv).0
        ≡ ok s
      → allows_ha ha_now (load keys var) ≡ false
      → Since k cas lock_now
          (connect keys k A B C D E F Tx now ha_now lock_now var managed cfg server database kv).1
          kv'
      → ha_now ≤ ha_now'
      → lock_now' < lock_now + lock_ttl
      → (connect keys k A B C D E F Tx now' ha_now' lock_now' var managed cfg' server' database'
          kv').0
        ≢ ok s'
  connects_once cas now ha_now lock_now var managed cfg server database kv kv' s s' now' ha_now'
        lock_now' cfg' server' database' e no_ha since later soon again =
      let (held, claimed, same) =
        connected now ha_now lock_now var managed cfg server database kv s e no_ha in
      let (held', claimed', _) =
        connected now' ha_now' lock_now' var managed cfg' server' database' kv' s' again
          (allows_ha_later ha_now ha_now' (load keys var) later no_ha) in
      none_acquires k cas lock_now lock_now' kv kv' held held' claimed
        (subst (λ x. Since k cas lock_now x kv') same since) soon claimed'
