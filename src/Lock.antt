-- ===== src/Lock.antt =====
-- src/instance_lock.rs: the lock that keeps Community Edition to one instance. NATS KV is an
-- argument; times are in seconds, and the key and its value are the constants of the source.
pub mod Held
pub mod Dropped
pub mod Soon
pub mod Reused
pub mod Instances
use skialith.Common.{
  ℕ, ◌⊎◌, ◌+◌, ◌≡◌, ◌≤◌, ◌<◌, String, Bool, true, false, List, [], ◌∷◌, Result, ok, err, ltb,
  if◌then◌else◌,
}

abbrev pub lock_bucket : String
lock_bucket = "skialith-community-instance"

abbrev pub lock_key : String
lock_key = "lock"

abbrev pub lock_ttl : ℕ
lock_ttl = 30

abbrev pub heartbeat_interval : ℕ
heartbeat_interval = 10

-- A bucket server. `update` is called with the time, the key, the value and the expected revision.
pub record KeyValue : Type 1 where
  pub Kv : Type 0
  pub KvError : Type 0
  pub to_string : KvError → String
  pub create_key_value : String → ℕ → Kv → Result KvError (Unit {0}) × Kv
  pub update : ℕ → String → String → ℕ → Kv → Result KvError ℕ × Kv
  -- Of the bucket's stream: the last sequence number; the last revision of the lock's key, and the
  -- time of its writing.
  pub sequence : Kv → ℕ
  pub last_revision : Kv → ℕ
  pub written_at : Kv → ℕ

-- The revision that an update must name: 0 when the key was never written, or has aged out.
abbrev pub live : (k : KeyValue) → ℕ → k.Kv → ℕ
live k now kv = if ltb now (k.written_at kv + lock_ttl) then k.last_revision kv else 0

-- A revision is a sequence number of the stream, which goes on counting when entries age out. An update
-- that fails has changed nothing, or it has taken effect and its acknowledgement was lost.
pub record ComparesAndSwaps (k : KeyValue) : Type 0 where
  pub create_keeps :
      (kv : k.Kv)
      → (k.sequence (k.create_key_value lock_bucket lock_ttl kv).1 ≡ k.sequence kv)
        × (k.last_revision (k.create_key_value lock_bucket lock_ttl kv).1 ≡ k.last_revision kv)
        × (k.written_at (k.create_key_value lock_bucket lock_ttl kv).1 ≡ k.written_at kv)
  pub update_ok :
      (now revision n : ℕ) (kv : k.Kv)
      → (k.update now lock_key "1" revision kv).0 ≡ ok n
      → (live k now kv ≡ revision)
        × (n ≡ k.sequence kv + 1)
        × (k.sequence (k.update now lock_key "1" revision kv).1 ≡ n)
        × (k.last_revision (k.update now lock_key "1" revision kv).1 ≡ n)
        × (k.written_at (k.update now lock_key "1" revision kv).1 ≡ now)
  pub update_err :
      (now revision : ℕ) (kv : k.Kv) (e : k.KvError)
      → (k.update now lock_key "1" revision kv).0 ≡ err e
      → ((k.sequence (k.update now lock_key "1" revision kv).1 ≡ k.sequence kv)
          × (k.last_revision (k.update now lock_key "1" revision kv).1 ≡ k.last_revision kv)
          × (k.written_at (k.update now lock_key "1" revision kv).1 ≡ k.written_at kv))
        ⊎ ((live k now kv ≡ revision)
            × (k.sequence (k.update now lock_key "1" revision kv).1 ≡ k.sequence kv + 1)
            × (k.last_revision (k.update now lock_key "1" revision kv).1 ≡ k.sequence kv + 1)
            × (k.written_at (k.update now lock_key "1" revision kv).1 ≡ now))

-- The server can be reached, and answers as it should.
pub record IsAvailable (k : KeyValue) : Type 0 where
  pub creates : (kv : k.Kv) → (k.create_key_value lock_bucket lock_ttl kv).0 ≡ ok tt
  pub updates :
      (now revision : ℕ) (kv : k.Kv)
      → live k now kv ≡ revision
      → (k.update now lock_key "1" revision kv).0 ≡ ok (k.sequence kv + 1)

pub data LockError : Type 0 where
  already_running : LockError
  nats : String → LockError

-- The spawned task: one that waits for ever, one that is about to refresh a revision, or one that has
-- left its loop.
pub data Heartbeat : Type 0 where
  pending : Heartbeat
  beating : (revision : ℕ) → Heartbeat
  stopped : Heartbeat

module _ (k : KeyValue) where
  open k use {Kv, to_string, create_key_value, update}

  abbrev claimed : Result k.KvError ℕ → Result LockError Heartbeat
  claimed (ok _) = ok (beating 1)
  claimed (err _) = err already_running

  abbrev claim : ℕ → Result k.KvError (Unit {0}) → Kv → Result LockError Heartbeat × Kv
  claim now (err e) kv = (err (nats (to_string e)), kv)
  claim now (ok _) kv = (claimed (update now lock_key "1" 0 kv).0, (update now lock_key "1" 0 kv).1)

  -- `InstanceLock::acquire`
  unfoldable pub acquire : ℕ → Bool → Kv → Result LockError Heartbeat × Kv
  acquire now true kv = (ok pending, kv)
  acquire now false kv =
      claim now (create_key_value lock_bucket lock_ttl kv).0
        (create_key_value lock_bucket lock_ttl kv).1

  abbrev refreshed : Result k.KvError ℕ → Heartbeat
  refreshed (ok new_rev) = beating new_rev
  refreshed (err _) = stopped

  -- One turn of the heartbeat's loop.
  unfoldable pub beat : ℕ → Heartbeat → Kv → Heartbeat × Kv
  beat now pending kv = (pending, kv)
  beat now stopped kv = (stopped, kv)
  beat now (beating revision) kv =
      (refreshed (update now lock_key "1" revision kv).0, (update now lock_key "1" revision kv).1)

  -- Its turns at the given times.
  unfoldable pub beats : List ℕ → Heartbeat → Kv → Heartbeat × Kv
  unfolding beat
  beats [] h kv = (h, kv)
  beats (now ∷ times) h kv = beats times (beat now h kv).0 (beat now h kv).1

-- `Drop` of `InstanceLock`: the task is aborted.
unfoldable pub drop : Heartbeat → Heartbeat
drop h = stopped
