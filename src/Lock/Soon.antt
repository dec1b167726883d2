-- ===== src/Lock/Soon.antt =====
-- A claim in any bucket, fresh or used, and the time right after it.
use skialith.Common.{
  ℕ, ◌+◌, ◌≤◌, ◌<◌, ◌≡◌, ◌≢◌, inl, inr, Bool, true, false, ok, err, Result-cases, arith,
}
use skialith.Lock.{
  KeyValue, ComparesAndSwaps, IsAvailable, live, lock_bucket, lock_ttl, lock_key, Heartbeat,
  pending, beating, stopped, already_running, acquire, beat,
}
use skialith.Lock.Held.{refused}
use skialith.Lock.Reused.{acquire-Claimed}

module _ (k : KeyValue) (cas : ComparesAndSwaps k) where
  open k use {Kv, create_key_value, update, last_revision, written_at}

  -- There is an entry, and it is not older than `now`.
  record IsTaken (now : ℕ) (kv : Kv) : Type 0 where
    written : now ≤ written_at kv
    positive : 0 < last_revision kv

  IsTaken-create :
      (now : ℕ) (kv : Kv)
      → IsTaken now kv
      → IsTaken now (create_key_value lock_bucket lock_ttl kv).1
  IsTaken-create now kv taken =
      let (_, last, written) = cas.create_keeps kv in
      record {
        written = omega (arith, written, taken.written);
        positive = omega (arith, last, taken.positive);
      }

  IsTaken-update :
      (now t revision : ℕ) (kv : Kv)
      → now ≤ t
      → IsTaken now kv
      → IsTaken now (update t lock_key "1" revision kv).1
  IsTaken-update now t revision kv le taken =
      elim (Result-cases (update t lock_key "1" revision kv).0) [
        | inl (n, e) ↦
            let (_, next, _, last, written) = cas.update_ok t revision n kv e in
            record { written = omega (arith, written); positive = omega (arith, last, next) }
        | inr (x, e) ↦ elim (cas.update_err t revision kv x e) [
          | inl (_, last, written) ↦ record {
            written = omega (arith, written, taken.written);
            positive = omega (arith, last, taken.positive);
          }
          | inr (_, _, last, written) ↦ record {
            written = omega (arith, written);
            positive = omega (arith, last);
          }
        ]
      ]

  IsTaken-beat :
      (now t : ℕ) (h : Heartbeat) (kv : Kv)
      → now ≤ t
      → IsTaken now kv
      → IsTaken now (beat k t h kv).1
  unfolding beat
  IsTaken-beat now t pending kv le taken = taken
  IsTaken-beat now t stopped kv le taken = taken
  IsTaken-beat now t (beating revision) kv le taken = IsTaken-update now t revision kv le taken

  IsTaken-acquire :
      (now t : ℕ) (skip : Bool) (kv : Kv)
      → now ≤ t
      → IsTaken now kv
      → IsTaken now (acquire k t skip kv).1
  unfolding acquire
  IsTaken-acquire now t true kv le taken = taken
  IsTaken-acquire now t false kv le taken =
      let created = IsTaken-create now kv taken in
      elim (Result-cases (create_key_value lock_bucket lock_ttl kv).0) [
        | inl (u, e) ↦ rw e (IsTaken-update now t 0 _ le created)
        | inr (x, e) ↦ rw e created
      ]

  -- What any number of instances can do to the bucket from `now` on: the turns of their heartbeats,
  -- and further calls of `acquire`.
  pub data Since (now : ℕ) (kv : Kv) : Kv → Type 0 where
    nothing : Since now kv kv
    turn :
        {kv' : Kv} (t : ℕ) (h : Heartbeat)
        → now ≤ t
        → Since now kv kv'
        → Since now kv (beat k t h kv').1
    call :
        {kv' : Kv} (t : ℕ) (skip : Bool)
        → now ≤ t
        → Since now kv kv'
        → Since now kv (acquire k t skip kv').1

  -- One period after another.
  pub Since-trans :
      {now later : ℕ} {kv kv' kv'' : Kv}
      → now ≤ later
      → Since now kv kv'
      → Since later kv' kv''
      → Since now kv kv''
  Since-trans le before nothing = before
  Since-trans le before (turn t h h' after) = turn t h (omega arith) (Since-trans le before after)
  Since-trans le before (call t skip h' after) =
      call t skip (omega arith) (Since-trans le before after)

  IsTaken-Since : {now : ℕ} {kv kv' : Kv} → Since now kv kv' → IsTaken now kv → IsTaken now kv'
  IsTaken-Since nothing taken = taken
  IsTaken-Since {now} (turn {kv'} t h le since) taken =
      IsTaken-beat now t h kv' le (IsTaken-Since since taken)
  IsTaken-Since {now} (call {kv'} t skip le since) taken =
      IsTaken-acquire now t skip kv' le (IsTaken-Since since taken)

  IsTaken-live :
      (now later : ℕ) (kv : Kv) → later < now + lock_ttl → IsTaken now kv → 0 < live k later kv
  IsTaken-live now later kv soon taken = ground (arith, taken.written, taken.positive)

  module _ (now later : ℕ) (kv kv' : Kv) (h : Heartbeat) where
    still_taken :
        (acquire k now false kv).0 ≡ ok h
        → Since now (acquire k now false kv).1 kv'
        → later < now + lock_ttl
        → 0 < live k later kv'
    still_taken e since soon =
        let c = acquire-Claimed k cas now kv h e in
        IsTaken-live now later kv' soon (
          IsTaken-Since since
            (record { written = omega (arith, c.written); positive = omega (arith, c.revision) }))

    -- Within 30 seconds of a claim no other is answered with the lock, whatever all instances do in
    -- between, whether or not the bucket was fresh, and whatever the server answers.
    pub none_acquires :
        (h' : Heartbeat)
        → (acquire k now false kv).0 ≡ ok h
        → Since now (acquire k now false kv).1 kv'
        → later < now + lock_ttl
        → (acquire k later false kv').0 ≢ ok h'
    none_acquires h' e since soon again =
        absurd
          (omega (arith, still_taken e since soon, (acquire-Claimed k cas later kv' h' again).free))

    -- And where the server answers, it is refused as already running.
    pub acquire_again :
        (available : IsAvailable k)
        → (acquire k now false kv).0 ≡ ok h
        → Since now (acquire k now false kv).1 kv'
        → later < now + lock_ttl
        → (acquire k later false kv').0 ≡ err already_running
    acquire_again available e since soon =
        refused k cas available later kv' (still_taken e since soon)
