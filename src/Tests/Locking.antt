-- ===== src/Tests/Locking.antt =====
-- The instance lock, on a bucket in memory.
use skialith.Common.{
  inl, none, some, update as changed, ℕ, ◌+◌, ◌≡◌, refl, ap, Bool, true, false, [], ◌∷◌, ◌==◌, ltb,
  if◌then◌else◌, arith, Result, ok, err,
}
use skialith.Lock.{
  KeyValue, ComparesAndSwaps, IsAvailable, lock_ttl, beating, stopped, acquire, beats, drop, beat,
}
use native.Mathlib.Decide.{ℕ_discrete}
use skialith.Lock.Instances.{System, Reach, start, next, starts, Reach-exclusive}
use skialith.Lock.Instances
use skialith.Lock.Dropped.{acquire-drop}
use skialith.Lock.Reused.{reused_bucket_lapses}

pub record Bucket : Type 0 where
  pub count : ℕ
  pub revision : ℕ
  pub written : ℕ

abbrev pub live_revision : ℕ → Bucket → ℕ
live_revision now kv = if ltb now (kv.written + lock_ttl) then kv.revision else 0

abbrev pub update_if : Bool → ℕ → Bucket → Result (Unit {0}) ℕ × Bucket
update_if true now kv =
    (ok (kv.count + 1), record { count = kv.count + 1; revision = kv.count + 1; written = now })
update_if false now kv = (err tt, kv)

abbrev pub bucket : KeyValue
bucket = record {
  Kv = Bucket;
  KvError = Unit {0};
  to_string = λ e. "timed out";
  create_key_value = λ name ttl kv. (ok tt, kv);
  update = λ now key value revision kv. update_if (live_revision now kv == revision) now kv;
  sequence = λ kv. kv.count;
  last_revision = λ kv. kv.revision;
  written_at = λ kv. kv.written;
}

update_if_ok :
    (b : Bool) (now n : ℕ) (kv : Bucket)
    → (update_if b now kv).0 ≡ ok n
    → (b ≡ true)
      × (n ≡ kv.count + 1)
      × ((update_if b now kv).1.count ≡ n)
      × ((update_if b now kv).1.revision ≡ n)
      × ((update_if b now kv).1.written ≡ now)
update_if_ok true now n kv h = (refl, cc, cc, cc, refl)
update_if_ok false now n kv h = absurd (let p = h in cc)

update_if_err :
    (b : Bool) (now : ℕ) (kv : Bucket) (e : Unit {0})
    → (update_if b now kv).0 ≡ err e
    → (update_if b now kv).1 ≡ kv
update_if_err true now kv e h = cc
update_if_err false now kv e h = refl

pub bucket-ComparesAndSwaps : ComparesAndSwaps bucket
bucket-ComparesAndSwaps = record {
  create_keeps = λ kv. (refl, refl, refl);
  update_ok = λ now revision n kv h.
      let (e, rest1, rest2, rest3, rest4) =
        update_if_ok (live_revision now kv == revision) now n kv h in
      (ground arith, rest1, rest2, rest3, rest4);
  update_err = λ now revision kv e h.
      let same = update_if_err (live_revision now kv == revision) now kv e h in
      inl (ap (λ k. k.count) same, ap (λ k. k.revision) same, ap (λ k. k.written) same);
}

pub bucket-IsAvailable : IsAvailable bucket
bucket-IsAvailable = record { creates = λ kv. refl; updates = λ now revision kv h. ground arith }

abbrev empty : Bucket
empty = record { count = 0; revision = 0; written = 0 }

-- Instance 3 starts and beats; instance 4 is refused.
abbrev contended : System bucket
contended = record {
  kv = record { count = 2; revision = 2; written = 110 };
  guard = changed (changed (changed (λ i. none) 3 (some (beating 1))) 3 (some (beating 2))) 4 none;
}

contention : Reach bucket empty contended
unfolding acquire beat ℕ_discrete
contention =
    next
      (next (next start (starts 3 100 refl (λ j h e. cc)))
        (Instances.beats 3 110 (beating 1) refl (omega arith)))
      (starts 4 115 refl (λ j h e. omega arith))

Reach-exclusive_example : let i : ℕ = 3 in (i ≡ i) × (beating 2 ≡ beating contended.kv.revision)
unfolding ℕ_discrete
Reach-exclusive_example =
    Reach-exclusive bucket bucket-ComparesAndSwaps bucket-IsAvailable 3 3 (beating 2) (beating 2)
      refl contention refl refl

-- The entry of the last run has aged out.
reused_bucket_lapses_example :
    let kv : Bucket = record { count = 7; revision = 7; written = 0 } in
    let after = beats bucket (110 ∷ 120 ∷ []) (beating 1) (acquire bucket 100 false kv).1 in
    (after.0 ≡ stopped) × ((acquire bucket 130 false after.1).0 ≡ ok (beating 1))
unfolding acquire
reused_bucket_lapses_example =
    reused_bucket_lapses bucket bucket-ComparesAndSwaps 100 130 110 (120 ∷ [])
      (record { count = 7; revision = 7; written = 0 }) (beating 1) bucket-IsAvailable (omega arith)
      refl (omega arith)

acquire-drop_example :
    let kv : Bucket = record { count = 0; revision = 0; written = 0 } in
    let held = beats bucket (110 ∷ 120 ∷ []) (beating 1) (acquire bucket 100 false kv).1 in
    (acquire bucket 150 false (beats bucket (130 ∷ 140 ∷ []) (drop held.0) held.1).1).0
    ≡ ok (beating 1)
unfolding acquire
acquire-drop_example =
    acquire-drop bucket bucket-ComparesAndSwaps bucket-IsAvailable 100 150 (110 ∷ 120 ∷ [])
      (130 ∷ 140 ∷ []) (record { count = 0; revision = 0; written = 0 }) (beating 1) refl refl
      (omega arith, omega arith, (omega arith, omega arith, tt))
