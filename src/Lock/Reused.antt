-- ===== src/Lock/Reused.antt =====
-- A lock taken in a bucket that has been used before.
use mathlib.Core.Path.{ap₂}
use skialith.Common.{
  ok-inj, ℕ, ◌+◌, ◌≤◌, ◌<◌, ◌≡◌, ◌≢◌, refl, sym, ap, ◌∙◌, inl, inr, false, List, [], ◌∷◌, ok,
  Result-cases, arith, Bool-cases, ltb, if◌then◌else◌,
}
use skialith.Lock.{
  KeyValue, ComparesAndSwaps, IsAvailable, live, lock_ttl, lock_key, lock_bucket, Heartbeat,
  beating, stopped, acquire, beat, beats,
}

module _ (k : KeyValue) (cas : ComparesAndSwaps k) where
  open k use {Kv, update, create_key_value, sequence, last_revision, written_at}

  -- What a successful claim without a licence leaves.
  pub record Claimed (now : ℕ) (kv kv' : Kv) (h : Heartbeat) : Type 0 where
    pub heartbeat : h ≡ beating 1
    pub revision : last_revision kv' ≡ sequence kv + 1
    pub count : sequence kv' ≡ sequence kv + 1
    pub written : written_at kv' ≡ now
    pub free : live k now kv ≡ 0

  pub acquire-Claimed :
      (now : ℕ) (kv : Kv) (h : Heartbeat)
      → (acquire k now false kv).0 ≡ ok h
      → Claimed now kv (acquire k now false kv).1 h
  unfolding acquire
  acquire-Claimed now kv h e = elim (Result-cases (create_key_value lock_bucket lock_ttl kv).0) [
    | inr (x, e1) ↦ let e' = rw e1 at e in cc
    | inl (u, e1) ↦
        let kv1 : Kv = (create_key_value lock_bucket lock_ttl kv).1 in
        let (same_count, same_revision, same_time) = cas.create_keeps kv in
        elim (Result-cases (update now lock_key "1" 0 kv1).0) [
          | inr (x, e2) ↦ let e' = rw (e1, e2) at e in cc
          | inl (n, e2) ↦
              let (free, next, count, revision, written) = cas.update_ok now 0 n kv1 e2 in
              rw e1 (record {
                heartbeat = sym (ok-inj (rw (e1, e2) at e));
                revision = revision ∙ next ∙ ap (λ c. c + 1) same_count;
                count = count ∙ next ∙ ap (λ c. c + 1) same_count;
                written = written;
                free =
                    sym
                      (ap₂ (λ w r. if ltb now (w + lock_ttl) then r else 0) same_time same_revision)
                    ∙ free;
              })
        ]
  ]

  not_live :
      (now revision : ℕ) (kv : Kv)
      → last_revision kv ≢ revision
      → revision ≢ 0
      → live k now kv ≢ revision
  not_live now revision kv other positive h =
      elim (Bool-cases (ltb now (written_at kv + lock_ttl))) [
        | inl fresh ↦ other (rw fresh at h)
        | inr aged ↦ positive (sym (rw aged at h))
      ]

  -- A heartbeat that names another revision than the last leaves its loop, and the entry ages on.
  stale_beat :
      (now revision : ℕ) (kv : Kv)
      → last_revision kv ≢ revision
      → revision ≢ 0
      → ((beat k now (beating revision) kv).0 ≡ stopped)
        × (last_revision (beat k now (beating revision) kv).1 ≡ last_revision kv)
        × (written_at (beat k now (beating revision) kv).1 ≡ written_at kv)
  unfolding beat
  stale_beat now revision kv other positive =
      elim (Result-cases (update now lock_key "1" revision kv).0) [
        | inl (n, e) ↦
            absurd (not_live now revision kv other positive (cas.update_ok now revision n kv e).0)
        | inr (x, e) ↦ elim (cas.update_err now revision kv x e) [
          | inl (_, same_revision, same_time) ↦ rw e (refl, same_revision, same_time)
          | inr (named, _, _, _) ↦ absurd (not_live now revision kv other positive named)
        ]
      ]

  pub stopped_beats : (times : List ℕ) (kv : Kv) → beats k times stopped kv ≡ (stopped, kv)
  unfolding beats
  stopped_beats [] kv = refl
  stopped_beats (now ∷ times) kv = stopped_beats times kv

  beats-cons :
      (now : ℕ) (times : List ℕ) (h : Heartbeat) (kv : Kv)
      → beats k (now ∷ times) h kv ≡ beats k times (beat k now h kv).0 (beat k now h kv).1
  unfolding beats
  beats-cons now times h kv = refl

  stale_beats :
      (now : ℕ) (times : List ℕ) (kv : Kv)
      → last_revision kv ≢ 1
      → ((beats k (now ∷ times) (beating 1) kv).0 ≡ stopped)
        × (last_revision (beats k (now ∷ times) (beating 1) kv).1 ≡ last_revision kv)
        × (written_at (beats k (now ∷ times) (beating 1) kv).1 ≡ written_at kv)
  stale_beats now times kv other =
      let (stops, same_revision, same_time) = stale_beat now 1 kv other (omega arith) in
      rw
        (
          beats-cons now times (beating 1) kv,
          stops,
          stopped_beats times (beat k now (beating 1) kv).1,
        )
        (refl, same_revision, same_time)

  pub free_acquire :
      (now : ℕ) (kv : Kv)
      → IsAvailable k
      → live k now kv ≡ 0
      → (acquire k now false kv).0 ≡ ok (beating 1)
  unfolding acquire
  free_acquire now kv available free =
      let (_, same_revision, same_time) = cas.create_keeps kv in
      let free1 =
        ap₂ (λ w r. if ltb now (w + lock_ttl) then r else 0) same_time same_revision ∙ free in
      rw (
        available.creates kv,
        available.updates now 0 (create_key_value lock_bucket lock_ttl kv).1 free1,
      )

  pub aged_out : (now : ℕ) (kv : Kv) → written_at kv + lock_ttl ≤ now → live k now kv ≡ 0
  aged_out now kv h = ground arith

  -- If the bucket has been used before, a claim succeeds and the very first heartbeat fails,
  -- because the loop starts at revision 1 and not at the revision that the claim was given.
  -- The loop ends, the lock ages out 30 seconds after the claim, and, from a server that
  -- answers, a second instance gets the lock too.
  pub reused_bucket_lapses :
      (now later : ℕ) (first_beat : ℕ) (times : List ℕ) (kv : Kv) (h : Heartbeat)
      → IsAvailable k
      → 0 < sequence kv
      → (acquire k now false kv).0 ≡ ok h
      → now + lock_ttl ≤ later
      → let after = beats k (first_beat ∷ times) h (acquire k now false kv).1 in
        (after.0 ≡ stopped) × ((acquire k later false after.1).0 ≡ ok (beating 1))
  reused_bucket_lapses now later first_beat times kv h available used e aged =
      let c = acquire-Claimed now kv h e in
      let kv1 : Kv = (acquire k now false kv).1 in
      let (stops, _, same_time) =
        stale_beats first_beat times kv1 (λ one. omega (arith, one, c.revision, used)) in
      rw c.heartbeat (
        stops,
        free_acquire later (beats k (first_beat ∷ times) (beating 1) kv1).1 available
            (aged_out later _ (omega (arith, same_time, c.written))),
      )
