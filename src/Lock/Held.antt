-- ===== src/Lock/Held.antt =====
-- A lock taken in a fresh bucket, and heartbeats that come in time.
use skialith.Common.{
  ℕ, ◌+◌, ◌≤◌, ◌<◌, ◌≡◌, sym, ap, ◌∙◌, inl, inr, false, List, [], ◌∷◌, ok, err, Result-cases, arith,
  ltb, if◌then◌else◌,
}
use mathlib.Core.Path.{ap₂}
use skialith.Lock.{
  KeyValue, ComparesAndSwaps, IsAvailable, live, lock_ttl, lock_key, lock_bucket, Heartbeat,
  beating, already_running, acquire, beat, beats,
}
use skialith.Lock.Reused.{acquire-Claimed}

-- Each turn comes within the TTL of the one before, the first within the TTL of `since`.
abbrev pub InTime : ℕ → List ℕ → Type 0
InTime since [] = Unit {0}
InTime since (now ∷ times) = (since ≤ now) × (now < since + lock_ttl) × InTime now times

abbrev pub last_of : ℕ → List ℕ → ℕ
last_of since [] = since
last_of since (now ∷ times) = last_of now times

module _ (k : KeyValue) (cas : ComparesAndSwaps k) (available : IsAvailable k) where
  open k use {Kv, update, create_key_value, sequence, last_revision, written_at}

  -- The holder's loop names the last revision, which is that of the newest entry.
  pub record Holds (since : ℕ) (h : Heartbeat) (kv : Kv) : Type 0 where
    pub named : h ≡ beating (last_revision kv)
    pub written : written_at kv ≡ since
    pub positive : 0 < last_revision kv

  pub still_live :
      (since now : ℕ) (h : Heartbeat) (kv : Kv)
      → now < since + lock_ttl
      → Holds since h kv
      → live k now kv ≡ last_revision kv
  still_live since now h kv soon holds = ground (arith, holds.written)

  pub Holds-beat :
      (since now : ℕ) (h : Heartbeat) (kv : Kv)
      → now < since + lock_ttl
      → Holds since h kv
      → Holds now (beat k now h kv).0 (beat k now h kv).1
  unfolding beat
  Holds-beat since now h kv soon holds =
      let e = available.updates now (last_revision kv) kv (still_live since now h kv soon holds) in
      let (_, next, _, revision, written) =
        cas.update_ok now (last_revision kv) (sequence kv + 1) kv e in
      rw holds.named (record {
        named = rw e (ap beating (sym revision));
        written = written;
        positive = omega (arith, revision);
      })

  pub Holds-beats :
      (since : ℕ) (times : List ℕ) (h : Heartbeat) (kv : Kv)
      → InTime since times
      → Holds since h kv
      → Holds (last_of since times) (beats k times h kv).0 (beats k times h kv).1
  unfolding beats
  Holds-beats since [] h kv t holds = holds
  Holds-beats since (now ∷ times) h kv t holds =
      Holds-beats now times (beat k now h kv).0 (beat k now h kv).1 t.2
        (Holds-beat since now h kv t.1 holds)

  pub refused :
      (now : ℕ) (kv : Kv) → 0 < live k now kv → (acquire k now false kv).0 ≡ err already_running
  unfolding acquire
  refused now kv taken =
      let (_, same_revision, same_time) = cas.create_keeps kv in
      let kv1 : Kv = (create_key_value lock_bucket lock_ttl kv).1 in
      let same = ap₂ (λ w r. if ltb now (w + lock_ttl) then r else 0) same_time same_revision in
      rw (available.creates kv) (elim (Result-cases (update now lock_key "1" 0 kv1).0) [
        | inl (n, e) ↦ absurd (omega (arith, same, (cas.update_ok now 0 n kv1 e).0))
        | inr (x, e) ↦ rw e
      ])

  -- The state after a claim in a fresh bucket, and heartbeats that come in time.
  pub Holds-fresh :
      (now : ℕ) (times : List ℕ) (kv : Kv) (h : Heartbeat)
      → sequence kv ≡ 0
      → (acquire k now false kv).0 ≡ ok h
      → InTime now times
      → let after = beats k times h (acquire k now false kv).1 in
        Holds (last_of now times) after.0 after.1
  Holds-fresh now times kv h fresh e t =
      let c = acquire-Claimed k cas now kv h e in
      let kv1 : Kv = (acquire k now false kv).1 in
      let one : last_revision kv1 ≡ 1 = omega (arith, c.revision, fresh) in
      Holds-beats now times h kv1 t (record {
        named = c.heartbeat ∙ ap beating (sym one);
        written = c.written;
        positive = omega (arith, one);
      })

  -- In a fresh bucket the lock works: as long as the heartbeats come within the TTL and the server
  -- answers, the holder keeps the lock, and no second instance without an HA licence gets it.
  pub fresh_bucket_excludes :
      (now later : ℕ) (times : List ℕ) (kv : Kv) (h : Heartbeat)
      → sequence kv ≡ 0
      → (acquire k now false kv).0 ≡ ok h
      → InTime now times
      → later < last_of now times + lock_ttl
      → (acquire k later false (beats k times h (acquire k now false kv).1).1).0
        ≡ err already_running
  fresh_bucket_excludes now later times kv h fresh e t soon =
      let kept = Holds-fresh now times kv h fresh e t in
      let after = beats k times h (acquire k now false kv).1 in
      refused later after.1 (
        omega
          (arith, still_live (last_of now times) later after.0 after.1 soon kept, kept.positive))
