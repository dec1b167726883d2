-- ===== src/Lock/Instances.antt =====
-- Any number of instances on one bucket, in whatever order they come.
use skialith.Common.{
  ℕ, ◌+◌, ◌<◌, ◌≡◌, ◌≢◌, refl, sym, ap, ◌∙◌, subst, inl, inr, false, Option, none, some, some-inj,
  Result, ok, err, Result-cases, arith, update as changed, update-each, update-at, update-other,
}
use native.Mathlib.Decide.{ℕ_discrete}
use skialith.Lock.{
  KeyValue, ComparesAndSwaps, IsAvailable, lock_bucket, lock_ttl, lock_key, LockError, Heartbeat,
  beating, already_running, acquire, beat,
}
use skialith.Lock.Held.{Holds, refused, still_live, Holds-beat}
use skialith.Lock.Reused.{acquire-Claimed}

module _ (k : KeyValue) where
  open k use {Kv, create_key_value, update, sequence, last_revision, written_at}

  -- Which instances hold a guard, and where the heartbeat of each is.
  pub record System : Type 0 where
    pub kv : Kv
    pub guard : ℕ → Option Heartbeat

  abbrev pub guard_of : Result LockError Heartbeat → Option Heartbeat
  guard_of (ok h) = some h
  guard_of (err e) = none

  -- An instance without a guard, and without an HA licence, starts; or a heartbeat takes its turn. None
  -- comes later than the TTL allows a holder.
  pub data Step (s : System) : System → Type 0 where
    starts :
        (i t : ℕ)
        → s.guard i ≡ none
        → ((j : ℕ) (h : Heartbeat) → s.guard j ≡ some h → t < written_at s.kv + lock_ttl)
        → Step s (record {
          kv = (acquire k t false s.kv).1;
          guard = changed s.guard i (guard_of (acquire k t false s.kv).0);
        })
    beats :
        (i t : ℕ) (h : Heartbeat)
        → s.guard i ≡ some h
        → t < written_at s.kv + lock_ttl
        → Step s (record {
          kv = (beat k t h s.kv).1;
          guard = changed s.guard i (some (beat k t h s.kv).0);
        })

  -- No instance has started.
  abbrev pub idle : Kv → System
  idle kv = record { kv = kv; guard = λ i. none }

  pub data Reach (kv : Kv) : System → Type 0 where
    start : Reach kv (idle kv)
    next : {s s' : System} → Reach kv s → Step s s' → Reach kv s'

  module _ (cas : ComparesAndSwaps k) (available : IsAvailable k) where
    -- A call that is refused leaves the entry as it is.
    acquire_err :
        (t : ℕ) (kv : Kv) (e : LockError)
        → (acquire k t false kv).0 ≡ err e
        → let kv' = (acquire k t false kv).1 in
          (sequence kv' ≡ sequence kv)
          × (last_revision kv' ≡ last_revision kv)
          × (written_at kv' ≡ written_at kv)
    unfolding acquire
    acquire_err t kv e h =
        let kv1 : Kv = (create_key_value lock_bucket lock_ttl kv).1 in
        let (seq, last, written) = cas.create_keeps kv in
        elim (Result-cases (create_key_value lock_bucket lock_ttl kv).0) [
          | inr (x, c) ↦ rw c (seq, last, written)
          | inl (u, c) ↦ elim (Result-cases (update t lock_key "1" 0 kv1).0) [
            | inl (n, d) ↦ let e' = rw (c, d) at h in cc
            | inr (x, d) ↦ elim (cas.update_err t 0 kv1 x d) [
              | inl (seq', last', written') ↦ rw c (seq' ∙ seq, last' ∙ last, written' ∙ written)
              | inr (free, _, _, _) ↦ let p = sym d ∙ available.updates t 0 kv1 free in cc
            ]
          ]
        ]

    data Inv (s : System) : Type 0 where
      nobody : ((i : ℕ) → s.guard i ≡ none) → sequence s.kv ≡ 0 → Inv s
      one :
          (i : ℕ) (h : Heartbeat)
          → s.guard i ≡ some h
          → Holds k cas available (written_at s.kv) h s.kv
          → ((j : ℕ) → i ≢ j → s.guard j ≡ none)
          → Inv s

    Inv-first :
        (s : System) (i t : ℕ)
        → ((j : ℕ) → s.guard j ≡ none)
        → sequence s.kv ≡ 0
        → Inv (record {
          kv = (acquire k t false s.kv).1;
          guard = changed s.guard i (guard_of (acquire k t false s.kv).0);
        })
    Inv-first s i t free fresh =
        let r = (acquire k t false s.kv).0 in
        elim (Result-cases r) [
          | inl (h, e) ↦
              let c = acquire-Claimed k cas t s.kv h e in
              let kv1 : Kv = (acquire k t false s.kv).1 in
              let first : last_revision kv1 ≡ 1 = omega (arith, c.revision, fresh) in
              one i h (update-at s.guard i (guard_of r) ∙ ap guard_of e)
                (record {
                  named = c.heartbeat ∙ ap beating (sym first);
                  written = refl;
                  positive = omega (arith, first);
                })
                (λ j other. update-other s.guard i (guard_of r) j other ∙ free j)
          | inr (x, e) ↦
              nobody
                (update-each (λ j g. g ≡ none) s.guard i (guard_of r) (ap guard_of e)
                  (λ j other. free j))
                ((acquire_err t s.kv x e).0 ∙ fresh)
        ]

    Inv-refused :
        (s : System) (i t j : ℕ) (h : Heartbeat)
        → s.guard i ≡ none
        → t < written_at s.kv + lock_ttl
        → s.guard j ≡ some h
        → Holds k cas available (written_at s.kv) h s.kv
        → ((m : ℕ) → j ≢ m → s.guard m ≡ none)
        → Inv (record {
          kv = (acquire k t false s.kv).1;
          guard = changed s.guard i (guard_of (acquire k t false s.kv).0);
        })
    Inv-refused s i t j h free soon held holds others =
        let no = refused k cas available t s.kv (
          omega (
            arith,
            still_live k cas available (written_at s.kv) t h s.kv soon holds,
            holds.positive,
          )) in
        let (_, last, written) = acquire_err t s.kv already_running no in
        let r = (acquire k t false s.kv).0 in
        one j h (update-other s.guard i (guard_of r) j (λ e. let p = ap s.guard e in cc) ∙ held)
          (record {
            named = holds.named ∙ ap beating (sym last);
            written = refl;
            positive = omega (arith, last, holds.positive);
          })
          (update-each (λ m g. j ≢ m → g ≡ none) s.guard i (guard_of r) (λ other. ap guard_of no)
            (λ m _. others m))

    Inv-beat :
        (s : System) (i t : ℕ) (h : Heartbeat)
        → t < written_at s.kv + lock_ttl
        → Holds k cas available (written_at s.kv) h s.kv
        → ((m : ℕ) → i ≢ m → s.guard m ≡ none)
        → Inv (record {
          kv = (beat k t h s.kv).1;
          guard = changed s.guard i (some (beat k t h s.kv).0);
        })
    Inv-beat s i t h soon holds others =
        let kept = Holds-beat k cas available (written_at s.kv) t h s.kv soon holds in
        one i (beat k t h s.kv).0 (update-at s.guard i (some (beat k t h s.kv).0))
          (record { named = kept.named; written = refl; positive = kept.positive })
          (λ m other. update-other s.guard i (some (beat k t h s.kv).0) m other ∙ others m other)

    Step-Inv : {s s' : System} → Step s s' → Inv s → Inv s'
    Step-Inv {s} (starts i t free timely) (nobody all fresh) = Inv-first s i t all fresh
    Step-Inv {s} (starts i t free timely) (one j h held holds others) =
        Inv-refused s i t j h free (timely j h held) held holds others
    Step-Inv {s} (beats i t h held soon) (nobody all fresh) = let p = sym (all i) ∙ held in cc
    Step-Inv {s} (beats i t h held soon) (one j h' held' holds others) = elim (ℕ_discrete j i) [
      | no other ↦ let p = sym (others i other) ∙ held in cc
      | yes same ↦
          let e : h' ≡ h = some-inj (sym held' ∙ ap s.guard same ∙ held) in
          Inv-beat s i t h soon
            (subst (λ x. Holds k cas available (written_at s.kv) x s.kv) e holds)
            (λ m other. others m (λ p. other (sym same ∙ p)))
    ]

    Reach-Inv : {kv : Kv} {s : System} → sequence kv ≡ 0 → Reach kv s → Inv s
    Reach-Inv fresh start = nobody (λ i. refl) fresh
    Reach-Inv fresh (next r st) = Step-Inv st (Reach-Inv fresh r)

    Inv-exclusive :
        (s : System) (i j : ℕ) (g h : Heartbeat)
        → Inv s
        → s.guard i ≡ some g
        → s.guard j ≡ some h
        → (i ≡ j) × (g ≡ beating (last_revision s.kv))
    Inv-exclusive s i j g h (nobody all fresh) hi hj = let p = sym (all i) ∙ hi in cc
    Inv-exclusive s i j g h (one m x held holds others) hi hj =
        let at : (n : ℕ) (y : Heartbeat) → s.guard n ≡ some y → m ≡ n = λ n y e.
          elim (ℕ_discrete m n) [
            | yes same ↦ same
            | no other ↦ let p = sym (others n other) ∙ e in cc
          ] in
        (
          sym (at i g hi) ∙ at j h hj,
          some-inj (sym hi ∙ ap s.guard (sym (at i g hi)) ∙ held) ∙ holds.named,
        )

    -- Mutual exclusion: from a fresh bucket, however the starts and the heartbeats of any number of
    -- instances without an HA licence follow each other, at most one of them has the lock, and its
    -- heartbeat goes on with the last revision. The server answers, and nothing comes later
    -- than 30 seconds after the last entry while an instance has the lock; none of them ends.
    pub Reach-exclusive :
        {kv : Kv} {s : System} (i j : ℕ) (g h : Heartbeat)
        → sequence kv ≡ 0
        → Reach kv s
        → s.guard i ≡ some g
        → s.guard j ≡ some h
        → (i ≡ j) × (g ≡ beating (last_revision s.kv))
    Reach-exclusive {s} i j g h fresh r hi hj = Inv-exclusive s i j g h (Reach-Inv fresh r) hi hj
