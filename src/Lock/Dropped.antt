-- ===== src/Lock/Dropped.antt =====
-- A lock whose guard has been dropped.
use skialith.Common.{
  ℕ, ◌+◌, ◌≡◌, ap, ◌∙◌, inl, inr, false, List, Result, ok, err, arith, ltb, if◌then◌else◌,
  Bool-cases,
}
use skialith.Lock.{
  KeyValue, ComparesAndSwaps, IsAvailable, lock_ttl, LockError, Heartbeat, beating, stopped,
  already_running, acquire, beats, drop,
}
use skialith.Lock.Held.{InTime, last_of, Holds, Holds-fresh, still_live, refused}
use skialith.Lock.Reused.{free_acquire, aged_out, stopped_beats}

module _ (k : KeyValue) (cas : ComparesAndSwaps k) (available : IsAvailable k) where
  open k use {Kv, sequence}

  beats-drop :
      (times : List ℕ) (h : Heartbeat) (kv : Kv) → beats k times (drop h) kv ≡ (stopped, kv)
  unfolding drop
  beats-drop times h kv = stopped_beats k cas times kv

  -- What a second instance gets at `later`, where the holder's last entry is of time `since`.
  abbrev pub answer_at : ℕ → ℕ → Result LockError Heartbeat
  answer_at since later =
      if ltb later (since + lock_ttl) then err already_running else ok (beating 1)

  acquire_after :
      (since later : ℕ) (h : Heartbeat) (kv : Kv)
      → Holds k cas available since h kv
      → (acquire k later false kv).0 ≡ answer_at since later
  acquire_after since later h kv holds = elim (Bool-cases (ltb later (since + lock_ttl))) [
    | inl soon ↦ rw soon (
        refused k cas available later kv (
          omega (
            arith,
            still_live k cas available since later h kv (ground arith) holds,
            holds.positive,
          )))
    | inr late ↦ rw late (
        free_acquire k cas later kv available
          (aged_out k cas later kv (ground (arith, holds.written))))
  ]

  -- The lock is released by time, and at one moment: after the guard is dropped its task refreshes
  -- nothing, at whatever times it would have woken; a second instance is refused until 30 seconds have
  -- passed since the last heartbeat, and gets the lock from then on. The bucket was fresh, the
  -- heartbeats came in time, and the server answers.
  pub acquire-drop :
      (now later : ℕ) (times missed : List ℕ) (kv : Kv) (h : Heartbeat)
      → sequence kv ≡ 0
      → (acquire k now false kv).0 ≡ ok h
      → InTime now times
      → let held = beats k times h (acquire k now false kv).1 in
        (acquire k later false (beats k missed (drop held.0) held.1).1).0
        ≡ answer_at (last_of now times) later
  acquire-drop now later times missed kv h fresh e t =
      let held = beats k times h (acquire k now false kv).1 in
      ap (λ r. (acquire k later false r.1).0) (beats-drop missed held.0 held.1)
      ∙ acquire_after (last_of now times) later held.0 held.1
          (Holds-fresh k cas available now times kv h fresh e t)
