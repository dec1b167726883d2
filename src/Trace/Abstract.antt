-- ===== src/Trace/Abstract.antt =====
-- The abstract view of `agent_traces`: a map from an agent and a step to the row, which forgets the
-- order of the rows; and what an insert is on it.
use mathlib.Core.Path.{fun_ext}
use mathlib.Core.Bool.{false≢true}
use skialith.Common.{
  ◌≡◌, refl, sym, ap, ◌∙◌, String, Bool, true, false, ◌&&◌, Option, none, some, List, [], ◌∷◌, ◌++◌,
  Result, err, if◌then◌else◌, str_eq, arith, eq_iff, Bool-cases, Option-cases, ◌⊎◌, inl, inr,
}
use skialith.Common.Int.{ℤ, eqb_ℤ}
use skialith.Trace.{AgentTrace, bind_row, insert}
use skialith.Trace.Table.{TraceRow, TraceTable, same_step, has_step}
use skialith.Trace.Keyed.{IsKeyed}
use skialith.Trace.Insert.{Inserted, added, already_there, failed, insert-Inserted}

abbrev pub TraceMap : Type 0 → Type 0
TraceMap Value = String → ℤ → Option (TraceRow Value)

module _ {Value : Type 0} where
  abbrev pub is_at : TraceRow Value → String → ℤ → Bool
  is_at r agent_id step = str_eq r.agent_id agent_id && eqb_ℤ r.step_index step

  -- The first writer wins.
  unfoldable pub put_if_absent : TraceRow Value → TraceMap Value → TraceMap Value
  put_if_absent r f agent_id step = elim (f agent_id step) [
    | some x ↦ some x
    | none ↦ if is_at r agent_id step then some r else none
  ]

  unfoldable pub put_all : List (TraceRow Value) → TraceMap Value → TraceMap Value
  put_all [] f = f
  put_all (r ∷ rs) f = put_all rs (put_if_absent r f)

  unfoldable pub map_of : List (TraceRow Value) → TraceMap Value
  map_of [] agent_id step = none
  map_of (r ∷ rs) agent_id step = if is_at r agent_id step then some r else map_of rs agent_id step

  map_of-snoc_at :
      (rs : List (TraceRow Value)) (r : TraceRow Value) (agent_id : String) (step : ℤ)
      → map_of (rs ++ r ∷ []) agent_id step ≡ put_if_absent r (map_of rs) agent_id step
  unfolding map_of put_if_absent
  map_of-snoc_at [] r agent_id step = refl
  map_of-snoc_at (x ∷ rs) r agent_id step = ground (arith, map_of-snoc_at rs r agent_id step)

  map_of-snoc :
      (rs : List (TraceRow Value)) (r : TraceRow Value)
      → map_of (rs ++ r ∷ []) ≡ put_if_absent r (map_of rs)
  map_of-snoc rs r = fun_ext λ agent_id. fun_ext λ step. map_of-snoc_at rs r agent_id step

  is_at_of_same_step :
      (r x : TraceRow Value) (agent_id : String) (step : ℤ)
      → same_step r x ≡ true
      → is_at r agent_id step ≡ true
      → is_at x agent_id step ≡ true
  unfolding same_step
  is_at_of_same_step r x agent_id step same here =
      ground (
        arith,
        eq_iff r.agent_id x.agent_id,
        eq_iff r.agent_id agent_id,
        eq_iff x.agent_id agent_id,
      )

  has_step-cons_other :
      (r x : TraceRow Value) (rs : List (TraceRow Value))
      → same_step r x ≡ false
      → has_step r (x ∷ rs) ≡ true
      → has_step r rs ≡ true
  unfolding has_step
  has_step-cons_other r x rs other h = rw other at h

  map_of-has_step :
      (rs : List (TraceRow Value)) (r : TraceRow Value) (agent_id : String) (step : ℤ)
      → has_step r rs ≡ true
      → is_at r agent_id step ≡ true
      → (x : TraceRow Value) × (map_of rs agent_id step ≡ some x)
  unfolding map_of has_step
  map_of-has_step [] r agent_id step h here = absurd (false≢true h)
  map_of-has_step (x ∷ rs) r agent_id step h here = elim (Bool-cases (is_at x agent_id step)) [
    | inl first ↦ (x, rw first)
    | inr later ↦ elim (Bool-cases (same_step r x)) [
      | inl same ↦ absurd (false≢true (sym later ∙ is_at_of_same_step r x agent_id step same here))
      | inr other ↦
          let (y, e) =
            map_of-has_step rs r agent_id step (has_step-cons_other r x rs other h) here in
          (y, rw later e)
    ]
  ]

  put_if_absent_taken :
      (f : TraceMap Value) (r x : TraceRow Value) (agent_id : String) (step : ℤ)
      → f agent_id step ≡ some x
      → put_if_absent r f agent_id step ≡ some x
  unfolding put_if_absent
  put_if_absent_taken f r x agent_id step e = rw (e, put_if_absent) refl

  put_if_absent_elsewhere :
      (f : TraceMap Value) (r : TraceRow Value) (agent_id : String) (step : ℤ)
      → is_at r agent_id step ≡ false
      → put_if_absent r f agent_id step ≡ f agent_id step
  unfolding put_if_absent
  put_if_absent_elsewhere f r agent_id step h = elim (Option-cases (f agent_id step)) [
    | inl e ↦ rw (e, put_if_absent) (rw h refl)
    | inr (x, e) ↦ rw (e, put_if_absent) refl
  ]

  put_if_absent_old_at :
      (rs : List (TraceRow Value)) (r : TraceRow Value) (agent_id : String) (step : ℤ)
      → has_step r rs ≡ true
      → put_if_absent r (map_of rs) agent_id step ≡ map_of rs agent_id step
  put_if_absent_old_at rs r agent_id step h = elim (Bool-cases (is_at r agent_id step)) [
    | inl here ↦
        let (x, e) = map_of-has_step rs r agent_id step h here in
        put_if_absent_taken (map_of rs) r x agent_id step e ∙ sym e
    | inr elsewhere ↦ put_if_absent_elsewhere (map_of rs) r agent_id step elsewhere
  ]

  put_if_absent_old :
      (rs : List (TraceRow Value)) (r : TraceRow Value)
      → has_step r rs ≡ true
      → put_if_absent r (map_of rs) ≡ map_of rs
  put_if_absent_old rs r h =
      fun_ext λ agent_id. fun_ext λ step. put_if_absent_old_at rs r agent_id step h

module _ {Value : Type 0} (t : TraceTable Value) (keyed : IsKeyed t) where
  open t use {Db, DbError, rows}

  -- The table has the row as by `put_if_absent`, or the call has failed and changed nothing.
  abbrev pub Put : AgentTrace Value → Db → Result DbError (Unit {0}) × Db → Type 0
  Put trace db (r, db') =
      (map_of (rows db') ≡ put_if_absent (bind_row trace) (map_of (rows db)))
      ⊎ (((e : DbError) × (r ≡ err e)) × (map_of (rows db') ≡ map_of (rows db)))

  Inserted-Put :
      (trace : AgentTrace Value) (db db' : Db) (r : Result DbError (Unit {0}))
      → Inserted t keyed trace db db' r
      → Put trace db (r, db')
  Inserted-Put trace db db' r (added gain _) =
      inl (ap map_of gain ∙ map_of-snoc (rows db) (bind_row trace))
  Inserted-Put trace db db' r (already_there same old) =
      inl (ap map_of same ∙ sym (put_if_absent_old (rows db) (bind_row trace) old))
  Inserted-Put trace db db' r (failed e same) = inr ((e, refl), ap map_of same)

  pub insert-Put : (trace : AgentTrace Value) (db : Db) → Put trace db (insert t trace db)
  insert-Put trace db = Inserted-Put trace db _ _ (insert-Inserted t keyed trace db)
