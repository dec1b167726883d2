-- ===== src/Trace/Insert.antt =====
-- What `AgentTrace::insert` does to the table.
use skialith.Common.{
  ◌≡◌, refl, ap, ◌∙◌, inl, inr, true, false, ◌||◌, List, [], ◌∷◌, ◌++◌, Result, ok, err,
  Result-cases, Bool-cases, arith, eq_iff,
}
use skialith.Trace.{AgentTrace, bind_row, is_duplicate, insert}
use skialith.Trace.Table.{
  TraceRow, TraceTable, same_step, has_step, unique_steps, has_step_self, has_step-append,
}
use skialith.Trace.Keyed.{IsKeyed}

module _ {Value : Type 0} where
  same_step_sym : (a b : TraceRow Value) → same_step a b ≡ same_step b a
  unfolding same_step
  same_step_sym a b = ground (arith, eq_iff a.agent_id b.agent_id, eq_iff b.agent_id a.agent_id)

  has_step-snoc :
      (x r : TraceRow Value) (xs : List (TraceRow Value))
      → has_step x (xs ++ r ∷ []) ≡ (has_step x xs || same_step x r)
  unfolding has_step
  has_step-snoc x r [] = ground arith
  has_step-snoc x r (y ∷ xs) = ground (arith, has_step-snoc x r xs)

  unique_steps-snoc :
      (r : TraceRow Value) (xs : List (TraceRow Value))
      → unique_steps xs ≡ true
      → has_step r xs ≡ false
      → unique_steps (xs ++ r ∷ []) ≡ true
  unfolding unique_steps
  unique_steps-snoc r [] u h = refl
  unique_steps-snoc r (x ∷ xs) u h =
      ground (arith, has_step-snoc x r xs, same_step_sym x r, unique_steps-snoc r xs)

module _ {Value : Type 0} (t : TraceTable Value) (keyed : IsKeyed t) where
  open t use {Db, DbError, rows}

  -- The table after an insert: unchanged, or with the row at its end, if its key was new.
  pub data Inserted (trace : AgentTrace Value) (db db' : Db)
      : Result DbError (Unit {0}) → Type 0 where
    added :
        {r : Result DbError (Unit {0})}
        → rows db' ≡ rows db ++ bind_row trace ∷ []
        → has_step (bind_row trace) (rows db) ≡ false
        → Inserted trace db db' r
    already_there :
        rows db' ≡ rows db
        → has_step (bind_row trace) (rows db) ≡ true
        → Inserted trace db db' (ok tt)
    failed : (e : DbError) → rows db' ≡ rows db → Inserted trace db db' (err e)

  pub insert-Inserted :
      (trace : AgentTrace Value) (db : Db)
      → Inserted trace db (insert t trace db).1 (insert t trace db).0
  unfolding insert
  insert-Inserted trace db =
      let row : TraceRow Value = bind_row trace in
      elim (Result-cases (t.execute row db).0) [
        | inl (u, e) ↦ let (gain, new) = keyed.execute_ok row db u e in added gain new
        | inr (x, e) ↦ rw e (elim (Bool-cases (is_duplicate (t.as_database_error x))) [
          | inl dup ↦
              let (same, old) = keyed.execute_duplicate row db x e dup in
              rw dup (already_there same old)
          | inr other ↦ rw other (elim (keyed.execute_err row db x e) [
            | inl same ↦ failed x same
            | inr (gain, new) ↦ added gain new
          ])
        ])
      ]

  Inserted-has_step :
      (trace : AgentTrace Value) (db db' : Db) (r : Result DbError (Unit {0}))
      → Inserted trace db db' r
      → r ≡ ok tt
      → has_step (bind_row trace) (rows db') ≡ true
  Inserted-has_step trace db db' r (added gain _) h =
      ap (has_step (bind_row trace)) gain ∙ has_step_self (bind_row trace) (rows db)
  Inserted-has_step trace db db' r (already_there same old) h =
      ap (has_step (bind_row trace)) same ∙ old
  Inserted-has_step trace db db' r (failed e same) h = cc

  Inserted-unique_steps :
      (trace : AgentTrace Value) (db db' : Db) (r : Result DbError (Unit {0}))
      → Inserted trace db db' r
      → unique_steps (rows db) ≡ true
      → unique_steps (rows db') ≡ true
  Inserted-unique_steps trace db db' r (added gain new) u =
      ap unique_steps gain ∙ unique_steps-snoc (bind_row trace) (rows db) u new
  Inserted-unique_steps trace db db' r (already_there same _) u = ap unique_steps same ∙ u
  Inserted-unique_steps trace db db' r (failed e same) u = ap unique_steps same ∙ u

  -- Whatever the database answers, a table with one row for each step of an agent stays so:
  -- the row is added, where its step was new (even if the answer was lost); or its step is
  -- there and the call succeeds; or the call fails and nothing is added.
  pub insert_once :
      (trace : AgentTrace Value) (db : Db)
      → unique_steps (rows db) ≡ true
      → Inserted trace db (insert t trace db).1 (insert t trace db).0
        × (unique_steps (rows (insert t trace db).1) ≡ true)
  insert_once trace db u =
      (insert-Inserted trace db, Inserted-unique_steps trace db _ _ (insert-Inserted trace db) u)

  -- An insert that answers `Ok` leaves a row under its key.
  pub insert_ok-has_step :
      (trace : AgentTrace Value) (db : Db)
      → (insert t trace db).0 ≡ ok tt
      → has_step (bind_row trace) (rows (insert t trace db).1) ≡ true
  insert_ok-has_step trace db = Inserted-has_step trace db _ _ (insert-Inserted trace db)

  Inserted-keeps :
      (trace : AgentTrace Value) (db db' : Db) (r : Result DbError (Unit {0})) (x : TraceRow Value)
      → Inserted trace db db' r
      → has_step x (rows db) ≡ true
      → has_step x (rows db') ≡ true
  Inserted-keeps trace db db' r x (added gain _) h =
      ap (has_step x) gain ∙ has_step-append x (rows db) (bind_row trace ∷ []) h
  Inserted-keeps trace db db' r x (already_there same _) h = ap (has_step x) same ∙ h
  Inserted-keeps trace db db' r x (failed e same) h = ap (has_step x) same ∙ h

  -- No insert removes a row.
  pub insert_keeps :
      (trace : AgentTrace Value) (db : Db) (x : TraceRow Value)
      → has_step x (rows db) ≡ true
      → has_step x (rows (insert t trace db).1) ≡ true
  insert_keeps trace db x = Inserted-keeps trace db _ _ x (insert-Inserted trace db)
