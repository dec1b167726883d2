-- ===== src/Trace/Keyed.antt =====
-- What the program relies on when it inserts into `agent_traces`, and when it looks up a checkpoint.
use skialith.Common.{
  ◌≡◌, ◌⊎◌, String, Bool, true, false, Option, none, some, List, [], ◌∷◌, ◌++◌, ok, err, ◌&&◌,
  str_eq, if◌then◌else◌,
}
use skialith.Common.Int.{ℤ, ltb_ℤ}
use skialith.Trace.{is_duplicate}
use skialith.Trace.Table.{TraceRow, TraceTable, has_step}

module _ {Value : Type 0} where
  -- WHERE agent_id = ? AND event_type = 'thought'
  unfoldable pub is_checkpoint : String → TraceRow Value → Bool
  is_checkpoint agent_id r = str_eq r.agent_id agent_id && str_eq r.event_type "thought"

  abbrev pub higher : TraceRow Value → Option (TraceRow Value) → TraceRow Value
  higher r none = r
  higher r (some s) = if ltb_ℤ r.step_index s.step_index then s else r

  -- ORDER BY step_index DESC LIMIT 1
  unfoldable pub newest : String → List (TraceRow Value) → Option (TraceRow Value)
  unfolding is_checkpoint
  newest agent_id [] = none
  newest agent_id (r ∷ rs) =
      let rest = newest agent_id rs in
      if is_checkpoint agent_id r then some (higher r rest) else rest

  -- SELECT step_index, payload
  abbrev pub columns : Option (TraceRow Value) → Option (ℤ × Option Value)
  columns none = none
  columns (some r) = some (r.step_index, r.payload)

-- A statement that fails may have taken effect, unless the failure reports a duplicate.
pub record IsKeyed {Value : Type 0} (t : TraceTable Value) : Type 0 where
  pub execute_ok :
      (r : TraceRow Value) (db : t.Db) (u : Unit {0})
      → (t.execute r db).0 ≡ ok u
      → (t.rows (t.execute r db).1 ≡ t.rows db ++ r ∷ []) × (has_step r (t.rows db) ≡ false)
  pub execute_err :
      (r : TraceRow Value) (db : t.Db) (e : t.DbError)
      → (t.execute r db).0 ≡ err e
      → (t.rows (t.execute r db).1 ≡ t.rows db)
        ⊎ ((t.rows (t.execute r db).1 ≡ t.rows db ++ r ∷ []) × (has_step r (t.rows db) ≡ false))
  pub execute_duplicate :
      (r : TraceRow Value) (db : t.Db) (e : t.DbError)
      → (t.execute r db).0 ≡ err e
      → is_duplicate (t.as_database_error e) ≡ true
      → (t.rows (t.execute r db).1 ≡ t.rows db) × (has_step r (t.rows db) ≡ true)
  pub fetch_ok :
      (agent_id : String) (db : t.Db) (o : Option (ℤ × Option Value))
      → (t.fetch_optional agent_id db).0 ≡ ok o
      → o ≡ columns (newest agent_id (t.rows db))
  pub rows-fetch :
      (agent_id : String) (db : t.Db) → t.rows (t.fetch_optional agent_id db).1 ≡ t.rows db
