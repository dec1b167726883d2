-- ===== src/Trace/Table.antt =====
-- Table `agent_traces` behind its pool: a parameter, with the documented behaviour of the statements
-- that the program sends.
use skialith.Common.{
  ◌≡◌, String, Bool, true, false, Option, List, [], ◌∷◌, ◌++◌, ◌&&◌, ◌||◌, not, arith, eq_iff,
  Result, str_eq,
}
use skialith.Common.Int.{ℤ, eqb_ℤ}

pub record TraceRow (Value : Type 0) : Type 0 where
  pub agent_id : String
  pub step_index : ℤ
  pub event_type : String
  pub payload : Option Value

pub record DatabaseError : Type 0 where
  pub code : Option String
  pub message : String

module _ {Value : Type 0} where
  -- UNIQUE KEY uq_agent_step (agent_id, step_index)
  unfoldable pub same_step : TraceRow Value → TraceRow Value → Bool
  same_step a b = str_eq a.agent_id b.agent_id && eqb_ℤ a.step_index b.step_index

  unfoldable pub has_step : TraceRow Value → List (TraceRow Value) → Bool
  unfolding same_step
  has_step r [] = false
  has_step r (x ∷ xs) = same_step r x || has_step r xs

  unfoldable pub unique_steps : List (TraceRow Value) → Bool
  unfolding has_step
  unique_steps [] = true
  unique_steps (x ∷ xs) = not (has_step x xs) && unique_steps xs

  pub has_step_self :
      (r : TraceRow Value) (xs : List (TraceRow Value)) → has_step r (xs ++ r ∷ []) ≡ true
  unfolding has_step
  has_step_self r [] = ground (arith, eq_iff r.agent_id r.agent_id)
  has_step_self r (x ∷ xs) = ground (arith, has_step_self r xs)

  pub has_step-append :
      (r : TraceRow Value) (xs ys : List (TraceRow Value))
      → has_step r xs ≡ true
      → has_step r (xs ++ ys) ≡ true
  unfolding has_step
  has_step-append r [] ys h = cc
  has_step-append r (x ∷ xs) ys h = ground (arith, has_step-append r xs ys)

pub record TraceTable (Value : Type 0) : Type 1 where
  pub Db : Type 0
  pub DbError : Type 0
  -- INSERT INTO agent_traces (agent_id, step_index, event_type, payload) VALUES (?, ?, ?, ?)
  pub execute : TraceRow Value → Db → Result DbError (Unit {0}) × Db
  pub as_database_error : DbError → Option DatabaseError
  -- The SELECT of `resume_agent`, for an agent.
  pub fetch_optional : String → Db → Result DbError (Option (ℤ × Option Value)) × Db
  pub rows : Db → List (TraceRow Value)
