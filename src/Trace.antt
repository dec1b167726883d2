-- ===== src/Trace.antt =====
-- src/agent_trace.rs: the rows of `agent_traces` and their idempotent insertion.
pub mod Table
pub mod Keyed
pub mod Insert
pub mod Abstract
use skialith.Common.{
  ℕ, String, Bool, true, false, Option, none, some, Result, ok, err, ◌&&◌, unwrap_or, str_eq,
  if◌then◌else◌,
}
use skialith.Common.Int.{ℤ}
use skialith.Common.Text.{contains}
use Table.{TraceRow, DatabaseError, TraceTable}

pub data AgentEventType : Type 0 where
  thought tool_call observation : AgentEventType

unfoldable pub as_db_str : AgentEventType → String
as_db_str thought = "thought"
as_db_str tool_call = "tool_call"
as_db_str observation = "observation"

pub record AgentTrace (Value : Type 0) : Type 0 where
  pub agent_id : String
  pub step_index : ℤ
  pub event_type : AgentEventType
  pub payload : Value

-- The values bound to the INSERT.
unfoldable pub bind_row : {Value : Type 0} → AgentTrace Value → TraceRow Value
unfolding as_db_str
bind_row t = record {
  agent_id = t.agent_id;
  step_index = t.step_index;
  event_type = as_db_str t.event_type;
  payload = some t.payload;
}

-- SQLSTATE 23000 with "Duplicate" in the message.
unfoldable pub is_duplicate : Option DatabaseError → Bool
is_duplicate none = false
is_duplicate (some e) = str_eq (unwrap_or e.code "") "23000" && contains e.message "Duplicate"

module _ {Value : Type 0} (t : TraceTable Value) where
  -- A repeated key counts as already persisted.
  abbrev pub or_duplicate : Result t.DbError (Unit {0}) → Result t.DbError (Unit {0})
  or_duplicate (ok u) = ok tt
  or_duplicate (err e) = if is_duplicate (t.as_database_error e) then ok tt else err e

  unfoldable pub insert : AgentTrace Value → t.Db → Result t.DbError (Unit {0}) × t.Db
  unfolding bind_row is_duplicate
  insert trace db =
      (or_duplicate (t.execute (bind_row trace) db).0, (t.execute (bind_row trace) db).1)
