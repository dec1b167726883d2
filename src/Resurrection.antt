-- ===== src/Resurrection.antt =====
-- src/resurrection.rs: the state that an agent resumes from.
pub mod Newest
pub mod Resume
use skialith.Common.{String, Option, none, some, List, [], ◌∷◌, Result, ok, err, map_err}
use skialith.Common.Int.{ℤ, pos}
use skialith.External.Json.{Json}
use skialith.Trace.Table.{TraceTable}

pub data ResurrectionError (Sqlx : Type 0) : Type 0 where
  sqlx : Sqlx → ResurrectionError Sqlx

pub record AgentState (Value : Type 0) : Type 0 where
  pub agent_id : String
  pub step_index : ℤ
  pub state : Value

module _ (j : Json) where
  open j use {object, string, number}

  unfoldable pub new_agent : String → AgentState j.Value
  new_agent agent_id = record {
    agent_id = agent_id;
    step_index = pos 0;
    state = object (("kind", string "NewAgent") ∷ ("step_index", number (pos 0)) ∷ []);
  }

  abbrev unknown : ℤ → j.Value
  unknown step_index = object (("kind", string "Unknown") ∷ ("step_index", number step_index) ∷ [])

  -- A row whose payload is NULL.
  abbrev or_unknown : ℤ → Option j.Value → j.Value
  or_unknown step_index none = unknown step_index
  or_unknown step_index (some v) = v

  -- The `match` on the row.
  unfoldable pub state_of_row : String → Option (ℤ × Option j.Value) → AgentState j.Value
  unfolding new_agent
  state_of_row agent_id none = new_agent agent_id
  state_of_row agent_id (some (step_index, maybe_payload)) = record {
    agent_id = agent_id;
    step_index = step_index;
    state = or_unknown step_index maybe_payload;
  }

  abbrev map_ok : {E A B : Type 0} → (A → B) → Result E A → Result E B
  map_ok f (ok a) = ok (f a)
  map_ok f (err e) = err e

  module _ (t : TraceTable j.Value) where
    unfoldable pub resume_agent :
        String → t.Db → Result (ResurrectionError t.DbError) (AgentState j.Value) × t.Db
    unfolding state_of_row
    resume_agent agent_id db = (
      map_ok (state_of_row agent_id) (map_err sqlx (t.fetch_optional agent_id db).0),
      (t.fetch_optional agent_id db).1,
    )
