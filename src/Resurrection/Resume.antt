-- ===== src/Resurrection/Resume.antt =====
-- What `resume_agent` answers.
use skialith.Common.{
  Among, ◌≡◌, inl, inr, String, true, Option, none, some, Result, ok, err, Result-cases,
  Option-cases, [], ◌∷◌,
}
use skialith.Common.Int.{pos}
use skialith.External.Json.{Json}
use skialith.Trace.Table.{TraceRow, TraceTable}
use skialith.Trace.Keyed.{IsKeyed, is_checkpoint, newest, columns}
use skialith.Resurrection.{AgentState, ResurrectionError, sqlx, state_of_row, resume_agent}
use skialith.Resurrection.Newest.{Newest, newest-Newest, Highest, NoCheckpoint}

module _ (j : Json) (t : TraceTable j.Value) (keyed : IsKeyed t) where
  open t use {rows}

  -- The answer: an error of the query; a new agent at step 0, where the table has no checkpoint of it;
  -- or the step of its newest checkpoint, with that row's payload, or an unknown state for a NULL.
  pub data Resumed (agent_id : String) (db : t.Db)
      : Result (ResurrectionError t.DbError) (AgentState j.Value) → Type 0 where
    failed : (e : t.DbError) → Resumed agent_id db (err (sqlx e))
    fresh :
        NoCheckpoint agent_id (rows db)
        → Resumed agent_id db (
            ok (record {
              agent_id = agent_id;
              step_index = pos 0;
              state =
                  j.object (("kind", j.string "NewAgent") ∷ ("step_index", j.number (pos 0)) ∷ []);
            }))
    from_checkpoint :
        (r : TraceRow j.Value) (payload : j.Value)
        → Among r (rows db)
        → is_checkpoint agent_id r ≡ true
        → Highest agent_id r.step_index (rows db)
        → r.payload ≡ some payload
        → Resumed agent_id db
            (ok (record { agent_id = agent_id; step_index = r.step_index; state = payload }))
    from_null :
        (r : TraceRow j.Value)
        → Among r (rows db)
        → is_checkpoint agent_id r ≡ true
        → Highest agent_id r.step_index (rows db)
        → r.payload ≡ none
        → Resumed agent_id db (
            ok (record {
              agent_id = agent_id;
              step_index = r.step_index;
              state =
                  j.object
                    (("kind", j.string "Unknown") ∷ ("step_index", j.number r.step_index) ∷ []);
            }))

  answered :
      (agent_id : String) (db : t.Db) (o : Option (TraceRow j.Value))
      → Newest agent_id (rows db) o
      → Resumed agent_id db (ok (state_of_row j agent_id (columns o)))
  unfolding state_of_row
  answered agent_id db none h = fresh h
  answered agent_id db (some r) (mem, own, high) = elim (Option-cases r.payload) [
    | inl e ↦ rw e (from_null r mem own high e)
    | inr (payload, e) ↦ rw e (from_checkpoint r payload mem own high e)
  ]

  -- Unless the query fails, an agent resumes from the checkpoint with the highest step that the table
  -- has for it: it is given that step and that row's payload, or a state of kind "Unknown" if that is
  -- NULL; without a checkpoint it is given step 0 and a state of kind "NewAgent". The table is left
  -- as it was.
  pub resume_agent-Resumed :
      (agent_id : String) (db : t.Db)
      → Resumed agent_id db (resume_agent j t agent_id db).0
        × (rows (resume_agent j t agent_id db).1 ≡ rows db)
  unfolding resume_agent
  resume_agent-Resumed agent_id db = (
    elim (Result-cases (t.fetch_optional agent_id db).0) [
      | inr (e, h) ↦ rw h (failed e)
      | inl (o, h) ↦
          rw (h, keyed.fetch_ok agent_id db o h)
            (answered agent_id db (newest agent_id (rows db)) (newest-Newest agent_id (rows db)))
    ],
    keyed.rows-fetch agent_id db,
  )
