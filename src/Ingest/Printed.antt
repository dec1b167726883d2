-- ===== src/Ingest/Printed.antt =====
-- A trace that is printed with its step and the database's name of its event type, and read back.
use skialith.Common.{ℕ, ◌≡◌, refl, ap, ◌∙◌, String, false, Option, some, none, List, ◌∷◌}
use skialith.Common.Int.{ℤ, FitsI32, FitsI32-FitsI64}
use skialith.Common.Text.{◌<>◌, has_dot}
use skialith.External.Json.{Json, IsJson, Reparses, field}
use skialith.Trace.{AgentEventType, thought, tool_call, observation, as_db_str, bind_row, insert}
use skialith.Trace.Table.{TraceTable}
use skialith.Ingest.{
  Delivery, Consumer, S, process_message, sequence_of, event_type_of_name, event_type_of, trace_of,
}
use skialith.Ingest.Subject.{agent_of_iff}
use skialith.Ingest.Redelivery.{process_message_db}
use skialith.Ingest.Steps.{given_step_kept}

event_type_of_name-as_db_str : (e : AgentEventType) → event_type_of_name (as_db_str e) ≡ e
unfolding event_type_of_name as_db_str
event_type_of_name-as_db_str thought = refl
event_type_of_name-as_db_str tool_call = refl
event_type_of_name-as_db_str observation = refl

module _ (j : Json) (isJson : IsJson j) where
  open j use {Value, object, number, string}

  abbrev pub printed : ℤ → AgentEventType → List (String × Value) → Value
  printed step e rest =
      object (("step_index", number step) ∷ ("event_type", string (as_db_str e)) ∷ rest)

  abbrev pub published : String → List ℕ → Option ℕ → Delivery
  published agent_id bytes n = record {
    subject = "agent.trace." <> agent_id;
    payload = bytes;
    stream_sequence = n;
  }

  get_step :
      (step : ℤ) (e : AgentEventType) (rest : List (String × Value))
      → field "step_index" rest ≡ none
      → j.get (printed step e rest) "step_index" ≡ some (number step)
  get_step step e rest h = isJson.get-object _ "step_index" ∙ rw h refl

  event_type_of-printed :
      (step : ℤ) (e : AgentEventType) (rest : List (String × Value))
      → field "event_type" rest ≡ none
      → event_type_of j (printed step e rest) ≡ e
  unfolding event_type_of
  event_type_of-printed step e rest h =
      rw
        (isJson.get-object
          (("step_index", number step) ∷ ("event_type", string (as_db_str e)) ∷ rest) "event_type")
        (rw h (rw (isJson.as_str-string (as_db_str e)) (event_type_of_name-as_db_str e)))

  -- The trace of a payload whose own fields give a step that is an i32 and an event type.
  trace_of-printed :
      (agent_id : String) (step : ℤ) (e : AgentEventType) (rest : List (String × Value))
      (bytes : List ℕ) (n : Option ℕ)
      → has_dot agent_id ≡ false
      → FitsI32 step
      → field "step_index" rest ≡ none
      → field "event_type" rest ≡ none
      → trace_of j (published agent_id bytes n) (printed step e rest) ≡ record {
        agent_id = agent_id;
        step_index = step;
        event_type = e;
        payload = printed step e rest;
      }
  unfolding trace_of
  trace_of-printed agent_id step e rest bytes n plain fits no_step no_type = λ i. record {
    agent_id = (agent_of_iff agent_id).1 plain i;
    step_index =
        given_step_kept j (printed step e rest) (number step) step (sequence_of n)
          (get_step step e rest no_step) (isJson.as_i64-number step (FitsI32-FitsI64 step fits))
          fits i;
    event_type = event_type_of-printed step e rest no_type i;
    payload = printed step e rest;
  }

  -- The ingester reads back what a producer prints: for the printed bytes of a payload whose fields
  -- give a step that is an i32, and an event type by its name in the database, what it inserts is one
  -- row with the agent of the subject, that step, that name and that payload, whatever the message's
  -- sequence number in the stream. The printed payload parses back to itself, no later field repeats
  -- the two, and the agent's identifier has no dot.
  pub process_message-printed :
      (t : TraceTable Value) (c : Consumer) (bad_json : List ℕ → j.Error) (agent_id : String)
      (step : ℤ) (e : AgentEventType) (rest : List (String × Value)) (n : Option ℕ)
      (s : S j t c bad_json)
      → Reparses j (printed step e rest)
      → has_dot agent_id ≡ false
      → FitsI32 step
      → field "step_index" rest ≡ none
      → field "event_type" rest ≡ none
      → (process_message j t c bad_json
          (published agent_id (j.to_vec (printed step e rest)) n)
          s).1.db
        ≡ (t.execute
            (record {
              agent_id = agent_id;
              step_index = step;
              event_type = as_db_str e;
              payload = some (printed step e rest);
            })
            s.db).1
  unfolding insert bind_row
  process_message-printed t c bad_json agent_id step e rest n s parses plain fits no_step no_type =
      let bytes = j.to_vec (printed step e rest) in
      process_message_db j t c bad_json (published agent_id bytes n) (printed step e rest) s parses
      ∙ ap (λ trace. (insert t trace s.db).1)
          (trace_of-printed agent_id step e rest bytes n plain fits no_step no_type)
