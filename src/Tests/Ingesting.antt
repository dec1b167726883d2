-- ===== src/Tests/Ingesting.antt =====
-- Messages ingested, and agents resumed.
use skialith.Common.{String, ℕ, ◌≡◌, refl, ◌↔◌, String, some, List, [], ◌∷◌, Result, ok, err}
use skialith.Common.Int.{pos}
use skialith.Trace.{AgentTrace, tool_call, insert}
use skialith.Trace.Table.{has_step, TraceRow}
use skialith.Ingest.{
  process_message, trace_of, Delivery, S, sequence_of, step_index_of, process_batch, ingest_loop,
  json,
}
use skialith.Ingest.Stream.{
  ConsumerConfig, Fetches, Ingests, ingest_agent_trace_stream, ingest_agent_trace_stream-Ingests,
}
use skialith.Ingest.Steps.{fallback_steps_iff}
use skialith.Ingest.Redelivery.{NothingAdded, redelivered_adds_nothing}
use skialith.Ingest.Poison.{poison_stops}
use skialith.Resurrection.{resume_agent}
use skialith.Resurrection.Resume.{Resumed, resume_agent-Resumed}
use skialith.Tests.Doubles.{
  Value, text, integer, services, jet_stream-Acknowledges, json-IsJson, unbounded-Delivers,
}
use skialith.Tests.Doubles
use skialith.Tests.Tables.{agent_traces, agent_traces-IsKeyed, consumer, consumer-Acks}

abbrev pub message : String → List ℕ → ℕ → Delivery
message subject payload n = record {
  subject = subject;
  payload = payload;
  stream_sequence = some n;
}

abbrev pub idle_ingester : S Doubles.json agent_traces consumer (λ bytes. tt)
idle_ingester = record { db = []; acks = [] }

-- The second message is no JSON.
abbrev pub fetches : List (Result (Unit {0}) (List (Result (Unit {0}) Delivery)))
fetches =
    ok (ok (message "agent.trace.a" (7 ∷ []) 1) ∷ [])
    ∷ ok (ok (message "agent.trace.a" [] 2) ∷ ok (message "agent.trace.b" (9 ∷ []) 3) ∷ [])
    ∷ []

abbrev found_stream : String → Result (Unit {0}) (Unit {0})
found_stream name = ok tt

abbrev fetching : Unit {0} → String → ConsumerConfig → Result (Unit {0}) (Fetches consumer)
fetching stream name config = ok fetches

ingest_agent_trace_stream-Ingests_example :
    Ingests Doubles.json agent_traces consumer
      (λ bytes. tt)
      found_stream
      fetching
      agent_traces-IsKeyed
      "traces"
      "ingester"
      idle_ingester
      (ingest_agent_trace_stream Doubles.json agent_traces consumer
        (λ bytes. tt)
        found_stream
        fetching
        "traces"
        "ingester"
        idle_ingester)
ingest_agent_trace_stream-Ingests_example =
    ingest_agent_trace_stream-Ingests Doubles.json agent_traces consumer (λ bytes. tt) found_stream
      fetching agent_traces-IsKeyed consumer-Acks "traces" "ingester" idle_ingester tt

poison_stops_example :
    process_batch Doubles.json agent_traces consumer
      (λ bytes. tt)
      (ok (message "agent.trace.a" [] 2) ∷ ok (message "agent.trace.b" (9 ∷ []) 3) ∷ [])
      idle_ingester
    ≡ (err (json tt), idle_ingester)
unfolding process_batch
poison_stops_example =
    poison_stops Doubles.json agent_traces consumer (λ bytes. tt) []
      (ok (message "agent.trace.b" (9 ∷ []) 3) ∷ []) (message "agent.trace.a" [] 2) idle_ingester
      refl

fallback_steps_iff_example :
    step_index_of Doubles.json (text "p") (sequence_of (some 4))
      ≡ step_index_of Doubles.json (text "q") (sequence_of (some 5))
    ↔ ◌≡◌ {A = ℕ} 4 5
fallback_steps_iff_example = fallback_steps_iff Doubles.json (text "p") (text "q") 4 5 refl refl

abbrev trace : AgentTrace Value
trace = record { agent_id = "a"; step_index = pos 3; event_type = tool_call; payload = text "p" }

abbrev pub checkpoint_row : TraceRow Value
checkpoint_row = record {
  agent_id = "a";
  step_index = pos 3;
  event_type = "thought";
  payload = some (text "q");
}

resume_agent-Resumed_example :
    Resumed Doubles.json agent_traces agent_traces-IsKeyed "a"
      (checkpoint_row ∷ [])
      (resume_agent Doubles.json agent_traces "a" (checkpoint_row ∷ [])).0
    × ((resume_agent Doubles.json agent_traces "a" (checkpoint_row ∷ [])).1 ≡ checkpoint_row ∷ [])
resume_agent-Resumed_example =
    resume_agent-Resumed Doubles.json agent_traces agent_traces-IsKeyed "a" (checkpoint_row ∷ [])

redelivered_adds_nothing_example :
    let first : S Doubles.json agent_traces consumer (λ bytes. tt) =
      (process_message Doubles.json agent_traces consumer
        (λ bytes. tt)
        (message "agent.trace.a" (7 ∷ []) 1)
        idle_ingester).1 in
    let later : S Doubles.json agent_traces consumer (λ bytes. tt) =
      (ingest_loop Doubles.json agent_traces consumer (λ bytes. tt) fetches first).1 in
    NothingAdded Doubles.json agent_traces consumer
      (λ bytes. tt)
      agent_traces-IsKeyed
      (message "agent.trace.a" (7 ∷ []) 1)
      (trace_of Doubles.json (message "agent.trace.a" (7 ∷ []) 1) (integer (pos 7)))
      later
      (process_message Doubles.json agent_traces consumer
        (λ bytes. tt)
        (message "agent.trace.a" (7 ∷ []) 1)
        later)
unfolding insert has_step
redelivered_adds_nothing_example =
    redelivered_adds_nothing Doubles.json agent_traces consumer (λ bytes. tt) agent_traces-IsKeyed
      (message "agent.trace.a" (7 ∷ []) 1) (integer (pos 7)) idle_ingester fetches refl refl
