-- ===== src/Tests/Tracing.antt =====
-- The ingester against its abstract view, and a trace that is printed and read back.
use skialith.Common.{◌≡◌, refl, none, some, [], ◌∷◌, arith}
use skialith.Common.Int.{negsuc}
use skialith.Common.Text.{has_dot}
use skialith.Trace.{tool_call, as_db_str}
use skialith.Ingest.{ingest_loop, process_message}
use skialith.Ingest.Items.{items_of}
use skialith.Ingest.Refines.{Refines, ingest_loop-Refines}
use skialith.Ingest.Printed.{printed, published, process_message-printed}
use skialith.Tests.Doubles
use skialith.Tests.Doubles.{text, json-IsJson}
use skialith.Tests.Tables.{agent_traces, agent_traces-IsKeyed, consumer}
use skialith.Tests.Ingesting.{idle_ingester, fetches}

ingest_loop-Refines_example :
    Refines Doubles.json agent_traces consumer
      (λ bytes. tt)
      (items_of consumer fetches)
      idle_ingester
      (ingest_loop Doubles.json agent_traces consumer (λ bytes. tt) fetches idle_ingester)
ingest_loop-Refines_example =
    ingest_loop-Refines Doubles.json agent_traces consumer (λ bytes. tt) agent_traces-IsKeyed
      fetches idle_ingester

process_message-printed_example :
    let payload = printed Doubles.json json-IsJson (negsuc 4) tool_call (("note", text "n") ∷ []) in
    (process_message Doubles.json agent_traces consumer
      (λ bytes. tt)
      (published Doubles.json json-IsJson "a" (Doubles.json.to_vec payload) none)
      idle_ingester).1.db
    ≡ (agent_traces.execute
        (record {
          agent_id = "a";
          step_index = negsuc 4;
          event_type = "tool_call";
          payload = some payload;
        })
        []).1
unfolding has_dot as_db_str
process_message-printed_example =
    process_message-printed Doubles.json json-IsJson agent_traces consumer (λ bytes. tt) "a"
      (negsuc 4) tool_call (("note", text "n") ∷ []) none idle_ingester refl refl
      (omega arith, omega arith) refl refl
