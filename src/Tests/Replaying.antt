-- ===== src/Tests/Replaying.antt =====
-- Two saved events ingested, the first of them twice, until a fetch fails.
use skialith.Common.{
  ℕ, ◌<◌, ◌^◌, Among, ◌≡◌, refl, ◌⊎◌, inl, inr, List, [], ◌∷◌, ◌++◌, Result, ok, err, arith,
}
use skialith.Common.Int.{pos, as_i32, as_i64}
use skialith.Common.Text.{has_dot, contains}
use skialith.Ingest.Items.{items_of}
use skialith.Trace.Table.{has_step}
use skialith.Trace.Keyed.{newest}
use skialith.Ingest.{Delivery, E, ingest_loop}
use skialith.Resurrection.{AgentState, resume_agent}
use skialith.Store.SaveEvent.{envelope}
use skialith.Server.Recovery.Filed.{SavedEvent, nth_message}
use skialith.Server.Recovery.LastSaved.{LastSaved}
use skialith.Server.Recovery.Replayed.{resume_agent-LastSaved}
use skialith.Tests.Doubles.{Value, text, services, json-IsJson}
use skialith.Tests.Doubles
use skialith.Tests.Tables.{agent_traces, agent_traces-IsKeyed, consumer}
use skialith.Tests.Ingesting.{idle_ingester}

abbrev log : ℕ → SavedEvent Value
log n = record { agent_id = "a"; event_id = "1"; payload = text "p" }

abbrev fetched : List (Result (Unit {0}) (List (Result (Unit {0}) Delivery)))
fetched =
    let m = nth_message services json-IsJson agent_traces agent_traces-IsKeyed log in
    ok (ok (m 4) ∷ ok (m 5) ∷ []) ∷ ok (ok (m 4) ∷ []) ∷ err tt ∷ []

abbrev resumed : AgentState Value
resumed = record {
  agent_id = "a";
  step_index = pos 5;
  state = envelope services "a" "1" (text "p");
}

abbrev numbers : List ℕ
numbers = 4 ∷ 5 ∷ 4 ∷ []

below : (n : ℕ) → Among n numbers → n < 2 ^ 31
below n (inl e) = omega arith
below n (inr (inl e)) = omega arith
below n (inr (inr (inl e))) = omega arith
below n (inr (inr (inr h))) = elim h [ ]

resume_agent-LastSaved_example :
    (done : List ℕ) × (left : List ℕ) × (numbers ≡ done ++ left)
    × ((left ≡ [])
        ⊎ ((e : E Doubles.json agent_traces consumer (λ bytes. tt)) × ((ingest_loop Doubles.json
                agent_traces consumer
                (λ bytes. tt)
                fetched
                idle_ingester).0
              ≡ err e)))
    × LastSaved services json-IsJson agent_traces agent_traces-IsKeyed log "a" done resumed
unfolding has_dot envelope items_of resume_agent newest ingest_loop has_step as_i32 as_i64 contains
resume_agent-LastSaved_example =
    resume_agent-LastSaved services json-IsJson agent_traces agent_traces-IsKeyed log consumer
      (λ bytes. tt) (λ n. refl) (λ n. refl) [] (ok 4 ∷ ok 5 ∷ ok 4 ∷ err tt ∷ []) fetched
      idle_ingester "a" resumed refl
      (record { only = λ r mem. elim mem [ ]; all = λ n mem. elim mem [ ] }) below refl
