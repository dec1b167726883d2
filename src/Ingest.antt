-- ===== src/Ingest.antt =====
-- src/trace_ingest.rs: from the messages of the stream to the rows of `agent_traces`.
pub mod Subject
pub mod Saved
pub mod Steps
pub mod Acked
pub mod Poison
pub mod Redelivery
pub mod Items
pub mod Refines
pub mod Printed
pub mod Rows
pub mod Stream
use skialith.Common.{
  ℕ, String, Bool, true, false, Option, none, some, List, [], ◌∷◌, Result, ok, err, Exec, map_err,
  continue, ◌>>=◌, ◌>>◌, unwrap_or, get_elem?, str_eq, if◌then◌else◌,
}
use skialith.Common.Int.{ℤ, as_i32, as_i64}
use skialith.Common.Text.{split_dot}
use skialith.External.Json.{Json}
use skialith.Trace.{AgentEventType, thought, tool_call, observation, AgentTrace, insert}
use skialith.Trace.Table.{TraceTable}

-- A message of the stream. `msg.info()` gives its sequence number in the stream, a u64, or fails.
pub record Delivery : Type 0 where
  pub subject : String
  pub payload : List ℕ
  pub stream_sequence : Option ℕ

-- The consumer's side of the acknowledgements.
pub record Consumer : Type 1 where
  pub Acks : Type 0
  pub NatsError : Type 0
  pub ack : Delivery → Acks → Result NatsError (Unit {0}) × Acks
  -- The messages for which an acknowledgement was sent, the oldest first.
  pub acked : Acks → List Delivery

pub data TraceIngestError (Nats Serde Sqlx : Type 0) : Type 0 where
  nats : Nats → TraceIngestError Nats Serde Sqlx
  json : Serde → TraceIngestError Nats Serde Sqlx
  sqlx : Sqlx → TraceIngestError Nats Serde Sqlx

-- The consumer's `filter_subject`.
abbrev pub filter_subject : String
filter_subject = "agent.trace.*"

-- `subject.split('.').nth(2).unwrap_or("")`
unfoldable pub agent_of : String → String
unfolding split_dot
agent_of subject = unwrap_or (get_elem? (split_dot subject) 2) ""

unfoldable pub event_type_of_name : String → AgentEventType
event_type_of_name s =
    if str_eq s "tool_call"
    then tool_call
    else if str_eq s "observation"
    then observation
    else thought

abbrev pub sequence_of : Option ℕ → ℤ
sequence_of none = as_i64 0
sequence_of (some n) = as_i64 n

module _ (j : Json) where
  abbrev and_then {ℓ} : {A B : Type ℓ} → Option A → (A → Option B) → Option B
  and_then none f = none
  and_then (some a) f = f a

  unfoldable pub step_index_of : j.Value → ℤ → ℤ
  step_index_of payload js_sequence =
      as_i32 (unwrap_or (and_then (j.get payload "step_index") j.as_i64) js_sequence)

  abbrev type_or_thought : Option String → AgentEventType
  type_or_thought none = thought
  type_or_thought (some s) = event_type_of_name s

  unfoldable pub event_type_of : j.Value → AgentEventType
  unfolding event_type_of_name
  event_type_of payload = type_or_thought (and_then (j.get payload "event_type") j.as_str)

  -- The trace built from a message and its parsed payload.
  unfoldable pub trace_of : Delivery → j.Value → AgentTrace j.Value
  unfolding agent_of step_index_of event_type_of
  trace_of msg payload = record {
    agent_id = agent_of msg.subject;
    step_index = step_index_of payload (sequence_of msg.stream_sequence);
    event_type = event_type_of payload;
    payload = payload;
  }

pub record IngestState (Db Acks : Type 0) : Type 0 where
  pub db : Db
  pub acks : Acks

module _ (j : Json) (t : TraceTable j.Value) (c : Consumer) (bad_json : List ℕ → j.Error) where
  abbrev pub S : Type 0
  S = IngestState t.Db c.Acks

  abbrev pub E : Type 0
  E = TraceIngestError c.NatsError j.Error t.DbError

  -- `serde_json::from_slice(&msg.payload)?`
  abbrev parse : List ℕ → Option j.Value → Exec S E j.Value
  parse bytes none s = (err (json (bad_json bytes)), s)
  parse bytes (some v) s = (ok v, s)

  abbrev insert_trace : AgentTrace j.Value → Exec S E (Unit {0})
  insert_trace trace s =
      (map_err sqlx (insert t trace s.db).0, record s { db = (insert t trace s.db).1 })

  abbrev send_ack : Delivery → Exec S E (Unit {0})
  send_ack msg s = (map_err nats (c.ack msg s.acks).0, record s { acks = (c.ack msg s.acks).1 })

  -- The body of the inner loop, for a message that was received.
  unfoldable pub process_message : Delivery → Exec S E (Unit {0})
  unfolding trace_of insert
  process_message msg = do
    payload ← parse msg.payload (j.from_slice msg.payload)
    insert_trace (trace_of j msg payload)
    send_ack msg

  unfoldable pub process : Result c.NatsError Delivery → Exec S E (Unit {0})
  unfolding process_message
  process (ok msg) s = process_message msg s
  process (err e) s = (err (nats e), s)

  -- The inner loop over one fetched batch.
  unfoldable pub process_batch : List (Result c.NatsError Delivery) → Exec S E (Unit {0})
  unfolding process
  process_batch [] s = (ok tt, s)
  process_batch (item ∷ items) s =
      continue (process item s).0 (λ _. process_batch items) (process item s).1

  abbrev fetch_batch : Result c.NatsError (List (Result c.NatsError Delivery)) → Exec S E (Unit {0})
  fetch_batch (err e) s = (err (nats e), s)
  fetch_batch (ok items) s = process_batch items s

  -- The outer loop, over the answers to its fetches: it goes on until one of them, or a message,
  -- stops it with an error.
  unfoldable pub ingest_loop :
      List (Result c.NatsError (List (Result c.NatsError Delivery))) → Exec S E (Unit {0})
  unfolding process_batch
  ingest_loop [] s = (ok tt, s)
  ingest_loop (fetched ∷ rest) s =
      continue (fetch_batch fetched s).0 (λ _. ingest_loop rest) (fetch_batch fetched s).1
