-- ===== src/Ingest/Stream.antt =====
-- `ingest_agent_trace_stream`: the stream, its durable consumer, and the loop over what that fetches.
use skialith.Common.{ℕ, ◌≡◌, refl, String, Option, some, List, Result, ok, err}
use skialith.External.Json.{Json}
use skialith.Trace.Table.{TraceTable}
use skialith.Trace.Keyed.{IsKeyed}
use skialith.Ingest.{Delivery, Consumer, S, E, nats, filter_subject, ingest_loop}
use skialith.Ingest.Items.{items_of}
use skialith.Ingest.Rows.{AddsRowsOf, ingest_loop-AddsRowsOf}
use skialith.Ingest.Acked.{Acks, AckedPersisted, ingest_loop-AckedPersisted}

pub data AckPolicy : Type 0 where
  none all explicit : AckPolicy

-- `pull::Config`, as far as it is not the default.
pub record ConsumerConfig : Type 0 where
  pub durable_name : Option String
  pub filter_subject : String
  pub ack_policy : AckPolicy

abbrev pub consumer_config : String → ConsumerConfig
consumer_config durable_consumer_name = record {
  durable_name = some durable_consumer_name;
  filter_subject = filter_subject;
  ack_policy = explicit;
}

-- The answers of the consumer to its fetches, each a batch of messages or an error.
abbrev pub Fetches : Consumer → Type 0
Fetches c = List (Result c.NatsError (List (Result c.NatsError Delivery)))

module _ (j : Json) (t : TraceTable j.Value) (c : Consumer) (bad_json : List ℕ → j.Error)
    {Stream : Type 0} (get_stream : String → Result c.NatsError Stream)
    (get_or_create_consumer : Stream
      → String
      → ConsumerConfig
      → Result c.NatsError (Fetches c)) where
  abbrev pub Ingested : Type 0
  Ingested = Result (E j t c bad_json) (Unit {0}) × S j t c bad_json

  abbrev with_consumer : Result c.NatsError (Fetches c) → S j t c bad_json → Ingested
  with_consumer (err e) s = (err (nats e), s)
  with_consumer (ok fetches) s = ingest_loop j t c bad_json fetches s

  abbrev with_stream : String → Result c.NatsError Stream → S j t c bad_json → Ingested
  with_stream durable_consumer_name (err e) s = (err (nats e), s)
  with_stream durable_consumer_name (ok stream) s =
      with_consumer
        (get_or_create_consumer stream durable_consumer_name
          (consumer_config durable_consumer_name))
        s

  unfoldable pub ingest_agent_trace_stream : String → String → S j t c bad_json → Ingested
  unfolding ingest_loop
  ingest_agent_trace_stream stream_name durable_consumer_name s =
      with_stream durable_consumer_name (get_stream stream_name) s

  -- How a run ends that starts from `s`.
  pub data Ingests (keyed : IsKeyed t) (stream_name durable_consumer_name : String)
      (s : S j t c bad_json) (out : Ingested) : Type 0 where
    no_stream :
        (e : c.NatsError)
        → get_stream stream_name ≡ err e
        → out ≡ (err (nats e), s)
        → Ingests keyed stream_name durable_consumer_name s out
    no_consumer :
        (stream : Stream) (e : c.NatsError)
        → get_stream stream_name ≡ ok stream
        → get_or_create_consumer stream durable_consumer_name (record {
          durable_name = some durable_consumer_name;
          filter_subject = "agent.trace.*";
          ack_policy = explicit;
        })
          ≡ err e
        → out ≡ (err (nats e), s)
        → Ingests keyed stream_name durable_consumer_name s out
    consumed :
        (stream : Stream) (fetches : Fetches c)
        → get_stream stream_name ≡ ok stream
        → get_or_create_consumer stream durable_consumer_name (record {
          durable_name = some durable_consumer_name;
          filter_subject = "agent.trace.*";
          ack_policy = explicit;
        })
          ≡ ok fetches
        → out ≡ ingest_loop j t c bad_json fetches s
        → AckedPersisted j t c bad_json out.1
        → AddsRowsOf j t c bad_json keyed (items_of c fetches) s out.1
        → Ingests keyed stream_name durable_consumer_name s out

  module _ (keyed : IsKeyed t) (acks : Acks c) (stream_name durable_consumer_name : String)
      (s : S j t c bad_json) (persisted : AckedPersisted j t c bad_json s) where
    Ingests-with_consumer :
        (stream : Stream) (r : Result c.NatsError (Fetches c))
        → get_stream stream_name ≡ ok stream
        → get_or_create_consumer stream durable_consumer_name
            (consumer_config durable_consumer_name)
          ≡ r
        → Ingests keyed stream_name durable_consumer_name s (with_consumer r s)
    Ingests-with_consumer stream (err e) found h = no_consumer stream e found h refl
    Ingests-with_consumer stream (ok fetches) found h =
        consumed stream fetches found h refl
          (ingest_loop-AckedPersisted j t c bad_json keyed acks fetches s persisted)
          (ingest_loop-AddsRowsOf j t c bad_json keyed fetches s)

    Ingests-with_stream :
        (r : Result c.NatsError Stream)
        → get_stream stream_name ≡ r
        → Ingests keyed stream_name durable_consumer_name s (with_stream durable_consumer_name r s)
    Ingests-with_stream (err e) h = no_stream e h refl
    Ingests-with_stream (ok stream) h = Ingests-with_consumer stream _ h refl

    -- At-least-once ingestion: where the stream or the durable consumer is not to be had, the ingester
    -- stops with that error and changes nothing; else it runs its loop over what a consumer with explicit
    -- acknowledgements and the filter of the traces fetches, and at whatever point and with whatever
    -- error that stops, every message that it has acknowledged has a row for its agent and step in the
    -- table, if that was so before; and each row that the table has gained is that of a fetched
    -- message: its agent, step and event type, and its whole payload.
    pub ingest_agent_trace_stream-Ingests :
        Ingests keyed stream_name durable_consumer_name s
          (ingest_agent_trace_stream stream_name durable_consumer_name s)
    unfolding ingest_agent_trace_stream
    ingest_agent_trace_stream-Ingests = Ingests-with_stream (get_stream stream_name) refl
