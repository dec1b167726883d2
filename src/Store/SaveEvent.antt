-- ===== src/Store/SaveEvent.antt =====
-- `SkialithStore::save_event`: a slot of the rate limiter, the write-ahead log, then the queue.
pub mod Branches
pub mod Returns
pub mod Interleaved
pub mod WriteAhead
use skialith.Common.{
  ℕ, String, Bool, true, false, Option, none, some, List, [], ◌∷◌, Result, ok, err, Exec, map_err,
  ◌>>=◌, ◌>>◌,
}
use skialith.Common.Text.{◌<>◌}
use skialith.External.Json.{Json}
use skialith.External.JetStream.{JetStream, Message}
use skialith.Limits.Limiter.{RateLimiter, Meter, wait}
use skialith.Store.Events.{PendingEvent}
use skialith.Store.Mpsc.{Mpsc}

-- The variants carry the errors of the crates that the program calls.
pub data SkialithError (Serde Connect NatsPublish Publish CreateStream Sqlx : Type 0) : Type 0 where
  serialize : Serde → SkialithError Serde Connect NatsPublish Publish CreateStream Sqlx
  nats_connect : Connect → SkialithError Serde Connect NatsPublish Publish CreateStream Sqlx
  nats_publish : NatsPublish → SkialithError Serde Connect NatsPublish Publish CreateStream Sqlx
  jet_stream_publish : Publish → SkialithError Serde Connect NatsPublish Publish CreateStream Sqlx
  jet_stream : CreateStream → SkialithError Serde Connect NatsPublish Publish CreateStream Sqlx
  sqlx : Sqlx → SkialithError Serde Connect NatsPublish Publish CreateStream Sqlx
  queue_closed : SkialithError Serde Connect NatsPublish Publish CreateStream Sqlx
  instance_lock : String → SkialithError Serde Connect NatsPublish Publish CreateStream Sqlx

pub record Services : Type 1 where
  pub json : Json
  pub jet_stream : JetStream
  pub queue : Mpsc PendingEvent
  pub Connect : Type 0
  pub NatsPublish : Type 0
  pub CreateStream : Type 0
  pub Sqlx : Type 0

-- What a call of `save_event` reads and changes.
pub record StoreState (Js Queue : Type 0) : Type 0 where
  pub js : Js
  pub enqueue_tx : Queue
  pub rate_limiter : RateLimiter
  pub clock : Meter

abbrev pub StateOf : Services → Type 0
StateOf v = StoreState v.jet_stream.Js v.queue.Chan

-- `T: Serialize`, by the value that it serialises to.
abbrev pub Serializes : Services → Type 0 → Type 0
Serializes v T = T → Result v.json.Error v.json.Value

module _ (v : Services) where
  abbrev pub ErrorOf : Type 0
  ErrorOf =
      SkialithError v.json.Error v.Connect v.NatsPublish v.jet_stream.PublishError v.CreateStream
        v.Sqlx

  -- `AgentTraceEvent`, serialised.
  unfoldable pub envelope : String → String → v.json.Value → v.json.Value
  envelope agent_id event_id payload = v.json.object (
      ("agent_id", v.json.string agent_id)
      ∷ ("event_id", v.json.string event_id)
      ∷ ("payload", payload)
      ∷ [])

  abbrev on_js :
      {A : Type 0}
      → (v.jet_stream.Js → Result v.jet_stream.PublishError A × v.jet_stream.Js)
      → Exec (StateOf v) ErrorOf A
  on_js f s = (map_err jet_stream_publish (f s.js).0, record s { js = (f s.js).1 })

  abbrev pub accepted_or_closed : Bool → Result ErrorOf (Unit {0})
  accepted_or_closed true = ok tt
  accepted_or_closed false = err queue_closed

  abbrev enqueue : PendingEvent → Exec (StateOf v) ErrorOf (Unit {0})
  enqueue ev s = (
    accepted_or_closed (v.queue.send ev s.enqueue_tx).0,
    record s { enqueue_tx = (v.queue.send ev s.enqueue_tx).1 },
  )

  abbrev pub serialize_payload :
      Result v.json.Error v.json.Value → Exec (StateOf v) ErrorOf v.json.Value
  serialize_payload r s = (map_err serialize r, s)

  abbrev pub subject_of : String → String
  subject_of agent_id = "agent.trace." <> agent_id

  abbrev pub message_of : String → List ℕ → Message
  message_of agent_id payload_json = record {
    subject = subject_of agent_id;
    headers = [];
    payload = payload_json;
  }

  abbrev pub pending_of : String → String → List ℕ → PendingEvent
  pending_of agent_id event_id payload_json = record {
    agent_id = agent_id;
    event_id = event_id;
    payload_json = payload_json;
  }

  -- Everything behind the rate limiter; the payload comes as its serialisation.
  unfoldable pub publish_and_enqueue :
      String → String → Result v.json.Error v.json.Value → Exec (StateOf v) ErrorOf (Unit {0})
  unfolding envelope
  publish_and_enqueue agent_id event_id serialized = do
    payload ← serialize_payload serialized
    let payload_json = v.json.to_vec (envelope agent_id event_id payload)
    ack ← on_js (v.jet_stream.publish (message_of agent_id payload_json))
    on_js (v.jet_stream.await_ack ack)
    enqueue (pending_of agent_id event_id payload_json)

  module _ {T : Type 0} (to_value : Serializes v T) where
    -- `none`: the rate limiter has not returned within its fuel.
    unfoldable pub save_event :
        ℕ
        → (ℕ → ℕ → ℕ)
        → ℕ
        → String
        → String
        → T
        → StateOf v
        → Option (Result ErrorOf (Unit {0}) × StateOf v)
    unfolding publish_and_enqueue
    save_event fuel now rate_limit agent_id event_id payload s =
        elim (wait fuel rate_limit now s.clock s.rate_limiter) [
          | none ↦ none
          | some (r, m) ↦ some (
              publish_and_enqueue agent_id event_id (to_value payload)
                (record s { rate_limiter = r; clock = m }))
        ]
