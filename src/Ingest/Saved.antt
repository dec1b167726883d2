-- ===== src/Ingest/Saved.antt =====
-- What the ingester makes of a message that `save_event` has published.
use skialith.Common.{ℕ, ◌≡◌, String, false, some, List, [], ◌∷◌}
use skialith.Common.Int.{as_i32, as_i64}
use skialith.Common.Text.{has_dot}
use skialith.External.Json.{IsJson, field}
use skialith.Trace.{thought}
use skialith.Ingest.{event_type_of, trace_of}
use skialith.Ingest.Steps.{fallback}
use skialith.Ingest.Subject.{agent_of_iff}
use skialith.Store.SaveEvent.{Services, envelope, subject_of}

module _ (v : Services) (isJson : IsJson v.json) where
  open v use {json.{Value, get}}

  envelope_fields :
      (agent_id event_id : String) (payload : Value) (k : String)
      → get (envelope v agent_id event_id payload) k
        ≡ field k (
            ("agent_id", v.json.string agent_id)
            ∷ ("event_id", v.json.string event_id)
            ∷ ("payload", payload)
            ∷ [])
  unfolding envelope
  envelope_fields agent_id event_id payload k = isJson.get-object _ k

  thought_of_envelope :
      (agent_id event_id : String) (payload : Value)
      → event_type_of v.json (envelope v agent_id event_id payload) ≡ thought
  unfolding event_type_of
  thought_of_envelope agent_id event_id payload =
      rw (envelope_fields agent_id event_id payload "event_type")

  -- The envelope hides the payload: whatever step or event type the payload gives, the event
  -- of an agent without a dot in its identifier is filed as a thought under its sequence
  -- number in the stream, cast to i32, with the whole envelope as its payload.
  pub trace_of_saved :
      (agent_id event_id : String) (payload : Value) (bytes : List ℕ) (n : ℕ)
      → has_dot agent_id ≡ false
      → trace_of v.json
          (record { subject = subject_of v agent_id; payload = bytes; stream_sequence = some n })
          (envelope v agent_id event_id payload)
        ≡ record {
          agent_id = agent_id;
          step_index = as_i32 (as_i64 n);
          event_type = thought;
          payload = envelope v agent_id event_id payload;
        }
  unfolding trace_of
  trace_of_saved agent_id event_id payload bytes n plain = λ i. record {
    agent_id = (agent_of_iff agent_id).1 plain i;
    step_index = fallback v.json _ n (envelope_fields agent_id event_id payload "step_index") i;
    event_type = thought_of_envelope agent_id event_id payload i;
    payload = envelope v agent_id event_id payload;
  }
