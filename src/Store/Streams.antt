-- ===== src/Store/Streams.antt =====
-- `ensure_stream`, and the one stream that the repository creates.
use skialith.Common.{◌≡◌, String, Bool, false, ◌||◌, List, [], ◌∷◌, Result, err, map_err}
use skialith.Common.Text.{split_dot}
use skialith.External.JetStream.{JetStream, subject_matches}
use skialith.Store.SaveEvent.{Services, ErrorOf, jet_stream}

-- `stream::Config`, as far as it is not the default.
pub record StreamConfig : Type 0 where
  pub name : String
  pub subjects : List String

unfoldable pub ensure_stream :
    (v : Services) {W : Type 0}
    → (StreamConfig → W → Result v.CreateStream (Unit {0}) × W)
    → String
    → List String
    → W
    → Result (ErrorOf v) (Unit {0}) × W
ensure_stream v get_or_create_stream stream_name subjects w =
    let created = get_or_create_stream (record { name = stream_name; subjects = subjects }) w in
    (map_err jet_stream created.0, created.1)

-- The stream that the benchmark creates; nothing else in the repository creates one.
abbrev pub agent_traces_stream : StreamConfig
agent_traces_stream = record { name = "agent-traces"; subjects = "agent.trace.*" ∷ [] }

abbrev pub any_matches : List String → String → Bool
any_matches [] subject = false
any_matches (f ∷ fs) subject =
    subject_matches (split_dot f) (split_dot subject) || any_matches fs subject

abbrev pub captured : List StreamConfig → String → Bool
captured [] subject = false
captured (c ∷ cs) subject = any_matches c.subjects subject || captured cs subject

-- A server with these streams has no responder for a message on a subject that none of them captures: its
-- acknowledgement fails, and it is not stored.
pub record HasOnly (j : JetStream) (streams : List StreamConfig) : Type 0 where
  pub no_responder :
      (f : j.AckFuture) (js : j.Js)
      → captured streams (j.sent f).subject ≡ false
      → ((e : j.PublishError) × ((j.await_ack f js).0 ≡ err e))
        × (j.stored (j.await_ack f js).1 ≡ j.stored js)
