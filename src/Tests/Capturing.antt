-- ===== src/Tests/Capturing.antt =====
-- A server with the stream of the repository only.
use skialith.Common.{◌≡◌, refl, true, false, List, [], ◌∷◌, ◌++◌, Result, ok, err, inl, Bool}
use skialith.Common.Text.{has_dot}
use skialith.External.JetStream.{Message, JetStream, Acknowledges}
use skialith.Store.Events.{PendingEvent}
use skialith.Store.SaveEvent.{Services, StateOf, publish_and_enqueue, jet_stream_publish}
use skialith.Store.Streams.{agent_traces_stream, captured, HasOnly}
use skialith.Limits.Limiter.{default}
use skialith.Server.{AppState, checkpoint}
use skialith.Server.Uncaptured.{uncaptured_fails}
use skialith.Tests.Doubles.{text, json, unbounded}
use skialith.Tests.Tables.{agent_traces}
use skialith.Tests.Saving.{body}

abbrev answer : Bool → Message → List Message → Result (Unit {0}) (Unit {0}) × List Message
answer true m js = (ok tt, js ++ m ∷ [])
answer false m js = (err tt, js)

abbrev one_stream : JetStream
one_stream = record {
  Js = List Message;
  AckFuture = Message;
  PublishError = Unit {0};
  publish = λ m js. (ok m, js);
  await_ack = λ m js. answer (captured (agent_traces_stream ∷ []) m.subject) m js;
  stored = λ js. js;
  sent = λ m. m;
}

answer_ok :
    (b : Bool) (m : Message) (js : List Message)
    → (answer b m js).0 ≡ ok tt
    → (answer b m js).1 ≡ js ++ m ∷ []
answer_ok true m js h = refl
answer_ok false m js h = cc

answer_err :
    (b : Bool) (m : Message) (js : List Message) (e : Unit {0})
    → (answer b m js).0 ≡ err e
    → (answer b m js).1 ≡ js
answer_err true m js e h = cc
answer_err false m js e h = refl

one_stream-Acknowledges : Acknowledges one_stream
one_stream-Acknowledges = record {
  stored-publish = λ m js. refl;
  sent-publish = λ m js f h. cc;
  ack_ok = λ f js h. answer_ok (captured (agent_traces_stream ∷ []) f.subject) f js h;
  ack_err = λ f js e h. inl (answer_err (captured (agent_traces_stream ∷ []) f.subject) f js e h);
}

one_stream-HasOnly : HasOnly one_stream (agent_traces_stream ∷ [])
one_stream-HasOnly = record { no_responder = λ f js h. ((tt, rw h refl), rw h refl) }

abbrev services : Services
services = record {
  json = json;
  jet_stream = one_stream;
  queue = unbounded PendingEvent;
  Connect = Unit {0};
  NatsPublish = Unit {0};
  CreateStream = Unit {0};
  Sqlx = Unit {0};
}

abbrev idle : StateOf services
idle = record {
  js = [];
  enqueue_tx = [];
  rate_limiter = default;
  clock = record { readings = 0; slept_ms = 0 };
}

abbrev app : AppState services agent_traces (Unit {0})
app = record { store = idle; tidb = [] }

uncaptured_fails_example :
    let r = checkpoint services agent_traces (Unit {0}) "a" body app in
    let q = publish_and_enqueue services "team.a" "1" (ok (text "p")) idle in
    (r.0 ≡ err (record { status = 500; error = "jetstream publish failed" }))
    × (r.1.store.js ≡ [])
    × ((e : Unit {0}) × (q.0 ≡ err (jet_stream_publish e)))
    × (q.1.js ≡ [])
    × (q.1.enqueue_tx ≡ [])
unfolding has_dot
uncaptured_fails_example =
    uncaptured_fails services one_stream-Acknowledges one_stream-HasOnly agent_traces (Unit {0}) "a"
      body app "team.a" "1" (text "p") idle refl
