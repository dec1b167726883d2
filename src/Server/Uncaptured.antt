-- ===== src/Server/Uncaptured.antt =====
-- The sidecar on a server that has the stream of the repository only.
use skialith.Common.{
  ◌≡◌, refl, ap, ◌∙◌, inl, inr, not, String, true, false, ◌||◌, [], ◌∷◌, ok, err, Result-cases,
}
use skialith.Common.Text.{has_dot}
use skialith.External.JetStream.{Message, Acknowledges}
use skialith.Trace.Table.{TraceTable}
use skialith.Ingest.Subject.{filter_selects}
use skialith.Store.SaveEvent.{
  Services, StateOf, jet_stream_publish, envelope, message_of, publish_and_enqueue,
}
use skialith.Store.Streams.{agent_traces_stream, captured, HasOnly}
use skialith.Server.{AppState, CheckpointRequest, checkpoint}
use skialith.Server.Checkpoint.{checkpoint_message}

module _ (v : Services) (acks : Acknowledges v.jet_stream)
    (only : HasOnly v.jet_stream (agent_traces_stream ∷ [])) where
  open v use {json.{Value, to_vec}, jet_stream.{AckFuture, stored, publish, await_ack, sent}}

  unanswered :
      (m : Message) (f : AckFuture) (js : v.jet_stream.Js)
      → captured (agent_traces_stream ∷ []) m.subject ≡ false
      → (publish m js).0 ≡ ok f
      → ((e : v.jet_stream.PublishError) × ((await_ack f (publish m js).1).0 ≡ err e))
        × (stored (await_ack f (publish m js).1).1 ≡ stored js)
  unanswered m f js h e =
      let (failed, same) = only.no_responder f (publish m js).1 (
        ap (λ x. captured (agent_traces_stream ∷ []) x.subject) (acks.sent-publish m js f e) ∙ h) in
      (failed, same ∙ acks.stored-publish m js)

  module _ (t : TraceTable Value) (Nats : Type 0) where
    checkpoint_fails :
        (agent_id : String) (body : CheckpointRequest Value) (app : AppState v t Nats)
        → let r = checkpoint v t Nats agent_id body app in
          (r.0 ≡ err (record { status = 500; error = "jetstream publish failed" }))
          × (stored r.1.store.js ≡ stored app.store.js)
    unfolding checkpoint
    checkpoint_fails agent_id body app =
        let m : Message = checkpoint_message v t Nats agent_id body in
        elim (Result-cases (publish m app.store.js).0) [
          | inr (e, h) ↦ rw h (refl, acks.stored-publish m app.store.js)
          | inl (f, h) ↦
              let ((e, k), same) =
                unanswered m f app.store.js
                  (ap (λ b. (b || false) || false) (filter_selects agent_id).1) h in
              rw h (rw k (refl, same))
        ]

  event_fails :
      (agent_id event_id : String) (payload : Value) (s : StateOf v)
      → has_dot agent_id ≡ true
      → let r = publish_and_enqueue v agent_id event_id (ok payload) s in
        ((e : v.jet_stream.PublishError) × (r.0 ≡ err (jet_stream_publish e)))
        × (stored r.1.js ≡ stored s.js)
        × (r.1.enqueue_tx ≡ s.enqueue_tx)
  unfolding publish_and_enqueue
  event_fails agent_id event_id payload s dot =
      let m : Message = message_of v agent_id (to_vec (envelope v agent_id event_id payload)) in
      elim (Result-cases (publish m s.js).0) [
        | inr (e, h) ↦ rw h ((e, refl), acks.stored-publish m s.js, refl)
        | inl (f, h) ↦
            let ((e, k), same) =
              unanswered m f s.js
                (ap (λ b. (b || false) || false) ((filter_selects agent_id).0 ∙ ap not dot)) h in
            rw h (rw k ((e, refl), same, refl))
      ]

  -- On a server that has no stream but the one that the repository creates, every checkpoint request is
  -- answered with 500 and leaves nothing in the log; and so does every call of `save_event` for an agent
  -- with a dot in its identifier fail, with nothing in the log or the queue.
  pub uncaptured_fails :
      (t : TraceTable Value) (Nats : Type 0) (agent_id : String) (body : CheckpointRequest Value)
      (app : AppState v t Nats) (dotted event_id : String) (payload : Value) (s : StateOf v)
      → has_dot dotted ≡ true
      → let r = checkpoint v t Nats agent_id body app in
        let q = publish_and_enqueue v dotted event_id (ok payload) s in
        (r.0 ≡ err (record { status = 500; error = "jetstream publish failed" }))
        × (stored r.1.store.js ≡ stored app.store.js)
        × ((e : v.jet_stream.PublishError) × (q.0 ≡ err (jet_stream_publish e)))
        × (stored q.1.js ≡ stored s.js)
        × (q.1.enqueue_tx ≡ s.enqueue_tx)
  uncaptured_fails t Nats agent_id body app dotted event_id payload s dot =
      let (answered, log) = checkpoint_fails t Nats agent_id body app in
      let (failed, kept, queue) = event_fails dotted event_id payload s dot in
      (answered, log, failed, kept, queue)
