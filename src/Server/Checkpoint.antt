-- ===== src/Server/Checkpoint.antt =====
-- What the checkpoint handler answers, and what becomes of a checkpoint.
use mathlib.Core.Path.{ap₂}
use skialith.Common.{
  ℕ, ◌≡◌, refl, ◌∙◌, ◌⊎◌, inl, inr, String, false, [], ◌∷◌, ◌++◌, Result, ok, err, Result-cases,
}
use skialith.Common.Text.{split_dot}
use skialith.External.JetStream.{Message, Acknowledges, subject_matches}
use skialith.Trace.Table.{TraceTable}
use skialith.Ingest.{filter_subject}
use skialith.Ingest.Subject.{filter_selects}
use skialith.Manager.{checkpoint_subject, checkpoint_headers}
use skialith.Store.SaveEvent.{Services}
use skialith.Server.{
  AppState, ApiError, CheckpointRequest, checkpoint_payload, checkpoint, get_state,
}

module _ (v : Services) (t : TraceTable v.json.Value) (Nats : Type 0) where
  open v use {json.{Value, to_vec}, jet_stream.{stored, publish, await_ack}}

  abbrev pub checkpoint_message : String → CheckpointRequest Value → Message
  checkpoint_message agent_id body = record {
    subject = checkpoint_subject agent_id;
    headers = checkpoint_headers agent_id;
    payload = to_vec (checkpoint_payload v t Nats body);
  }

  abbrev pub Logged :
      String → CheckpointRequest Value → AppState v t Nats → AppState v t Nats → Type 0
  Logged agent_id body app app' =
      stored app'.store.js ≡ stored app.store.js ++ checkpoint_message agent_id body ∷ []

  -- The answers: 204 with the checkpoint in the log, or 500, where the log has the checkpoint or not.
  pub data Answered (agent_id : String) (body : CheckpointRequest Value)
      (app app' : AppState v t Nats) : Result ApiError ℕ → Type 0 where
    logged : Logged agent_id body app app' → Answered agent_id body app app' (ok 204)
    not_logged :
        (stored app'.store.js ≡ stored app.store.js) ⊎ Logged agent_id body app app'
        → Answered agent_id body app app'
            (err (record { status = 500; error = "jetstream publish failed" }))

  module _ (acks : Acknowledges v.jet_stream) where
    -- Every checkpoint request is answered with 204, and then the log has the checkpoint,
    -- or with 500 and the failed publish, and then the log has it or is as it was; the
    -- queue of events, the rate limiter and the database are left alone.
    pub checkpoint-Answered :
        (agent_id : String) (body : CheckpointRequest Value) (app : AppState v t Nats)
        → let r = checkpoint v t Nats agent_id body app in
          Answered agent_id body app r.1 r.0
          × (r.1.tidb ≡ app.tidb)
          × (r.1.store.enqueue_tx ≡ app.store.enqueue_tx)
          × (r.1.store.rate_limiter ≡ app.store.rate_limiter)
    unfolding checkpoint
    checkpoint-Answered agent_id body app =
        let m : Message = checkpoint_message agent_id body in
        let js1 = (publish m app.store.js).1 in
        (
          elim (Result-cases (publish m app.store.js).0) [
            | inr (e, e1) ↦ rw e1 (not_logged (inl (acks.stored-publish m app.store.js)))
            | inl (f, e1) ↦
                let here =
                  ap₂ (λ l x. l ++ x ∷ []) (acks.stored-publish m app.store.js)
                    (acks.sent-publish m app.store.js f e1) in
                rw e1 (elim (Result-cases (await_ack f js1).0) [
                  | inl (u, e2) ↦ rw e2 (logged (acks.ack_ok f js1 e2 ∙ here))
                  | inr (e, e2) ↦ rw e2 (
                      not_logged (elim (acks.ack_err f js1 e e2) [
                        | inl same ↦ inl (same ∙ acks.stored-publish m app.store.js)
                        | inr took ↦ inr (took ∙ here)
                      ]))
                ])
          ],
          refl,
          refl,
          refl,
        )

  -- A checkpoint is never what an agent resumes from: the ingester's filter passes over the subject
  -- that it is published to, and the state handler answers as it did before the checkpoint.
  pub checkpoint_not_resumed :
      (agent_id : String) (body : CheckpointRequest Value) (app : AppState v t Nats)
      → (subject_matches
            (split_dot filter_subject)
            (split_dot (checkpoint_message agent_id body).subject)
          ≡ false)
        × ((get_state v t Nats agent_id (checkpoint v t Nats agent_id body app).1).0
            ≡ (get_state v t Nats agent_id app).0)
  unfolding checkpoint get_state
  checkpoint_not_resumed agent_id body app = ((filter_selects agent_id).1, refl)
