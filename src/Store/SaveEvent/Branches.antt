-- ===== src/Store/SaveEvent/Branches.antt =====
-- The branches of `save_event` behind the rate limiter.
use mathlib.Core.Path.{ap₂}
use skialith.Common.{
  ℕ, ◌≡◌, refl, ◌∙◌, ◌⊎◌, inl, inr, String, List, [], ◌∷◌, ◌++◌, Result, ok, err, Result-cases,
  Bool-cases,
}
use skialith.External.JetStream.{Message, Acknowledges}
use skialith.Store.Events.{PendingEvent}
use skialith.Store.Mpsc.{Delivers}
use skialith.Store.SaveEvent.{
  Services, StateOf, ErrorOf, serialize, jet_stream_publish, queue_closed, envelope, message_of,
  pending_of, publish_and_enqueue,
}

module _ (v : Services) where
  open v use {json.{Value, to_vec}, jet_stream.{stored}, queue.{accepted}}

  module _ (agent_id event_id : String) (serialized : Result v.json.Error Value) where
    abbrev pub bytes : Value → List ℕ
    bytes payload = to_vec (envelope v agent_id event_id payload)

    abbrev pub Logged : Value → StateOf v → StateOf v → Type 0
    Logged payload s s' = stored s'.js ≡ stored s.js ++ message_of v agent_id (bytes payload) ∷ []

    -- The ways in which a call can end that answers `r` and leaves `s'`.
    pub data Saved (s : StateOf v) (r : Result (ErrorOf v) (Unit {0})) (s' : StateOf v)
        : Type 0 where
      not_serialized :
          (e : v.json.Error) → serialized ≡ err e → r ≡ err (serialize e) → s' ≡ s → Saved s r s'
      not_logged :
          (payload : Value) (e : v.jet_stream.PublishError)
          → serialized ≡ ok payload
          → r ≡ err (jet_stream_publish e)
          → s'.enqueue_tx ≡ s.enqueue_tx
          → (stored s'.js ≡ stored s.js) ⊎ Logged payload s s'
          → Saved s r s'
      not_queued :
          (payload : Value)
          → serialized ≡ ok payload
          → r ≡ err queue_closed
          → Logged payload s s'
          → accepted s'.enqueue_tx ≡ accepted s.enqueue_tx
          → Saved s r s'
      queued :
          (payload : Value)
          → serialized ≡ ok payload
          → r ≡ ok tt
          → Logged payload s s'
          → accepted s'.enqueue_tx
            ≡ accepted s.enqueue_tx ++ pending_of v agent_id event_id (bytes payload) ∷ []
          → Saved s r s'

    module _ (acks : Acknowledges v.jet_stream) (delivers : Delivers v.queue) where
      open v.jet_stream use {publish, await_ack}

      Saved-payload :
          (payload : Value)
          → serialized ≡ ok payload
          → (s : StateOf v)
          → Saved s
              (publish_and_enqueue v agent_id event_id (ok payload) s).0
              (publish_and_enqueue v agent_id event_id (ok payload) s).1
      unfolding publish_and_enqueue
      Saved-payload payload e1 s =
          let m : Message = message_of v agent_id (bytes payload) in
          let js1 = (publish m s.js).1 in
          elim (Result-cases (publish m s.js).0) [
            | inr (e, e2) ↦
                rw e2 (not_logged payload e e1 refl refl (inl (acks.stored-publish m s.js)))
            | inl (f, e2) ↦
                let here =
                  ap₂ (λ l x. l ++ x ∷ []) (acks.stored-publish m s.js)
                    (acks.sent-publish m s.js f e2) in
                rw e2 (elim (Result-cases (await_ack f js1).0) [
                  | inr (e, e3) ↦ rw e3 (
                      not_logged payload e e1 refl refl (elim (acks.ack_err f js1 e e3) [
                        | inl same ↦ inl (same ∙ acks.stored-publish m s.js)
                        | inr took ↦ inr (took ∙ here)
                      ]))
                  | inl (u, e3) ↦
                      let ev : PendingEvent = pending_of v agent_id event_id (bytes payload) in
                      rw e3 (elim (Bool-cases (v.queue.send ev s.enqueue_tx).0) [
                        | inl taken ↦ rw taken (
                            queued payload e1 refl (acks.ack_ok f js1 e3 ∙ here)
                              (delivers.send_ok ev s.enqueue_tx taken))
                        | inr closed ↦ rw closed (
                            not_queued payload e1 refl (acks.ack_ok f js1 e3 ∙ here)
                              (delivers.send_closed ev s.enqueue_tx closed))
                      ])
                ])
          ]

      saved :
          (r : Result v.json.Error Value)
          → serialized ≡ r
          → (s : StateOf v)
          → Saved s
              (publish_and_enqueue v agent_id event_id r s).0
              (publish_and_enqueue v agent_id event_id r s).1
      unfolding publish_and_enqueue
      saved (err e) h s = not_serialized e h refl refl
      saved (ok payload) h s = Saved-payload payload h s

      -- Every call of `save_event` that has its slot ends in one of four ways: a payload
      -- that cannot be serialised changes nothing; a failed publish or acknowledgement
      -- leaves the queue alone; a closed queue is reported although the log has the
      -- event; and success means that the log and the queue have it.
      pub publish_and_enqueue-Saved :
          (s : StateOf v)
          → Saved s
              (publish_and_enqueue v agent_id event_id serialized s).0
              (publish_and_enqueue v agent_id event_id serialized s).1
      publish_and_enqueue-Saved s = saved serialized refl s
