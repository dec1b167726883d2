-- ===== src/Server/Events.antt =====
-- What the events handler answers.
use skialith.Common.{
  ℕ, ◌/◌, ◌≤◌, ◌≡◌, refl, sym, ap, ◌∙◌, subst, ◌⊎◌, inl, inr, String, some, [], ◌∷◌, ◌++◌, Result,
  ok, err, ok-inj,
}
use skialith.External.JetStream.{Message, Acknowledges}
use skialith.Limits.Limiter.{look}
use skialith.Limits.Sleep.{IsSteady}
use skialith.Store.Events.{PendingEvent}
use skialith.Store.Mpsc.{Delivers}
use skialith.Store.SaveEvent.{Services, StateOf, ErrorOf, envelope, message_of, pending_of}
use skialith.Store.SaveEvent.Branches.{Saved, not_serialized, not_logged, not_queued, queued}
use skialith.Store.SaveEvent.Returns.{save_event_returns}
use skialith.Trace.Table.{TraceTable}
use skialith.Server.{
  AppState, ApiError, SaveEventRequest, answer, display_store, internal, no_content, to_value,
  save_event_handler,
}

module _ (v : Services) (t : TraceTable v.json.Value) (Nats : Type 0) where
  open v use {json.{Value, to_vec}, jet_stream.{stored}, queue.{accepted}}

  abbrev pub event_message : String → SaveEventRequest Value → Message
  event_message agent_id body =
      message_of v agent_id (to_vec (envelope v agent_id body.event_id body.payload))

  abbrev pub queued_event : String → SaveEventRequest Value → PendingEvent
  queued_event agent_id body =
      pending_of v agent_id body.event_id (to_vec (envelope v agent_id body.event_id body.payload))

  abbrev pub Logged : String → SaveEventRequest Value → StateOf v → StateOf v → Type 0
  Logged agent_id body s s' = stored s'.js ≡ stored s.js ++ event_message agent_id body ∷ []

  abbrev pub Queued : String → SaveEventRequest Value → StateOf v → StateOf v → Type 0
  Queued agent_id body s s' =
      accepted s'.enqueue_tx ≡ accepted s.enqueue_tx ++ queued_event agent_id body ∷ []

  abbrev pub failure : String → ApiError
  failure text = record { status = 500; error = text }

  -- The three answers of the handler.
  pub data Handled (agent_id : String) (body : SaveEventRequest Value) (s s' : StateOf v)
      : Result ApiError ℕ → Type 0 where
    saved :
        Logged agent_id body s s' → Queued agent_id body s s' → Handled agent_id body s s' (ok 204)
    closed :
        Logged agent_id body s s'
        → accepted s'.enqueue_tx ≡ accepted s.enqueue_tx
        → Handled agent_id body s s' (err (failure "event queue is closed"))
    unlogged :
        (stored s'.js ≡ stored s.js) ⊎ Logged agent_id body s s'
        → s'.enqueue_tx ≡ s.enqueue_tx
        → Handled agent_id body s s' (err (failure "jetstream publish failed"))

  abbrev answered : Result (ErrorOf v) (Unit {0}) → Result ApiError ℕ
  answered r = answer v t Nats display_store no_content r

  handled :
      (agent_id : String) (body : SaveEventRequest Value) (s s' : StateOf v)
      (r : Result (ErrorOf v) (Unit {0}))
      → Saved v agent_id body.event_id (ok body.payload) s r s'
      → Handled agent_id body s s' (answered r)
  unfolding display_store internal
  handled agent_id body s s' r (not_serialized e h _ _) = cc
  handled agent_id body s s' r (not_logged p e h er kept log) = rw er (
      unlogged
        (elim log [
          | inl same ↦ inl same
          | inr took ↦ inr (
              subst (λ q. Logged agent_id (record body { payload = q }) s s') (sym (ok-inj h)) took)
        ])
        kept)
  handled agent_id body s s' r (not_queued p h er log kept) = rw er (
      closed (subst (λ q. Logged agent_id (record body { payload = q }) s s') (sym (ok-inj h)) log)
        kept)
  handled agent_id body s s' r (queued p h er log queue) = rw er (
      saved (subst (λ q. Logged agent_id (record body { payload = q }) s s') (sym (ok-inj h)) log)
        (subst (λ q. Queued agent_id (record body { payload = q }) s s') (sym (ok-inj h)) queue))

  Handled-subst :
      (agent_id : String) (body : SaveEventRequest Value) (s slot s' : StateOf v)
      (r : Result ApiError ℕ)
      → slot.js ≡ s.js
      → slot.enqueue_tx ≡ s.enqueue_tx
      → Handled agent_id body slot s' r
      → Handled agent_id body s s' r
  Handled-subst agent_id body s slot s' r e f (saved l q) =
      saved (l ∙ ap (λ js. stored js ++ event_message agent_id body ∷ []) e)
        (q ∙ ap (λ c. accepted c ++ queued_event agent_id body ∷ []) f)
  Handled-subst agent_id body s slot s' r e f (closed l q) =
      closed (l ∙ ap (λ js. stored js ++ event_message agent_id body ∷ []) e) (q ∙ ap accepted f)
  Handled-subst agent_id body s slot s' r e f (unlogged l q) =
      unlogged
        (elim l [
          | inl same ↦ inl (same ∙ ap stored e)
          | inr took ↦ inr (took ∙ ap (λ js. stored js ++ event_message agent_id body ∷ []) e)
        ])
        (q ∙ f)

  -- On a clock that is not set back, and with a window that does not lie in the future, the
  -- handler answers a lone request: with 204 when the log and the queue of the batch writer
  -- have the event; with 500 and the closed queue although the log has the event; or with 500
  -- and the failed publish, the queue untouched. The database is left alone.
  pub save_event_handler-Handled :
      (acks : Acknowledges v.jet_stream) (delivers : Delivers v.queue) (now : ℕ → ℕ → ℕ)
      (rate_limit : ℕ) (agent_id : String) (body : SaveEventRequest Value) (app : AppState v t Nats)
      → IsSteady now
      → app.store.rate_limiter.window_start ≤ look now app.store.clock / 1000
      → (r : Result ApiError ℕ) × (app' : AppState v t Nats) × (save_event_handler v t Nats 2 now
            rate_limit agent_id body app
          ≡ some (r, app'))
        × Handled agent_id body app.store app'.store r
        × (app'.tidb ≡ app.tidb)
  unfolding save_event_handler
  save_event_handler-Handled acks delivers now rate_limit agent_id body app steady h =
      let (r, s', slot, e, js, queue, ended, _) =
        save_event_returns v acks delivers (to_value v t Nats) now rate_limit agent_id body.event_id
          body.payload app.store steady h in
      (
        answered r,
        record app { store = s' },
        rw e refl,
        Handled-subst agent_id body app.store slot s' (answered r) js queue
            (handled agent_id body slot s' r ended),
        refl,
      )
