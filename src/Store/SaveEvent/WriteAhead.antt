-- ===== src/Store/SaveEvent/WriteAhead.antt =====
-- The write-ahead log and the queue, over any sequence of calls of `save_event`.
use mathlib.Core.List.{append_assoc}
use skialith.Common.{◌≡◌, sym, ap, ◌∙◌, subst, inl, inr, String, List, [], ◌∷◌, ◌++◌, Result}
use skialith.External.JetStream.{Message, Acknowledges}
use skialith.Store.Events.{PendingEvent}
use skialith.Store.Mpsc.{Delivers}
use skialith.Store.SaveEvent.{Services, StateOf, message_of, publish_and_enqueue}
use skialith.Store.SaveEvent.Branches.{
  Saved, not_serialized, not_logged, not_queued, queued, publish_and_enqueue-Saved,
}

abbrev pub Contains : List Message → Message → Type 0
Contains log m = (before : List Message) × (after : List Message) × (log ≡ before ++ m ∷ after)

pub Contains-snoc :
    (log : List Message) (m x : Message) → Contains log m → Contains (log ++ x ∷ []) m
Contains-snoc log m x (before, after, e) =
    (before, after ++ x ∷ [], ap (λ l. l ++ x ∷ []) e ∙ append_assoc before (m ∷ after) (x ∷ []))

module _ (v : Services) where
  open v use {json.{Value}, jet_stream.{stored}, queue.{accepted}}

  abbrev pub AllLogged : List Message → List PendingEvent → Type 0
  AllLogged log [] = Unit {0}
  AllLogged log (ev ∷ evs) =
      Contains log (message_of v ev.agent_id ev.payload_json) × AllLogged log evs

  -- Every event that the queue has accepted is in the log, byte for byte.
  abbrev pub WriteAhead : StateOf v → Type 0
  WriteAhead s = AllLogged (stored s.js) (accepted s.enqueue_tx)

  -- A call: the agent, the event, and its payload as it is serialised.
  abbrev pub Call : Type 0
  Call = String × String × Result v.json.Error Value

  -- The states after calls that come one after the other, whatever each answers.
  unfoldable pub publish_all : List Call → StateOf v → StateOf v
  publish_all [] s = s
  publish_all ((agent_id, event_id, serialized) ∷ calls) s =
      publish_all calls (publish_and_enqueue v agent_id event_id serialized s).1

  AllLogged-snoc_log :
      (log : List Message) (x : Message) (evs : List PendingEvent)
      → AllLogged log evs
      → AllLogged (log ++ x ∷ []) evs
  AllLogged-snoc_log log x [] h = tt
  AllLogged-snoc_log log x (ev ∷ evs) (here, h) = (
    Contains-snoc log (message_of v ev.agent_id ev.payload_json) x here,
    AllLogged-snoc_log log x evs h,
  )

  pub AllLogged-snoc :
      (log : List Message) (evs : List PendingEvent) (ev : PendingEvent)
      → AllLogged log evs
      → Contains log (message_of v ev.agent_id ev.payload_json)
      → AllLogged log (evs ++ ev ∷ [])
  AllLogged-snoc log [] ev h new = (new, tt)
  AllLogged-snoc log (x ∷ evs) ev h new = (h.0, AllLogged-snoc log evs ev h.1 new)

  pub grown :
      (log log' : List Message) (x : Message) (evs : List PendingEvent)
      → log' ≡ log ++ x ∷ []
      → AllLogged log evs
      → AllLogged log' evs
  grown log log' x evs e h = subst (λ l. AllLogged l evs) (sym e) (AllLogged-snoc_log log x evs h)

  pub WriteAhead-Saved :
      (agent_id event_id : String) (serialized : Result v.json.Error Value) (s s' : StateOf v)
      (r : _)
      → Saved v agent_id event_id serialized s r s'
      → WriteAhead s
      → WriteAhead s'
  WriteAhead-Saved agent_id event_id serialized s s' r (not_serialized e _ _ same) h =
      subst WriteAhead (sym same) h
  WriteAhead-Saved agent_id event_id serialized s s' r (not_logged p e _ _ kept log) h =
      subst (λ q. AllLogged (stored s'.js) (accepted q)) (sym kept)
        (elim log [
          | inl same ↦ subst (λ l. AllLogged l (accepted s.enqueue_tx)) (sym same) h
          | inr took ↦ grown (stored s.js) (stored s'.js) _ (accepted s.enqueue_tx) took h
        ])
  WriteAhead-Saved agent_id event_id serialized s s' r (not_queued p _ _ took kept) h =
      subst (AllLogged (stored s'.js)) (sym kept)
        (grown (stored s.js) (stored s'.js) _ (accepted s.enqueue_tx) took h)
  WriteAhead-Saved agent_id event_id serialized s s' r (queued p _ _ took more) h =
      subst (AllLogged (stored s'.js)) (sym more) (
        AllLogged-snoc (stored s'.js) (accepted s.enqueue_tx) _
          (grown (stored s.js) (stored s'.js) _ (accepted s.enqueue_tx) took h)
          (stored s.js, [], took))

  -- The log comes first: after any sequence of calls, each of which may fail at any point, every event
  -- that the queue of the batch writer has accepted is in the log, with the same bytes and under its
  -- agent's subject, if it was so before.
  pub publish_all-WriteAhead :
      (acks : Acknowledges v.jet_stream) (delivers : Delivers v.queue) (calls : List Call)
      (s : StateOf v)
      → WriteAhead s
      → WriteAhead (publish_all calls s)
  unfolding publish_all
  publish_all-WriteAhead acks delivers [] s h = h
  publish_all-WriteAhead acks delivers ((agent_id, event_id, serialized) ∷ calls) s h =
      let out = publish_and_enqueue v agent_id event_id serialized s in
      publish_all-WriteAhead acks delivers calls out.1 (
        WriteAhead-Saved agent_id event_id serialized s out.1 out.0
          (publish_and_enqueue-Saved v agent_id event_id serialized acks delivers s) h)
