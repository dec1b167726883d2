-- ===== src/Server/Recovery.antt =====
-- The way of saved events from the log to the state that their agent resumes from.
pub mod Filed
pub mod LastSaved
pub mod Replayed
use skialith.Common.{
  ℕ, ◌≡◌, refl, ap, ◌∙◌, ◌⊎◌, String, true, false, Option, some, List, [], ◌∷◌, ◌++◌, ok, arith,
  eq_iff,
}
use skialith.Common.Int.{ℤ, as_i32, as_i64, ltb_ℤ}
use skialith.Common.Text.{has_dot}
use skialith.External.Json.{IsJson, Reparses}
use skialith.Trace.{AgentTrace, thought, bind_row, insert}
use skialith.Trace.Table.{TraceRow, TraceTable}
use skialith.Trace.Keyed.{IsKeyed, is_checkpoint, newest, columns}
use skialith.Ingest.{Delivery, Consumer, S, process_message}
use skialith.Ingest.Redelivery.{process_message_db}
use skialith.Ingest.Saved.{trace_of_saved}
use skialith.Resurrection.{state_of_row, resume_agent}
use skialith.Store.SaveEvent.{Services, envelope, subject_of}

module _ {Value : Type 0} where
  -- All checkpoints of the agent have steps below `step`.
  abbrev pub Older : String → ℤ → List (TraceRow Value) → Type 0
  Older agent_id step [] = Unit {0}
  Older agent_id step (x ∷ xs) =
      ((is_checkpoint agent_id x ≡ false) ⊎ (ltb_ℤ x.step_index step ≡ true))
      × Older agent_id step xs

  newest-snoc :
      (agent_id : String) (r : TraceRow Value) (xs : List (TraceRow Value))
      → is_checkpoint agent_id r ≡ true
      → Older agent_id r.step_index xs
      → newest agent_id (xs ++ r ∷ []) ≡ some r
  unfolding newest
  newest-snoc agent_id r [] own h = rw own refl
  newest-snoc agent_id r (x ∷ xs) own (old, h) =
      let rest = newest-snoc agent_id r xs own h in rw rest (ground (arith, old))

module _ (v : Services) (isJson : IsJson v.json) (t : TraceTable v.json.Value)
    (keyed : IsKeyed t) where
  open v use {json.{Value, to_vec}}
  open t use {rows, execute, fetch_optional}

  -- The trace of a saved event that is message `n` of the stream.
  abbrev pub saved_trace : String → String → Value → ℕ → AgentTrace Value
  saved_trace agent_id event_id payload n = record {
    agent_id = agent_id;
    step_index = as_i32 (as_i64 n);
    event_type = thought;
    payload = envelope v agent_id event_id payload;
  }

  abbrev pub delivered : String → String → Value → ℕ → Delivery
  delivered agent_id event_id payload n = record {
    subject = subject_of v agent_id;
    payload = to_vec (envelope v agent_id event_id payload);
    stream_sequence = some n;
  }

  resumed :
      (agent_id : String) (trace : AgentTrace Value) (db : t.Db)
      → trace.agent_id ≡ agent_id
      → trace.event_type ≡ thought
      → (execute (bind_row trace) db).0 ≡ ok tt
      → Older agent_id trace.step_index (rows db)
      → newest agent_id (rows (insert t trace db).1) ≡ some (bind_row trace)
  unfolding insert bind_row is_checkpoint
  resumed agent_id trace db own kind done old =
      let (gain, _) = keyed.execute_ok (bind_row trace) db tt done in
      ap (newest agent_id) gain
      ∙ newest-snoc agent_id (bind_row trace) (rows db)
          (rw (own, kind) (ground (arith, eq_iff agent_id agent_id))) old

  module _ (c : Consumer) (bad_json : List ℕ → v.json.Error) where
    -- A saved event reaches the agent: if the ingester processes its message, whose bytes parse back,
    -- the insert and the query succeed, and no earlier checkpoint of the agent has a step as high as
    -- the message's number in the stream, the agent resumes from that event, with its envelope as the
    -- state. The agent's identifier has no dot.
    pub saved_event_resumed :
        (agent_id event_id : String) (payload : Value) (n : ℕ) (s : S v.json t c bad_json)
        → has_dot agent_id ≡ false
        → Reparses v.json (envelope v agent_id event_id payload)
        → (execute (bind_row (saved_trace agent_id event_id payload n)) s.db).0 ≡ ok tt
        → Older agent_id (as_i32 (as_i64 n)) (rows s.db)
        → ((db : t.Db) → (o : Option (ℤ × Option Value)) × ((fetch_optional agent_id db).0 ≡ ok o))
        → (resume_agent v.json t agent_id
            (process_message v.json t c bad_json (delivered agent_id event_id payload n) s).1.db).0
          ≡ ok (record {
            agent_id = agent_id;
            step_index = as_i32 (as_i64 n);
            state = envelope v agent_id event_id payload;
          })
    unfolding resume_agent state_of_row bind_row
    saved_event_resumed agent_id event_id payload n s plain parses done old answers =
        let trace : AgentTrace Value = saved_trace agent_id event_id payload n in
        let msg : Delivery = delivered agent_id event_id payload n in
        let db' : t.Db = (process_message v.json t c bad_json msg s).1.db in
        let same = trace_of_saved v isJson agent_id event_id payload msg.payload n plain in
        let stored =
          process_message_db v.json t c bad_json msg (envelope v agent_id event_id payload) s parses
          ∙ ap (λ x. (insert t x s.db).1) same in
        let (o, found) = answers db' in
        let last = resumed agent_id trace s.db refl refl done old in
        let picked =
          keyed.fetch_ok agent_id db' o found
          ∙ ap (λ d. columns (newest agent_id (rows d))) stored
          ∙ ap columns last in
        rw (found, picked) refl
