-- ===== src/Server/Concurrent/Moved.antt =====
-- What one move of a request does to the sidecar.
use skialith.Common.{
  ℕ, max, ◌≤◌, ◌≡◌, ◌⊎◌, refl, ◌∙◌, ap, inl, inr, List, [], ◌∷◌, ◌++◌, Result, ok, err,
  Result-cases,
}
use skialith.External.JetStream.{Message, Acknowledges}
use skialith.Trace.Table.{TraceRow, TraceTable}
use skialith.Trace.Keyed.{IsKeyed}
use skialith.Limits.Interleaved.{Move-count, Move-SeenFree}
use skialith.Store.Mpsc.{Delivers}
use skialith.Store.SaveEvent.{Services, StateOf, ErrorOf}
use skialith.Store.SaveEvent.WriteAhead.{WriteAhead, grown}
use skialith.Store.SaveEvent.Interleaved.{with_js, returned}
use skialith.Store.SaveEvent.Interleaved.Logged.{Knows, Grows, Move-Moved as store_moved}
use skialith.Manager
use skialith.Resurrection.{resume_agent}
use skialith.Server.{CheckpointRequest, health, get_state, display_store, display_manager}
use skialith.Server.Checkpoint.{checkpoint_message}
use skialith.Server.Requests.{event_request, checkpoint_request, App}
use skialith.Server.Requests.Served.{state_answer}
use skialith.Server.Concurrent.{
  Task, answered, saved, checkpointed, with_log, Move, answers_health, not_routed, waits,
  not_limited, in_limiter, admitted, in_store, responds, not_published, published, acknowledged,
  resumed, time_passes, leaves_event, leaves_checkpoint, lands, goes_away,
}
use skialith.Server.Concurrent.Promises.{TaskKnows, TaskKnows-Grows}
use skialith.Server.Concurrent.Kept.{Move-limiter}

module _ (v : Services) (t : TraceTable v.json.Value) (Nats : Type 0) where
  open v use {json.{Value}, jet_stream.{stored, sent}}
  open t use {rows}

  module _ (limit : ℕ) (db_rows : List (TraceRow Value)) where
    -- The shared state: the limiter's count, the queue in the log, and the table as it was.
    pub record Holds (app : App v t Nats) : Type 0 where
      pub counted : app.store.rate_limiter.count ≤ max 1 limit
      pub write_ahead : WriteAhead v app.store
      pub same_rows : rows app.tidb ≡ db_rows

    -- What one move does, in a task that knows what it should.
    pub record Moved (app app' : App v t Nats) (p' : Task v t Nats) : Type 0 where
      pub grows : Grows v app.store app'.store
      pub knows : TaskKnows v t Nats limit db_rows app'.store p'
      pub holds : Holds app'

    unchanged :
        (app : App v t Nats) (p' : Task v t Nats)
        → Holds app
        → TaskKnows v t Nats limit db_rows app.store p'
        → Moved app app p'
    unchanged app p' h k = record {
      grows = record { log = inl refl; enqueued = inl refl };
      knows = k;
      holds = h;
    }

    -- The log has stayed, or has one message more.
    abbrev LogGrows : StateOf v → v.jet_stream.Js → Type 0
    LogGrows s js =
        (stored js ≡ stored s.js) ⊎ ((m : Message) × (stored js ≡ stored s.js ++ m ∷ []))

    with_log-Moved :
        (app : App v t Nats) (js : v.jet_stream.Js) (p' : Task v t Nats)
        → Holds app
        → LogGrows app.store js
        → TaskKnows v t Nats limit db_rows (with_js v app.store js) p'
        → Moved app (with_log v t Nats app js) p'
    with_log-Moved app js p' h log k = record {
      grows = record { log = log; enqueued = inl refl };
      knows = k;
      holds = record {
        counted = h.counted;
        write_ahead = elim log [
          | inl same ↦ rw same h.write_ahead
          | inr (m, more) ↦ grown v (stored app.store.js) (stored js) m _ more h.write_ahead
        ];
        same_rows = h.same_rows;
      };
    }

    module _ (acks : Acknowledges v.jet_stream) (delivers : Delivers v.queue)
        (keyed : IsKeyed t) where
      await_ack-LogGrows : (s : StateOf v) (f : _) → LogGrows s (v.jet_stream.await_ack f s.js).1
      await_ack-LogGrows s f = elim (Result-cases (v.jet_stream.await_ack f s.js).0) [
        | inl (u, e) ↦ inr (_, acks.ack_ok f s.js e)
        | inr (x, e) ↦ elim (acks.ack_err f s.js x e) [
          | inl same ↦ inl same
          | inr took ↦ inr (_, took)
        ]
      ]

      Moved-acknowledged :
          (app : App v t Nats) (a : _) (b : CheckpointRequest Value) (f : _)
          → Holds app
          → sent f ≡ checkpoint_message v t Nats a b
          → let out = v.jet_stream.await_ack f app.store.js in
            Moved app
              (with_log v t Nats app out.1)
              (answered (checkpoint_request a b) (checkpointed v t Nats out.0))
      Moved-acknowledged app a b f h k =
          let out = v.jet_stream.await_ack f app.store.js in
          elim (Result-cases out.0) [
            | inl (u, e) ↦
                let took =
                  acks.ack_ok f app.store.js e ∙ ap (λ m. stored app.store.js ++ m ∷ []) k in
                rw e (
                  with_log-Moved app out.1 _ h (inr (_, took))
                    (inl refl, (stored app.store.js, [], took)))
            | inr (x, e) ↦ rw e (
                with_log-Moved app out.1 _ h
                  (elim (acks.ack_err f app.store.js x e) [
                    | inl same ↦ inl same
                    | inr took ↦ inr (_, took)
                  ])
                  (inr (display_manager (Manager.publish x), refl), tt))
          ]

      saved-Answers :
          (s : StateOf v) (a e : _) (x : Value) (r : Result (ErrorOf v) (Unit {0}))
          → Knows v s (returned (a, e, ok x) r)
          → TaskKnows v t Nats limit db_rows s
              (answered (event_request a (record { event_id = e; payload = x })) (saved v t Nats r))
      saved-Answers s a e x (ok u) k = (inl refl, k)
      saved-Answers s a e x (err y) k = (inr (display_store y, refl), tt)

      pub Moved-Move :
          {app app' : App v t Nats} {p p' : Task v t Nats}
          → Move v t Nats limit app p app' p'
          → Holds app
          → TaskKnows v t Nats limit db_rows app.store p
          → Moved app app' p'
      unfolding health get_state resume_agent
      Moved-Move {app} answers_health h k = unchanged app _ h (refl, tt)
      Moved-Move {app} not_routed h k = unchanged app _ h (refl, tt)
      Moved-Move {app} (waits a b) h k = unchanged app _ h tt
      Moved-Move {app} (not_limited a b e) h k = unchanged app _ h tt
      Moved-Move {app} (in_limiter a b mv) h k = record {
        grows = record { log = inl refl; enqueued = inl refl };
        knows = Move-SeenFree mv;
        holds = record {
          counted = Move-count mv k h.counted;
          write_ahead = h.write_ahead;
          same_rows = h.same_rows;
        };
      }
      Moved-Move {app} (admitted a b s) h k = unchanged app _ h tt
      Moved-Move {app} (in_store mv) h k =
          let moved = store_moved v acks delivers mv k in
          record {
            grows = moved.grows;
            knows = moved.knows;
            holds = record {
              counted = rw (Move-limiter v t Nats mv) h.counted;
              write_ahead = moved.write_ahead h.write_ahead;
              same_rows = h.same_rows;
            };
          }
      Moved-Move {app} (responds a e x r) h k =
          unchanged app _ h (saved-Answers app.store a e x r k)
      Moved-Move {app} (not_published a b x e) h k =
          with_log-Moved app _ _ h (inl (acks.stored-publish _ app.store.js))
            (inr (display_manager (Manager.publish x), refl), tt)
      Moved-Move {app} (published a b f e) h k =
          with_log-Moved app _ _ h (inl (acks.stored-publish _ app.store.js))
            (acks.sent-publish _ app.store.js f e)
      Moved-Move {app} (acknowledged a b f) h k = Moved-acknowledged app a b f h k
      Moved-Move {app} (resumed a) h k = record {
        grows = record { log = inl refl; enqueued = inl refl };
        knows = (state_answer v t Nats keyed db_rows a app h.same_rows, tt);
        holds = record {
          counted = h.counted;
          write_ahead = h.write_ahead;
          same_rows = keyed.rows-fetch a app.tidb ∙ h.same_rows;
        };
      }
      Moved-Move {app} (time_passes p m) h k = record {
        grows = record { log = inl refl; enqueued = inl refl };
        knows =
            TaskKnows-Grows v t Nats limit db_rows {s = app.store}
              {s' = record app.store { clock = m }} p
              (record { log = inl refl; enqueued = inl refl }) k;
        holds = record {
          counted = h.counted;
          write_ahead = h.write_ahead;
          same_rows = h.same_rows;
        };
      }
      Moved-Move {app} (leaves_event a e x f) h k = unchanged app _ h tt
      Moved-Move {app} (leaves_checkpoint a b f) h k = unchanged app _ h tt
      Moved-Move {app} (lands q f) h k =
          with_log-Moved app _ _ h (await_ack-LogGrows app.store f) tt
      Moved-Move {app} (goes_away p e) h k = unchanged app _ h tt
