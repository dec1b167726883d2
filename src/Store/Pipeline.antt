-- ===== src/Store/Pipeline.antt =====
-- The callers of `save_event`, the queue, and the batch writer that it feeds, as one.
use skialith.Common.{ℕ, ◌≡◌, sym, ap, ◌∙◌, subst, ◌<◌, some, true, List, [], ◌++◌}
use skialith.External.JetStream.{Acknowledges}
use skialith.Store.Config.{SkialithConfig}
use skialith.Store.Mpsc.{Delivers}
use skialith.Store.Backend.{Backend, IsReliable, WriterOf}
use skialith.Store.SaveEvent.{Services, StateOf}
use skialith.Store.SaveEvent.WriteAhead.{Call, AllLogged}
use skialith.Store.SaveEvent.Interleaved.{System, Reach}
use skialith.Store.SaveEvent.Interleaved.Logged.{Reach-WriteAhead}
use skialith.Store.Writer.{Signal, run_tidb_batch_writer, events_of}
use skialith.Store.Writer.Ledger.{Entry, all_events, Accounts, History}
use skialith.Store.Writer.Conservation.{is_closed, run_drains}

module _ (v : Services) (b : Backend) (acks : Acknowledges v.jet_stream)
    (delivers : Delivers v.queue) (reliable : IsReliable b) where
  open v use {jet_stream.{stored}, queue.{accepted}}

  -- From the calls to the table: if the writer receives what the queue has accepted from any number of
  -- calls, however they interleave, in that order, and the senders are gone in the end, and its flush
  -- interval is above 0, then every
  -- accepted event has gone through exactly one flush, in order, with one of its three outcomes, the
  -- table and the dead-letter channel have gained what the ledger of these flushes says, and each event of every batch, a lost one included, is in the
  -- write-ahead log.
  pub accepted_events_settled :
      (cfg : SkialithConfig) (calls : ℕ → Call v) (store : StateOf v) (s : System v)
      (signals : List Signal) (w : WriterOf b)
      → accepted store.enqueue_tx ≡ []
      → w.batch ≡ []
      → Reach v calls store s
      → events_of signals ≡ accepted s.store.enqueue_tx
      → is_closed signals ≡ true
      → 0 < cfg.max_batch_linger
      → (u : WriterOf b) × (run_tidb_batch_writer b cfg signals w ≡ some u)
        × (es : List Entry) × Accounts b (accepted s.store.enqueue_tx) es w u
        × History b (accepted s.store.enqueue_tx) es w u
        × (all_events es ≡ accepted s.store.enqueue_tx)
        × AllLogged v (stored s.store.js) (all_events es)
  accepted_events_settled cfg calls store s signals w none_queued empty run received closed runs =
      let (u, ran, es, accounts, history, drained, _) =
        run_drains b reliable cfg signals w runs closed in
      let settled = drained ∙ ap (λ l. l ++ events_of signals) empty ∙ received in
      let logged =
        (Reach-WriteAhead v acks delivers
          (subst (AllLogged v (stored store.js)) (sym none_queued) tt) run).0 in
      (
        u,
        ran,
        es,
        subst (λ evs. Accounts b evs es w u) received accounts,
        subst (λ evs. History b evs es w u) received history,
        settled,
        subst (AllLogged v (stored s.store.js)) (sym settled) logged,
      )
