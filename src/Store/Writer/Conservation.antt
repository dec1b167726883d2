-- ===== src/Store/Writer/Conservation.antt =====
-- What the writer promises about the events that it receives.
use skialith.Common.{
  ◌≡◌, ◌≢◌, ◌<◌, some-inj, refl, sym, ◌∙◌, ap, Bool, true, false, some, List, [], ◌∷◌, ◌++◌, inl,
  inr,
}
use mathlib.Core.Bool.{false≢true}
use mathlib.Core.List.{append-nil}
use skialith.Store.Config.{SkialithConfig}
use skialith.Store.Events.{PendingEvent}
use skialith.Store.Backend.{Backend, IsReliable, WriterOf}
use skialith.Store.Retry.Outcome.{Outcome, stored, dead_lettered, lost}
use skialith.Store.Retry.Loop.{flush_batch_with_retry_lem}
use skialith.Store.Writer.{
  Signal, received, closed, ticked, flush_unless_empty, on_event, select_loop, events_of,
  run_tidb_batch_writer, select_loop_runs,
}
use skialith.Store.Writer.Ledger.{to_nowhere, Entry, all_events, Accounts, fate_of, History}
use skialith.Store.Writer.Accounting.{AllFates, Settles, Settles-run}

-- The senders are gone at some point of the run.
unfoldable pub is_closed : List Signal → Bool
is_closed [] = false
is_closed (received ev ∷ signals) = is_closed signals
is_closed (closed ∷ signals) = true
is_closed (ticked ∷ signals) = is_closed signals

module _ (b : Backend) (reliable : IsReliable b) (cfg : SkialithConfig) where
  open b use {dead_letters.{Chan, send}}

  select_loop-Accounts :
      (signals : List Signal) (w : WriterOf b)
      → (es : List Entry) × Accounts b (events_of signals) es w (select_loop b cfg signals w)
        × History b (events_of signals) es w (select_loop b cfg signals w)
  unfolding Settles
  select_loop-Accounts signals w =
      let (es, a, h, _, _) =
        Settles-run b reliable (λ _. Unit {0}) (λ _. Unit {0}) (λ w v o q. (tt, tt)) (λ ev w q. tt)
          cfg signals w tt in
      (es, a, h)

  -- Whatever fails, there is a ledger for every run of the writer: each event received is in one
  -- flushed batch or still in the batch at hand, in the order of reception; the table has gained
  -- exactly the rows of the batches that the ledger calls written, once each; and the dead-letter
  -- channel exactly the batches that the ledger sends there. Each entry stands for a flush of the
  -- batch then at hand, in this order: its batch was stored, or, after the waits of all retries, was
  -- taken by the dead-letter channel, or lost because there is no such channel or it is closed. The writer has a
  -- flush interval above 0, so that it does not panic at its start.
  pub run-Accounts :
      (signals : List Signal) (w : WriterOf b)
      → 0 < cfg.max_batch_linger
      → (v : WriterOf b) × (run_tidb_batch_writer b cfg signals w ≡ some v)
        × (es : List Entry) × Accounts b (events_of signals) es w v
        × History b (events_of signals) es w v
  run-Accounts signals w runs =
      let (es, a, h) = select_loop-Accounts signals w in
      (select_loop b cfg signals w, select_loop_runs b cfg signals w runs, es, a, h)

  HasChannel : WriterOf b → Type 0
  HasChannel w = (c : Chan) × (w.dead_letter_tx ≡ some c)

  kept :
      ((batch : List PendingEvent) (c : Chan) → (send batch c).0 ≡ true)
      → (w v : WriterOf b) (o : Outcome b w v) → HasChannel w
      → (fate_of b o ≢ to_nowhere) × HasChannel v
  unfolding HasChannel
  kept accepts w v (stored _ _ same) (c, e) = ((λ p. cc), (c, same ∙ e))
  kept accepts w v (dead_lettered (c, _, after, _) _ _ _) q = ((λ p. cc), (_, after))
  kept accepts w v (lost (inl (gone, _)) _ _ _) (c, e) = absurd (let p = sym gone ∙ e in cc)
  kept accepts w v (lost (inr (c, _, _, refused)) _ _ _) q =
      absurd (false≢true (sym refused ∙ accepts w.batch c))

  -- With a dead-letter channel whose receiver stays, every flush of a run stores its batch or hands it
  -- to that channel: no received event is lost.
  pub run-none_lost :
      (signals : List Signal) (w : WriterOf b) (c : Chan)
      → w.dead_letter_tx ≡ some c
      → ((batch : List PendingEvent) (c : Chan) → (send batch c).0 ≡ true)
      → (es : List Entry) × Accounts b (events_of signals) es w (select_loop b cfg signals w)
        × History b (events_of signals) es w (select_loop b cfg signals w)
        × AllFates (λ f. f ≢ to_nowhere) es
  unfolding Settles HasChannel
  run-none_lost signals w c e accepts =
      let (es, a, h, fates, _) =
        Settles-run b reliable (λ f. f ≢ to_nowhere) HasChannel (kept accepts) (λ ev w q. q) cfg
          signals w (c, e) in
      (es, a, h, fates)

  batch-flush_unless_empty :
      (l : List PendingEvent) (w : WriterOf b) → w.batch ≡ l → (flush_unless_empty b l w).batch ≡ []
  unfolding flush_unless_empty
  batch-flush_unless_empty [] w e = e
  batch-flush_unless_empty (ev ∷ evs) w e = (flush_batch_with_retry_lem b reliable w ev evs e).0

  batch-run :
      (signals : List Signal) (w : WriterOf b)
      → is_closed signals ≡ true
      → (select_loop b cfg signals w).batch ≡ []
  unfolding select_loop is_closed
  batch-run [] w h = absurd (false≢true h)
  batch-run (received ev ∷ signals) w h = batch-run signals (on_event b cfg ev w) h
  batch-run (closed ∷ signals) w h = batch-flush_unless_empty w.batch w refl
  batch-run (ticked ∷ signals) w h = batch-run signals (flush_unless_empty b w.batch w) h

  -- Once the senders are gone everything that the writer ever received has gone through a flush with one
  -- of its three outcomes, in order, and nothing is left at hand. The writer has a flush interval above
  -- 0, so that it does not panic at its start.
  pub run_drains :
      (signals : List Signal) (w : WriterOf b)
      → 0 < cfg.max_batch_linger
      → is_closed signals ≡ true
      → (v : WriterOf b) × (run_tidb_batch_writer b cfg signals w ≡ some v)
        × (es : List Entry) × Accounts b (events_of signals) es w v
        × History b (events_of signals) es w v
        × (all_events es ≡ w.batch ++ events_of signals)
        × (v.batch ≡ [])
  run_drains signals w runs h =
      let (v, ran, es, a, history) = run-Accounts signals w runs in
      let empty : v.batch ≡ [] =
        ap (λ x. x.batch) (some-inj (sym ran ∙ select_loop_runs b cfg signals w runs))
        ∙ batch-run signals w h in
      (
        v,
        ran,
        es,
        a,
        history,
        sym (append-nil (all_events es)) ∙ ap (λ l. all_events es ++ l) (sym empty) ∙ a.conserved,
        empty,
      )
