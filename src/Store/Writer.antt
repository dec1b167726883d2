-- ===== src/Store/Writer.antt =====
-- `run_tidb_batch_writer`: what the task does with each thing that its `select!` yields.
pub mod Ledger
pub mod Accounting
pub mod Bounds
pub mod Conservation
use skialith.Common.{
  ℕ, Bool, true, false, List, [], ◌∷◌, ◌++◌, length, leb, if◌then◌else◌, Option, none, some, ◌==◌,
  ◌<◌, ◌≡◌, arith,
}
use skialith.Store.Config.{SkialithConfig}
use skialith.Store.Events.{PendingEvent}
use skialith.Store.Backend.{Backend, WriterOf}
use skialith.Store.Retry.{flush_batch_with_retry}

-- `recv` yields an event, or nothing more because all senders are gone; or the ticker fires.
pub data Signal : Type 0 where
  received : PendingEvent → Signal
  closed : Signal
  ticked : Signal

module _ (b : Backend) where
  abbrev pub push : PendingEvent → WriterOf b → WriterOf b
  push ev w = record w { batch = w.batch ++ ev ∷ [] }

  unfoldable pub flush_if_full : ℕ → WriterOf b → WriterOf b
  flush_if_full max_batch_size w =
      if leb max_batch_size (length w.batch) then flush_batch_with_retry b w else w

  -- `if !batch.is_empty()`; the first argument is the batch.
  unfoldable pub flush_unless_empty : List PendingEvent → WriterOf b → WriterOf b
  flush_unless_empty [] w = w
  flush_unless_empty (_ ∷ _) w = flush_batch_with_retry b w

  unfoldable pub on_event : SkialithConfig → PendingEvent → WriterOf b → WriterOf b
  unfolding flush_if_full
  on_event cfg ev w = flush_if_full cfg.max_batch_size (push ev w)

  -- The loop, over what happens in the order in which it happens; `closed` ends it.
  unfoldable pub select_loop : SkialithConfig → List Signal → WriterOf b → WriterOf b
  unfolding on_event flush_unless_empty
  select_loop cfg [] w = w
  select_loop cfg (received ev ∷ signals) w = select_loop cfg signals (on_event cfg ev w)
  select_loop cfg (closed ∷ signals) w = flush_unless_empty w.batch w
  select_loop cfg (ticked ∷ signals) w = select_loop cfg signals (flush_unless_empty w.batch w)

  -- `none`: `tokio::time::interval` panics for a period of 0, before anything is received.
  unfoldable pub run_tidb_batch_writer :
      SkialithConfig → List Signal → WriterOf b → Option (WriterOf b)
  unfolding select_loop
  run_tidb_batch_writer cfg signals w =
      if cfg.max_batch_linger == 0 then none else some (select_loop cfg signals w)

  -- It runs its loop unless the period is 0.
  pub select_loop_runs :
      (cfg : SkialithConfig) (signals : List Signal) (w : WriterOf b)
      → 0 < cfg.max_batch_linger
      → run_tidb_batch_writer cfg signals w ≡ some (select_loop cfg signals w)
  unfolding run_tidb_batch_writer
  select_loop_runs cfg signals w h = ground arith

-- The events that the loop has received when it has run over the signals.
unfoldable pub events_of : List Signal → List PendingEvent
events_of [] = []
events_of (received ev ∷ signals) = ev ∷ events_of signals
events_of (closed ∷ signals) = []
events_of (ticked ∷ signals) = events_of signals
