-- ===== src/Store/Backend.antt =====
-- What the batch writer runs on, and its state.
use skialith.Common.{ℕ, String, Option, List}
use skialith.Store.Events.{PendingEvent}
use skialith.Store.Database.{Database, Transactional}
use skialith.Store.Mpsc.{Mpsc, Delivers}

pub record Backend : Type 1 where
  pub database : Database
  pub dead_letters : Mpsc (List PendingEvent)
  -- `String::from_utf8_lossy`
  pub from_utf8_lossy : List ℕ → String
  -- `ExponentialBackoff::from_millis(base).factor(factor)`: the n-th delay, in milliseconds.
  pub backoff : ℕ → ℕ → ℕ → ℕ

pub record IsReliable (b : Backend) : Type 0 where
  pub transactional : Transactional b.database
  pub delivers : Delivers b.dead_letters

-- The locals of `run_tidb_batch_writer`, with the database and the dead-letter channel that it
-- holds and the milliseconds that it has spent asleep between attempts.
pub record Writer (Db Chan : Type 0) : Type 0 where
  pub batch : List PendingEvent
  pub db : Db
  pub dead_letter_tx : Option Chan
  pub slept_ms : ℕ

abbrev pub WriterOf : Backend → Type 0
WriterOf b = Writer b.database.Db b.dead_letters.Chan
