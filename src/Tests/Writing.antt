-- ===== src/Tests/Writing.antt =====
-- Runs of the batch writer.
use skialith.Common.{ℕ, ◌<◌, ◌≡◌, ◌≢◌, refl, ◌⊎◌, some, List, [], ◌∷◌, arith, length}
use skialith.Store.Config.{SkialithConfig}
use skialith.Store.Events.{PendingEvent, EventRow, same_key, has_key, unique_keys}
use skialith.Store.Backend.{WriterOf}
use skialith.Store.Flush.{bind_row, rows_of}
use skialith.Store.Retry.{flush_batch_with_retry}
use skialith.Store.Retry.Outcome.{Outcome, dead, Unsent}
use skialith.Store.Retry.Loop.{flush_batch_with_retry_lem}
use skialith.Store.Retry.Duplicates.{duplicate_discards_batch}
use skialith.Store.Writer.{
  Signal, received, closed, ticked, select_loop, run_tidb_batch_writer, events_of,
}
use skialith.Store.Writer.Ledger.{Entry, to_nowhere, all_events, Accounts, History}
use skialith.Store.Writer.Accounting.{AllFates}
use skialith.Store.Writer.Conservation.{is_closed, run-Accounts, run-none_lost, run_drains}
use skialith.Store.Writer.Bounds.{run-IsSmall}
use skialith.Tests.Tables.{backend, backend-IsReliable}

abbrev event : PendingEvent
event = record { agent_id = "a"; event_id = "1"; payload_json = 7 ∷ [] }

abbrev other_event : PendingEvent
other_event = record { agent_id = "a"; event_id = "2"; payload_json = 8 ∷ [] }

abbrev row : EventRow
row = record { agent_id = "a"; event_id = "1"; payload_json = "{}" }

abbrev pub small_batches : SkialithConfig
small_batches = record { max_batch_size = 2; max_batch_linger = 100; channel_capacity = 10 }

-- A writer with a dead-letter channel, at a database that answers, holding `batch`.
abbrev pub writer : List PendingEvent → List EventRow → ℕ → WriterOf backend
writer batch rows outages = record {
  batch = batch;
  db = record { table = rows; outages = outages };
  dead_letter_tx = some [];
  slept_ms = 0;
}

-- The second event fills the batch during an outage; the third repeats a key.
abbrev signals : List Signal
signals = received event ∷ received other_event ∷ ticked ∷ received event ∷ closed ∷ []

abbrev after : WriterOf backend
after = select_loop backend small_batches signals (writer [] [] 2)

run-Accounts_example :
    (v : WriterOf backend) × (run_tidb_batch_writer backend small_batches signals (writer [] [] 2)
      ≡ some v)
    × (es : List Entry) × Accounts backend (events_of signals) es (writer [] [] 2) v
    × History backend (events_of signals) es (writer [] [] 2) v
run-Accounts_example =
    run-Accounts backend backend-IsReliable small_batches signals (writer [] [] 2) (omega arith)

run-none_lost_example :
    (es : List Entry) × Accounts backend (events_of signals) es (writer [] [] 2) after
    × History backend (events_of signals) es (writer [] [] 2) after
    × AllFates (λ f. f ≢ to_nowhere) es
run-none_lost_example =
    run-none_lost backend backend-IsReliable small_batches signals (writer [] [] 2) [] refl
      (λ batch c. refl)

run_drains_example :
    (v : WriterOf backend) × (run_tidb_batch_writer backend small_batches signals (writer [] [] 2)
      ≡ some v)
    × (es : List Entry) × Accounts backend (events_of signals) es (writer [] [] 2) v
    × History backend (events_of signals) es (writer [] [] 2) v
    × (all_events es ≡ events_of signals)
    × (v.batch ≡ [])
unfolding is_closed
run_drains_example =
    run_drains backend backend-IsReliable small_batches signals (writer [] [] 2) (omega arith) refl

run-IsSmall_example : length after.batch < 2
run-IsSmall_example =
    run-IsSmall backend backend-IsReliable small_batches signals (writer [] [] 2) (omega arith)

duplicate_discards_batch_example :
    let w : WriterOf backend = writer (event ∷ other_event ∷ []) (row ∷ []) 0 in
    let w' = flush_batch_with_retry backend w in
    (w'.batch ≡ [])
    × (w'.db.table ≡ row ∷ [])
    × (w'.slept_ms ≡ 2020200)
    × ((dead backend w'.dead_letter_tx ≡ (event ∷ other_event ∷ []) ∷ []) ⊎ Unsent backend w w')
unfolding unique_keys has_key same_key bind_row
duplicate_discards_batch_example =
    duplicate_discards_batch backend backend-IsReliable
      (writer (event ∷ other_event ∷ []) (row ∷ []) 0) event (other_event ∷ [])
      (λ base factor n. refl) refl refl

flush_batch_with_retry_lem_example :
    let w : WriterOf backend = writer (event ∷ []) [] 2 in
    ((flush_batch_with_retry backend w).batch ≡ [])
    × Outcome backend w (flush_batch_with_retry backend w)
flush_batch_with_retry_lem_example =
    flush_batch_with_retry_lem backend backend-IsReliable (writer (event ∷ []) [] 2) event [] refl

-- The run ends with the repeated event in the dead letters.
after_table : after.db.table ≡ rows_of backend (event ∷ other_event ∷ [])
unfolding select_loop flush_batch_with_retry unique_keys same_key bind_row
after_table = refl

after_dead_letters : after.dead_letter_tx ≡ some ((event ∷ []) ∷ [])
unfolding select_loop flush_batch_with_retry unique_keys same_key bind_row
after_dead_letters = refl
