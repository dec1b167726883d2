-- ===== src/Tests/Piping.antt =====
-- Two calls of `save_event` that overtake each other, and the writer that receives what they queue.
use native.Mathlib.Decide.{ℕ_discrete}
use skialith.Common.{ℕ, zero, suc, ◌≡◌, update, refl, some, arith, List, [], ◌∷◌, ok}
use skialith.Common.Int.{pos}
use skialith.External.JetStream.{Message}
use skialith.Store.Events.{PendingEvent}
use skialith.Store.Writer.{Signal, received, closed, ticked, run_tidb_batch_writer, events_of}
use skialith.Store.Backend.{WriterOf}
use skialith.Store.Writer.Ledger.{Entry, all_events, Accounts, History}
use skialith.Store.Writer.Conservation.{is_closed}
use skialith.Store.SaveEvent.WriteAhead.{Call, AllLogged}
use skialith.Store.SaveEvent.Interleaved.{
  System, run, Reach, start, next, ready, awaiting, sending, returned, message, pending, publishes,
  acknowledged, sends,
}
use skialith.Store.Pipeline.{accepted_events_settled}
use skialith.Tests.Doubles.{Value, integer, services, jet_stream-Acknowledges, unbounded-Delivers}
use skialith.Tests.Tables.{backend, backend-IsReliable}
use skialith.Tests.Writing.{writer, small_batches}
use skialith.Tests.Saving.{idle}

abbrev seven : Value
seven = integer (pos 7)

abbrev both : ℕ → Call services
both zero = ("a", "1", ok seven)
both (suc i) = ("a", "2", ok seven)

abbrev m1 : Message
m1 = message services "a" "1" seven

abbrev m2 : Message
m2 = message services "a" "2" seven

abbrev saved : List PendingEvent
saved = pending services "a" "2" seven ∷ pending services "a" "1" seven ∷ []

abbrev both_saved : System services
both_saved = record {
  store = record idle { js = m1 ∷ m2 ∷ []; enqueue_tx = saved };
  pc =
      update
        (update
          (update
            (update
              (update (update (λ i. ready (both i)) 0 (awaiting "a" "1" seven m1)) 1
                (awaiting "a" "2" seven m2))
              0 (sending "a" "1" seven))
            1 (sending "a" "2" seven))
          1 (returned ("a", "2", ok seven) (ok tt)))
        0 (returned ("a", "1", ok seven) (ok tt));
}

-- The first call is acknowledged first and queued last: the log and the queue differ in their order.
overtaken : Reach services both idle both_saved
unfolding ℕ_discrete
overtaken =
    next
      (next
        (next
          (next
            (next (next start (run 0 (publishes "a" "1" seven m1 refl)))
              (run 1 (publishes "a" "2" seven m2 refl)))
            (run 0 (acknowledged "a" "1" seven m1 refl)))
          (run 1 (acknowledged "a" "2" seven m2 refl)))
        (run 1 (sends "a" "2" seven)))
      (run 0 (sends "a" "1" seven))

abbrev signals : List Signal
signals =
    ticked
    ∷ received (pending services "a" "2" seven)
    ∷ received (pending services "a" "1" seven)
    ∷ closed
    ∷ []

accepted_events_settled_example :
    (u : WriterOf backend) × (run_tidb_batch_writer backend small_batches signals (writer [] [] 0)
      ≡ some u)
    × (es : List Entry) × Accounts backend saved es (writer [] [] 0) u
    × History backend saved es (writer [] [] 0) u
    × (all_events es ≡ saved)
    × AllLogged services both_saved.store.js (all_events es)
unfolding events_of is_closed
accepted_events_settled_example =
    accepted_events_settled services backend jet_stream-Acknowledges (unbounded-Delivers _)
      backend-IsReliable small_batches both idle both_saved signals (writer [] [] 0) refl refl
      overtaken refl refl (omega arith)
