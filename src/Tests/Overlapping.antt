-- ===== src/Tests/Overlapping.antt =====
-- Requests to the sidecar that overlap: an event, a checkpoint, and a client that goes away.
use native.Mathlib.Decide.{ℕ_discrete}
use skialith.Server.Concurrent.Enqueued.{events_of, Accepted}
use skialith.Server.Concurrent.EnqueuedOnce.{Reach-enqueued_once}
use skialith.Common.{◌≡◌, List, Among, Distinct, ℕ, zero, suc, update, refl, [], ◌∷◌, ok, arith}
use skialith.External.JetStream.{Message}
use skialith.Limits.Interleaved.{
  top, got_now, new_window, reset, granted, read_clock, see_later, store_window, store_count,
}
use skialith.Store.SaveEvent.Interleaved.{
  ready, awaiting, sending, returned, message, pending, publishes, acknowledged as log_acknowledged,
  sends,
}
use skialith.Server.Checkpoint.{checkpoint_message}
use skialith.Server.Requests.{
  Request, event_request, checkpoint_request, state_request, with_status, respond,
}
use skialith.Server.Concurrent.{
  arrived, limiting, saving, acknowledging, answered, dropped, waits, in_limiter, admitted,
  in_store, responds, published, acknowledged, goes_away, System, run, Reach, start, next,
}
use skialith.Server.Concurrent.Promises.{Served}
use skialith.Server.Concurrent.Moved.{Holds}
use skialith.Server.Concurrent.Sound.{Reach-Served}
use skialith.Server.Concurrent.Alone.{Moves, respond-Moves}
use skialith.Limits.Limiter.{wait, try_claim}
use skialith.Store.SaveEvent.{publish_and_enqueue, save_event}
use skialith.Server.{save_event_handler, AppState}
use skialith.Tests.Doubles.{Value, text, services, jet_stream-Acknowledges, unbounded-Delivers}
use skialith.Tests.Tables.{agent_traces, agent_traces-IsKeyed}
use skialith.Tests.Saving.{app, body, request, clock, idle}

abbrev at_once : ℕ → Request Value
at_once zero = event_request "a" request
at_once (suc zero) = checkpoint_request "b" body
at_once (suc (suc i)) = state_request "a"

abbrev m1 : Message
m1 = message services "a" "1" (text "p")

abbrev m2 : Message
m2 = checkpoint_message services agent_traces (Unit {0}) "b" body

abbrev overlapped : System services agent_traces (Unit {0})
overlapped = record {
  app = record app {
    store = record idle {
      js = m2 ∷ m1 ∷ [];
      enqueue_tx = pending services "a" "1" (text "p") ∷ [];
      rate_limiter = record { window_start = 5; count = 1 };
    };
  };
  task =
      (update
        (update
          (update
            (update
              (update
                (update
                  (update
                    (update
                      (update
                        (update
                          (update
                            (update (update (λ i. arrived (at_once i)) 0 (limiting "a" request top))
                              0 (limiting "a" request (got_now 5)))
                            1 (acknowledging "b" body m2))
                          0 (limiting "a" request (new_window 5)))
                        0 (limiting "a" request (reset 5)))
                      0 (limiting "a" request (granted 5)))
                    0 (saving (ready ("a", "1", ok (text "p")))))
                  0 (saving (awaiting "a" "1" (text "p") m1)))
                1 (answered (checkpoint_request "b" body) (with_status 204)))
              0 (saving (sending "a" "1" (text "p"))))
            0 (saving (returned ("a", "1", ok (text "p")) (ok tt))))
          0 (answered (event_request "a" request) (with_status 204)))
        3 (dropped (state_request "a")));
}

-- The event waits for its slot while the checkpoint is published, and is logged behind it.
overlap : Reach services agent_traces (Unit {0}) 1 at_once app overlapped
unfolding ℕ_discrete
overlap =
    next
      (next
        (next
          (next
            (next
              (next
                (next
                  (next
                    (next
                      (next
                        (next
                          (next (next start (run 0 (waits "a" request)))
                            (run 0 (in_limiter "a" request (read_clock 5 (λ e. cc)))))
                          (run 1 (published "b" body m2 refl)))
                        (run 0 (in_limiter "a" request (see_later (λ e. cc)))))
                      (run 0 (in_limiter "a" request store_window)))
                    (run 0 (in_limiter "a" request store_count)))
                  (run 0 (admitted "a" request 5)))
                (run 0 (in_store (publishes "a" "1" (text "p") m1 refl))))
              (run 1 (acknowledged "b" body m2)))
            (run 0 (in_store (log_acknowledged "a" "1" (text "p") m1 refl))))
          (run 0 (in_store (sends "a" "1" (text "p")))))
        (run 0 (responds "a" "1" (text "p") (ok tt))))
      (run 3 (goes_away (arrived (state_request "a")) tt))

Reach-Served_example :
    Holds services agent_traces (Unit {0}) 1 app.tidb overlapped.app
    × ((i : ℕ)
        → Served services agent_traces
            (Unit {0})
            1
            app.tidb
            overlapped.app.store
            (at_once i)
            (overlapped.task i))
Reach-Served_example =
    Reach-Served services agent_traces (Unit {0}) 1 app.tidb jet_stream-Acknowledges
      (unbounded-Delivers _) agent_traces-IsKeyed
      (record { counted = omega arith; write_ahead = tt; same_rows = refl }) overlap

-- The event alone, after one reading of the clock.
abbrev logged_alone : AppState services agent_traces (Unit {0})
logged_alone = record app {
  store = record {
    js = m1 ∷ [];
    enqueue_tx = pending services "a" "1" (text "p") ∷ [];
    rate_limiter = record { window_start = 5; count = 1 };
    clock = record { readings = 1; slept_ms = 0 };
  };
}

Reach-enqueued_once_example :
    (order : List ℕ) × (overlapped.app.store.enqueue_tx
      ≡ events_of services agent_traces (Unit {0}) at_once order)
    × Distinct order
    × ((i : ℕ) → Accepted services agent_traces (Unit {0}) (overlapped.task i) → Among i order)
Reach-enqueued_once_example =
    Reach-enqueued_once services agent_traces (Unit {0}) (unbounded-Delivers _) overlap

-- The event of `logged_alone`, step by step.
event_alone :
    Moves services agent_traces
      (Unit {0})
      1000
      app
      (arrived (event_request "a" request))
      logged_alone
      (answered (event_request "a" request) (with_status 204))
unfolding respond save_event_handler save_event wait try_claim publish_and_enqueue
event_alone =
    respond-Moves services agent_traces (Unit {0}) 1000 2 clock (event_request "a" request) app
      (with_status 204, logged_alone) refl
