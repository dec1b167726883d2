-- ===== src/Tests/Saving.antt =====
-- Events saved, and requests handled.
use skialith.Common.{ℕ, ◌+◌, ◌/◌, ◌≤◌, ◌≡◌, some, [], ◌∷◌, arith, Result, ok}
use skialith.Common.Int.{pos}
use skialith.Limits.Limiter.{default, look}
use skialith.Limits.Sleep.{IsSteady}
use skialith.Store.SaveEvent.{StateOf, ErrorOf, publish_and_enqueue, save_event}
use skialith.Store.SaveEvent.Branches.{Saved, publish_and_enqueue-Saved}
use skialith.Store.SaveEvent.Returns.{save_event_returns}
use skialith.Server.{SaveEventRequest, AppState, CheckpointRequest, checkpoint}
use skialith.Server.Checkpoint.{Answered, checkpoint-Answered}
use skialith.Tests.Doubles.{
  Value, text, integer, services, jet_stream-Acknowledges, unbounded-Delivers,
}
use skialith.Tests.Tables.{agent_traces}
use skialith.Tests.Ingesting.{checkpoint_row}

-- A clock that takes a millisecond between two readings.
abbrev pub clock : ℕ → ℕ → ℕ
clock k s = 5000 + k + s

pub clock-IsSteady : IsSteady clock
clock-IsSteady = record { forward = λ k s. omega arith; slept = λ k s d. omega arith }

abbrev pub idle : StateOf services
idle = record {
  js = [];
  enqueue_tx = [];
  rate_limiter = default;
  clock = record { readings = 0; slept_ms = 0 };
}

publish_and_enqueue-Saved_example :
    let out = publish_and_enqueue services "a" "1" (ok (integer (pos 7))) idle in
    Saved services "a" "1" (ok (integer (pos 7))) idle out.0 out.1
publish_and_enqueue-Saved_example =
    publish_and_enqueue-Saved services "a" "1" (ok (integer (pos 7))) jet_stream-Acknowledges
      (unbounded-Delivers _) idle

save_event_returns_example :
    (r : Result (ErrorOf services) (Unit {0})) × (s' : StateOf services) × (slot : StateOf services)
    × (save_event services (λ v. ok v) 2 clock 1000 "a" "1" (integer (pos 7)) idle ≡ some (r, s'))
    × (slot.js ≡ [])
    × (slot.enqueue_tx ≡ [])
    × Saved services "a" "1" (ok (integer (pos 7))) slot r s'
    × (s'.rate_limiter.window_start ≤ look clock s'.clock / 1000)
save_event_returns_example =
    save_event_returns services jet_stream-Acknowledges (unbounded-Delivers _) (λ v. ok v) clock
      1000 "a" "1" (integer (pos 7)) idle clock-IsSteady (omega arith)

abbrev pub body : CheckpointRequest Value
body = record { step_index = pos 4; state = text "s" }

abbrev pub app : AppState services agent_traces (Unit {0})
app = record { store = idle; tidb = checkpoint_row ∷ [] }

checkpoint-Answered_example :
    let r = checkpoint services agent_traces (Unit {0}) "a" body app in
    Answered services agent_traces (Unit {0}) "a" body app r.1 r.0
    × (r.1.tidb ≡ app.tidb)
    × (r.1.store.enqueue_tx ≡ app.store.enqueue_tx)
    × (r.1.store.rate_limiter ≡ app.store.rate_limiter)
checkpoint-Answered_example =
    checkpoint-Answered services agent_traces (Unit {0}) jet_stream-Acknowledges "a" body app

abbrev pub request : SaveEventRequest Value
request = record { event_id = "1"; payload = text "p" }
