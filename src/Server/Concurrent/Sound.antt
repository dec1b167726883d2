-- ===== src/Server/Concurrent/Sound.antt =====
-- What holds of the sidecar at any moment, however its requests overlap.
use skialith.Common.{ℕ, ◌≡◌, refl, ◌∙◌, List, update-all, ap-update}
use skialith.External.JetStream.{Acknowledges}
use skialith.Trace.Table.{TraceRow, TraceTable}
use skialith.Trace.Keyed.{IsKeyed}
use skialith.Store.Mpsc.{Delivers}
use skialith.Store.SaveEvent.{Services}
use skialith.Server.Requests.{Request, App}
use skialith.Server.Concurrent.{request_of, System, Step, run, Reach, start, next}
use skialith.Server.Concurrent.Promises.{TaskKnows, TaskKnows-Grows, Served, served}
use skialith.Server.Concurrent.Moved.{Holds, Moved-Move}
use skialith.Server.Concurrent.Kept.{request_of-Move}

module _ (v : Services) (t : TraceTable v.json.Value) (Nats : Type 0) where
  open v use {json.{Value}}

  module _ (limit : ℕ) (db_rows : List (TraceRow Value)) where
    record Inv (requests : ℕ → Request Value) (s : System v t Nats) : Type 0 where
      holds : Holds v t Nats limit db_rows s.app
      knows : (i : ℕ) → TaskKnows v t Nats limit db_rows s.app.store (s.task i)
      own : (i : ℕ) → request_of v t Nats (s.task i) ≡ requests i

    module _ (acks : Acknowledges v.jet_stream) (delivers : Delivers v.queue)
        (keyed : IsKeyed t) where
      Step-Inv :
          {requests : ℕ → Request Value} {s s' : System v t Nats}
          → Step v t Nats limit s s'
          → Inv requests s
          → Inv requests s'
      Step-Inv {requests} {s} (run i {app} {p} mv) inv =
          let moved =
            Moved-Move v t Nats limit db_rows acks delivers keyed mv inv.holds (inv.knows i) in
          record {
            holds = moved.holds;
            knows =
                update-all (TaskKnows v t Nats limit db_rows app.store) s.task i p moved.knows (λ j.
                  TaskKnows-Grows v t Nats limit db_rows (s.task j) moved.grows (inv.knows j));
            own = λ j.
                ap-update (request_of v t Nats) s.task i p (request_of-Move v t Nats mv) j
                ∙ inv.own j;
          }

      Reach-Inv :
          {requests : ℕ → Request Value} {app : App v t Nats} {s : System v t Nats}
          → Holds v t Nats limit db_rows app
          → Reach v t Nats limit requests app s
          → Inv requests s
      Reach-Inv h start = record { holds = h; knows = λ i. tt; own = λ i. refl }
      Reach-Inv h (next r st) = Step-Inv st (Reach-Inv h r)

      -- The sidecar keeps its promises however its requests overlap, wherever each of them fails, and
      -- whichever of them are dropped at an `await`, be their message lost or in the log later: at every moment the count of the rate limiter is
      -- at most the limit (or one), every event in the queue of the batch writer is in the log, and the
      -- table is as it was; and every request that has been answered has an answer of its route: 204
      -- for an event only where the log and the queue have that event, 204 for a checkpoint only where
      -- the log has that checkpoint, and a state only as the newest checkpoint in the table gives
      -- it. The first three held before the requests, and nothing else writes the table.
      pub Reach-Served :
          {requests : ℕ → Request Value} {app : App v t Nats} {s : System v t Nats}
          → Holds v t Nats limit db_rows app
          → Reach v t Nats limit requests app s
          → Holds v t Nats limit db_rows s.app
            × ((i : ℕ) → Served v t Nats limit db_rows s.app.store (requests i) (s.task i))
      Reach-Served {requests} {app} {s} h r =
          let inv = Reach-Inv h r in
          (
            inv.holds,
            λ i.
                served v t Nats limit db_rows s.app.store (requests i) (s.task i) (inv.own i)
                  (inv.knows i),
          )
