-- ===== src/Tests/Tables.antt =====
-- In-memory tables `agent_events` and `agent_traces`, and a consumer.
use skialith.Common.{
  ℕ, ◌*◌, ◌^◌, suc, zero, ◌≡◌, refl, inl, Bool, true, false, some, List, [], ◌∷◌, ◌++◌, Result, ok,
  err,
}
use skialith.Store.Events.{PendingEvent, EventRow, unique_keys}
use skialith.Store.Database.{Database, Transactional}
use skialith.Store.Backend.{Backend, IsReliable}
use skialith.Trace.Table.{TraceRow, DatabaseError, TraceTable, has_step}
use skialith.Trace.Keyed.{IsKeyed, newest, columns}
use skialith.Ingest.{Delivery, Consumer}
use skialith.Ingest.Acked.{Acks}
use skialith.Tests.Doubles.{Value, unbounded, unbounded-Delivers}

-- The next `outages` transactions cannot begin.
pub record Events : Type 0 where
  pub table : List EventRow
  pub outages : ℕ

abbrev begin_at : ℕ → List EventRow → Result (Unit {0}) (List EventRow) × Events
begin_at zero rows = (ok [], record { table = rows; outages = 0 })
begin_at (suc n) rows = (err tt, record { table = rows; outages = n })

abbrev insert_if : Bool → List EventRow → Result (Unit {0}) (List EventRow)
insert_if true rows = ok rows
insert_if false rows = err tt

abbrev pub agent_events : Database
agent_events = record {
  Db = Events;
  Tx = List EventRow;
  DbError = Unit {0};
  begin = λ db. begin_at db.outages db.table;
  insert = λ tx rs db. (insert_if (unique_keys (db.table ++ rs)) (tx ++ rs), db);
  commit = λ tx db. (ok tt, record db { table = db.table ++ tx });
  rows = λ db. db.table;
  pending = λ tx. tx;
}

rows_begin_at : (n : ℕ) (rows : List EventRow) → (begin_at n rows).1.table ≡ rows
rows_begin_at zero rows = refl
rows_begin_at (suc n) rows = refl

pending_begin_at : (n : ℕ) (rows tx : List EventRow) → (begin_at n rows).0 ≡ ok tx → tx ≡ []
pending_begin_at zero rows tx h = cc
pending_begin_at (suc n) rows tx h = cc

insert_if_ok :
    (b : Bool) (rows tx : List EventRow) → insert_if b rows ≡ ok tx → (tx ≡ rows) × (b ≡ true)
insert_if_ok true rows tx h = (cc, refl)
insert_if_ok false rows tx h = (cc, cc)

agent_events-Transactional : Transactional agent_events
agent_events-Transactional = record {
  rows-begin = λ db. rows_begin_at db.outages db.table;
  pending-begin = λ db tx h. pending_begin_at db.outages db.table tx h;
  rows-insert = λ tx rs db. refl;
  pending-insert =
      λ tx rs db tx' h. (insert_if_ok (unique_keys (db.table ++ rs)) (tx ++ rs) tx' h).0;
  insert-unique =
      λ tx rs db tx' e h. (insert_if_ok (unique_keys (db.table ++ rs)) (tx ++ rs) tx' h).1;
  commit_ok = λ tx db h. refl;
  commit_err = λ tx db e h. inl (cc);
}

abbrev pub backend : Backend
backend = record {
  database = agent_events;
  dead_letters = unbounded (List PendingEvent);
  from_utf8_lossy = λ bytes. "{}";
  backoff = λ base factor n. base ^ suc n * factor;
}

pub backend-IsReliable : IsReliable backend
backend-IsReliable = record {
  transactional = agent_events-Transactional;
  delivers = unbounded-Delivers (List PendingEvent);
}

abbrev duplicate_entry : DatabaseError
duplicate_entry = record { code = some "23000"; message = "Duplicate entry" }

abbrev execute_if :
    Bool
    → TraceRow Value
    → List (TraceRow Value)
    → Result DatabaseError (Unit {0}) × List (TraceRow Value)
execute_if true r db = (err duplicate_entry, db)
execute_if false r db = (ok tt, db ++ r ∷ [])

abbrev pub agent_traces : TraceTable Value
agent_traces = record {
  Db = List (TraceRow Value);
  DbError = DatabaseError;
  execute = λ r db. execute_if (has_step r db) r db;
  as_database_error = λ e. some e;
  fetch_optional = λ agent_id db. (ok (columns (newest agent_id db)), db);
  rows = λ db. db;
}

execute_if_ok :
    (b : Bool) (r : TraceRow Value) (db : List (TraceRow Value)) (u : Unit {0})
    → (execute_if b r db).0 ≡ ok u
    → ((execute_if b r db).1 ≡ db ++ r ∷ []) × (b ≡ false)
execute_if_ok true r db u h = (cc, cc)
execute_if_ok false r db u h = (refl, refl)

execute_if_err :
    (b : Bool) (r : TraceRow Value) (db : List (TraceRow Value)) (e : DatabaseError)
    → (execute_if b r db).0 ≡ err e
    → ((execute_if b r db).1 ≡ db) × (b ≡ true)
execute_if_err true r db e h = (refl, refl)
execute_if_err false r db e h = (cc, cc)

pub agent_traces-IsKeyed : IsKeyed agent_traces
agent_traces-IsKeyed = record {
  execute_ok = λ r db u h. execute_if_ok (has_step r db) r db u h;
  execute_err = λ r db e h. inl (execute_if_err (has_step r db) r db e h).0;
  execute_duplicate = λ r db e h d. execute_if_err (has_step r db) r db e h;
  fetch_ok = λ agent_id db o h. cc;
  rows-fetch = λ agent_id db. refl;
}

abbrev pub consumer : Consumer
consumer = record {
  Acks = List Delivery;
  NatsError = Unit {0};
  ack = λ d a. (ok tt, a ++ d ∷ []);
  acked = λ a. a;
}

pub consumer-Acks : Acks consumer
consumer-Acks = record { ack_sent = λ d a. inl refl }
