-- ===== src/Store/Database.antt =====
-- The MySQL-compatible database behind a `sqlx` pool, as far as the writer of `agent_events` uses
-- it: a parameter, with the documented behaviour of transactions and of the UNIQUE KEY of the table.
-- Any call may fail at any time. A failed commit may or may not have taken effect.
use skialith.Common.{◌≡◌, ◌⊎◌, true, List, [], ◌++◌, Result, ok, err}
use skialith.Store.Events.{EventRow, unique_keys}

pub record Database : Type 1 where
  pub Db : Type 0
  pub Tx : Type 0
  pub DbError : Type 0
  pub begin : Db → Result DbError Tx × Db
  pub insert : Tx → List EventRow → Db → Result DbError Tx × Db
  pub commit : Tx → Db → Result DbError (Unit {0}) × Db
  -- The committed rows, and those that a transaction has inserted.
  pub rows : Db → List EventRow
  pub pending : Tx → List EventRow

pub record Transactional (d : Database) : Type 0 where
  pub rows-begin : (db : d.Db) → d.rows (d.begin db).1 ≡ d.rows db
  pub pending-begin : (db : d.Db) (tx : d.Tx) → (d.begin db).0 ≡ ok tx → d.pending tx ≡ []
  pub rows-insert :
      (tx : d.Tx) (rs : List EventRow) (db : d.Db) → d.rows (d.insert tx rs db).1 ≡ d.rows db
  pub pending-insert :
      (tx : d.Tx) (rs : List EventRow) (db : d.Db) (tx' : d.Tx)
      → (d.insert tx rs db).0 ≡ ok tx'
      → d.pending tx' ≡ d.pending tx ++ rs
  -- The unique key refuses a statement that repeats a key of the table.
  pub insert-unique :
      (tx : d.Tx) (rs : List EventRow) (db : d.Db) (tx' : d.Tx)
      → d.pending tx ≡ []
      → (d.insert tx rs db).0 ≡ ok tx'
      → unique_keys (d.rows db ++ rs) ≡ true
  pub commit_ok :
      (tx : d.Tx) (db : d.Db)
      → (d.commit tx db).0 ≡ ok tt
      → d.rows (d.commit tx db).1 ≡ d.rows db ++ d.pending tx
  pub commit_err :
      (tx : d.Tx) (db : d.Db) (e : d.DbError)
      → (d.commit tx db).0 ≡ err e
      → (d.rows (d.commit tx db).1 ≡ d.rows db)
        ⊎ (d.rows (d.commit tx db).1 ≡ d.rows db ++ d.pending tx)
