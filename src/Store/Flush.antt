-- ===== src/Store/Flush.antt =====
-- `flush_batch`: one transaction that inserts the whole batch.
use mathlib.Core.Path.{ap₂}
use skialith.Common.{
  ◌≡◌, refl, ap, ◌∙◌, subst, ◌⊎◌, inl, inr, List, [], ◌++◌, map, true, Result, ok, err, Exec, ◌>>=◌,
  ◌>>◌, Result-cases,
}
use skialith.Store.Events.{PendingEvent, EventRow, unique_keys}
use skialith.Store.Backend.{Backend, IsReliable, WriterOf}

module _ (b : Backend) where
  open b use {database.{Tx, DbError, begin, insert, commit, rows}, from_utf8_lossy}

  -- The values bound for one event.
  unfoldable pub bind_row : PendingEvent → EventRow
  bind_row ev = record {
    agent_id = ev.agent_id;
    event_id = ev.event_id;
    payload_json = from_utf8_lossy ev.payload_json;
  }

  abbrev on_db :
      {A : Type 0}
      → (b.database.Db → Result DbError A × b.database.Db)
      → Exec (WriterOf b) DbError A
  on_db f w = ((f w.db).0, record w { db = (f w.db).1 })

  abbrev batch_rows : Exec (WriterOf b) DbError (List EventRow)
  batch_rows w = (ok (map bind_row w.batch), w)

  abbrev clear : Exec (WriterOf b) DbError (Unit {0})
  clear w = (ok tt, record w { batch = [] })

  unfoldable pub flush_batch : Exec (WriterOf b) DbError (Unit {0})
  flush_batch = do
    tx ← on_db begin
    rs ← batch_rows
    tx' ← on_db (insert tx rs)
    on_db (commit tx')
    clear

  abbrev pub rows_of : List PendingEvent → List EventRow
  rows_of batch = map bind_row batch

  -- Nothing but the batch and the database changes.
  abbrev pub SameRest : WriterOf b → WriterOf b → Type 0
  SameRest w w' = (w'.dead_letter_tx ≡ w.dead_letter_tx) × (w'.slept_ms ≡ w.slept_ms)

  -- What an attempt leaves. After an error the whole batch is still there, and the rows are in the
  -- table only if a commit took effect whose answer was lost.
  abbrev pub Flushes : WriterOf b → Result DbError (Unit {0}) × WriterOf b → Type 0
  Flushes w (ok _, w') =
      (w'.batch ≡ [])
      × (rows w'.db ≡ rows w.db ++ rows_of w.batch)
      × (unique_keys (rows w.db ++ rows_of w.batch) ≡ true)
      × SameRest w w'
  Flushes w (err _, w') =
      (w'.batch ≡ w.batch)
      × ((rows w'.db ≡ rows w.db)
          ⊎ ((rows w'.db ≡ rows w.db ++ rows_of w.batch)
              × (unique_keys (rows w.db ++ rows_of w.batch) ≡ true)))
      × SameRest w w'

  module _ (reliable : IsReliable b) where
    open reliable use {
      transactional.{
        rows-begin, pending-begin, rows-insert, pending-insert, insert-unique, commit_ok,
        commit_err,
      },
    }

    -- What the transaction holds when it is committed, and what the table holds then.
    record Inserted (w : WriterOf b) (tx tx' : Tx) : Type 0 where
      table : rows (insert tx (rows_of w.batch) (begin w.db).1).1 ≡ rows w.db
      held : b.database.pending tx' ≡ rows_of w.batch
      unique : unique_keys (rows w.db ++ rows_of w.batch) ≡ true

    inserted :
        (w : WriterOf b) (tx tx' : Tx)
        → (begin w.db).0 ≡ ok tx
        → (insert tx (rows_of w.batch) (begin w.db).1).0 ≡ ok tx'
        → Inserted w tx tx'
    inserted w tx tx' e1 e2 =
        let empty = pending-begin w.db tx e1 in
        record {
          table = rows-insert tx (rows_of w.batch) (begin w.db).1 ∙ rows-begin w.db;
          held =
              pending-insert tx (rows_of w.batch) (begin w.db).1 tx' e2
              ∙ ap (λ p. p ++ rows_of w.batch) empty;
          unique =
              subst (λ rs. unique_keys (rs ++ rows_of w.batch) ≡ true) (rows-begin w.db)
                (insert-unique tx (rows_of w.batch) (begin w.db).1 tx' empty e2);
        }

    -- An attempt either adds the rows of the whole batch to the table, whose keys are then unique, and
    -- clears the batch; or it fails, keeps the batch, and leaves the table as it was, unless a commit
    -- took effect whose answer was lost.
    pub flush_batch-Flushes : (w : WriterOf b) → Flushes w (flush_batch w)
    unfolding flush_batch
    flush_batch-Flushes w = elim (Result-cases (begin w.db).0) [
      | inr (e, e1) ↦ rw e1 (refl, inl (rows-begin w.db), (refl, refl))
      | inl (tx, e1) ↦ rw e1 (elim (Result-cases (insert tx (rows_of w.batch) (begin w.db).1).0) [
        | inr (e, e2) ↦ rw e2 (
          refl,
          inl (rows-insert tx (rows_of w.batch) (begin w.db).1 ∙ rows-begin w.db),
          (refl, refl),
        )
        | inl (tx', e2) ↦
            let i = inserted w tx tx' e1 e2 in
            let db2 : b.database.Db = (insert tx (rows_of w.batch) (begin w.db).1).1 in
            rw e2 (elim (Result-cases (commit tx' db2).0) [
              | inl (u, e3) ↦
                  rw e3
                    (refl, commit_ok tx' db2 e3 ∙ ap₂ ◌++◌ i.table i.held, i.unique, (refl, refl))
              | inr (e, e3) ↦ rw e3 (
                refl,
                elim (commit_err tx' db2 e e3) [
                  | inl same ↦ inl (same ∙ i.table)
                  | inr took ↦ inr (took ∙ ap₂ ◌++◌ i.table i.held, i.unique)
                ],
                (refl, refl),
              )
            ])
      ])
    ]
