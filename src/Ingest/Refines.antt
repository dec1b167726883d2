-- ===== src/Ingest/Refines.antt =====
-- The ingester on the abstract view of its table: rows put under their keys, where those are free.
use skialith.Common.{
  ℕ, ◌≡◌, refl, sym, ap, ◌∙◌, subst, ◌⊎◌, inl, inr, none, some, List, [], ◌∷◌, ◌++◌, Result, ok,
  err, Result-cases, Option-cases,
}
use skialith.External.Json.{Json}
use skialith.Trace.{bind_row, insert}
use skialith.Trace.Table.{TraceRow, TraceTable}
use skialith.Trace.Keyed.{IsKeyed}
use skialith.Trace.Abstract.{put_all, map_of, Put, insert-Put}
use skialith.Ingest.{
  Delivery, Consumer, S, E, sqlx, json, trace_of, process_message, process, process_batch,
  ingest_loop,
}
use skialith.Ingest.Redelivery.{process_message_db}
use skialith.Ingest.Items.{Item, items_of, ingest_loop-eq-process_batch}

module _ (j : Json) (t : TraceTable j.Value) (c : Consumer) (bad_json : List ℕ → j.Error) where
  open t use {rows}

  -- The rows of the messages up to the first error of the consumer, or the first that is no JSON.
  unfoldable pub rows_read : List (Item c) → List (TraceRow j.Value)
  rows_read [] = []
  rows_read (err e ∷ items) = []
  rows_read (ok msg ∷ items) = elim (j.from_slice msg.payload) [
    | none ↦ []
    | some payload ↦ bind_row (trace_of j msg payload) ∷ rows_read items
  ]

  rows_read-ok :
      (msg : Delivery) (payload : j.Value) (items : List (Item c))
      → j.from_slice msg.payload ≡ some payload
      → rows_read (ok msg ∷ items) ≡ bind_row (trace_of j msg payload) ∷ rows_read items
  unfolding rows_read
  rows_read-ok msg payload items e = rw (e, rows_read) refl

  rows_read_poison :
      (msg : Delivery) (items : List (Item c))
      → j.from_slice msg.payload ≡ none
      → rows_read (ok msg ∷ items) ≡ []
  unfolding rows_read
  rows_read_poison msg items e = rw (e, rows_read) refl

  pub process_batch_stop :
      (msg : Delivery) (items : List (Item c)) (s : S j t c bad_json) (e : E j t c bad_json)
      → (process_message j t c bad_json msg s).0 ≡ err e
      → process_batch j t c bad_json (ok msg ∷ items) s
        ≡ (err e, (process_message j t c bad_json msg s).1)
  unfolding process_batch process
  process_batch_stop msg items s e h = rw h refl

  pub process_batch_next :
      (msg : Delivery) (items : List (Item c)) (s : S j t c bad_json) (u : Unit {0})
      → (process_message j t c bad_json msg s).0 ≡ ok u
      → process_batch j t c bad_json (ok msg ∷ items) s
        ≡ process_batch j t c bad_json items (process_message j t c bad_json msg s).1
  unfolding process_batch process
  process_batch_next msg items s u h = rw h refl

  process_message-poison :
      (msg : Delivery) (s : S j t c bad_json)
      → j.from_slice msg.payload ≡ none
      → process_message j t c bad_json msg s ≡ (err (json (bad_json msg.payload)), s)
  unfolding process_message
  process_message-poison msg s h = rw h refl

  -- The map that the table stands for is what the rows read so far make of the old one, put in the
  -- order of the stream; rows are left out only after an error.
  pub record Refines (items : List (Item c)) (s : S j t c bad_json)
      (out : Result (E j t c bad_json) (Unit {0}) × S j t c bad_json) : Type 0 where
    pub done : List (TraceRow j.Value)
    pub left : List (TraceRow j.Value)
    pub in_order : rows_read items ≡ done ++ left
    pub table : map_of (rows out.1.db) ≡ put_all done (map_of (rows s.db))
    pub complete : (left ≡ []) ⊎ ((e : E j t c bad_json) × (out.0 ≡ err e))

  module _ (keyed : IsKeyed t) where
    pub process_message_err :
        (msg : Delivery) (payload : j.Value) (s : S j t c bad_json) (e : t.DbError)
        → j.from_slice msg.payload ≡ some payload
        → (insert t (trace_of j msg payload) s.db).0 ≡ err e
        → (process_message j t c bad_json msg s).0 ≡ err (sqlx e)
    unfolding process_message
    process_message_err msg payload s e parsed h = rw (parsed, h) refl

    -- A message after which the loop stops.
    Refines-stop :
        (msg : Delivery) (payload : j.Value) (items : List (Item c)) (s : S j t c bad_json)
        (e : E j t c bad_json)
        → j.from_slice msg.payload ≡ some payload
        → Put t keyed (trace_of j msg payload) s.db (insert t (trace_of j msg payload) s.db)
        → Refines (ok msg ∷ items) s (err e, (process_message j t c bad_json msg s).1)
    unfolding put_all
    Refines-stop msg payload items s e parsed (inl put) = record {
      done = bind_row (trace_of j msg payload) ∷ [];
      left = rows_read items;
      in_order = rows_read-ok msg payload items parsed;
      table =
          ap (λ db. map_of (rows db)) (process_message_db j t c bad_json msg payload s parsed)
          ∙ put;
      complete = inr (e, refl);
    }
    Refines-stop msg payload items s e parsed (inr (_, same)) = record {
      done = [];
      left = bind_row (trace_of j msg payload) ∷ rows_read items;
      in_order = rows_read-ok msg payload items parsed;
      table =
          ap (λ db. map_of (rows db)) (process_message_db j t c bad_json msg payload s parsed)
          ∙ same;
      complete = inr (e, refl);
    }

    Refines-next :
        (msg : Delivery) (payload : j.Value) (items : List (Item c)) (s : S j t c bad_json)
        (u : Unit {0}) (out : Result (E j t c bad_json) (Unit {0}) × S j t c bad_json)
        → j.from_slice msg.payload ≡ some payload
        → (process_message j t c bad_json msg s).0 ≡ ok u
        → Put t keyed (trace_of j msg payload) s.db (insert t (trace_of j msg payload) s.db)
        → Refines items (process_message j t c bad_json msg s).1 out
        → Refines (ok msg ∷ items) s out
    unfolding put_all
    Refines-next msg payload items s u out parsed fine (inl put) r = record {
      done = bind_row (trace_of j msg payload) ∷ r.done;
      left = r.left;
      in_order =
          rows_read-ok msg payload items parsed
          ∙ ap (λ l. bind_row (trace_of j msg payload) ∷ l) r.in_order;
      table =
          r.table
          ∙ ap (put_all r.done) (
              ap (λ db. map_of (rows db)) (process_message_db j t c bad_json msg payload s parsed)
              ∙ put);
      complete = r.complete;
    }
    Refines-next msg payload items s u out parsed fine (inr ((e, failed), same)) r =
        let p = sym fine ∙ process_message_err msg payload s e parsed failed in cc

    Refines-poison :
        (msg : Delivery) (items : List (Item c)) (s : S j t c bad_json)
        → j.from_slice msg.payload ≡ none
        → Refines (ok msg ∷ items) s (process_batch j t c bad_json (ok msg ∷ items) s)
    unfolding put_all
    Refines-poison msg items s e =
        let p = process_message-poison msg s e in
        rw (process_batch_stop msg items s _ (ap (λ r. r.0) p), p)
          (record {
            done = [];
            left = [];
            in_order = rows_read_poison msg items e;
            table = refl;
            complete = inl refl;
          })

    process_batch-Refines :
        (items : List (Item c)) (s : S j t c bad_json)
        → Refines items s (process_batch j t c bad_json items s)
    unfolding process_batch rows_read put_all process
    process_batch-Refines [] s = record {
      done = [];
      left = [];
      in_order = refl;
      table = refl;
      complete = inl refl;
    }
    process_batch-Refines (err e ∷ items) s = record {
      done = [];
      left = [];
      in_order = refl;
      table = refl;
      complete = inl refl;
    }
    process_batch-Refines (ok msg ∷ items) s = elim (Option-cases (j.from_slice msg.payload)) [
      | inl e ↦ Refines-poison msg items s e
      | inr (payload, parsed) ↦
          let put = insert-Put t keyed (trace_of j msg payload) s.db in
          elim (Result-cases (process_message j t c bad_json msg s).0) [
            | inr (e, stopped) ↦
                subst (Refines (ok msg ∷ items) s) (sym (process_batch_stop msg items s e stopped))
                  (Refines-stop msg payload items s e parsed put)
            | inl (u, fine) ↦
                subst (Refines (ok msg ∷ items) s) (sym (process_batch_next msg items s u fine)) (
                  Refines-next msg payload items s u _ parsed fine put
                    (process_batch-Refines items (process_message j t c bad_json msg s).1))
          ]
    ]

    -- The ingester refines an abstract one, whose table is a map from an agent and a step to a row.
    -- However the database, the consumer and the acknowledgements behave, the table after any run is
    -- the old one with a first part of the rows of the fetched messages put in, in the order of the
    -- stream, each only where its key is free; and it is all of these rows, up to the first error of
    -- the consumer or message that is no JSON, unless the run has ended with an error.
    pub ingest_loop-Refines :
        (fetches : List (Result c.NatsError (List (Item c)))) (s : S j t c bad_json)
        → Refines (items_of c fetches) s (ingest_loop j t c bad_json fetches s)
    ingest_loop-Refines fetches s =
        subst (Refines (items_of c fetches) s)
          (sym (ingest_loop-eq-process_batch j t c bad_json fetches s))
          (process_batch-Refines (items_of c fetches) s)
