-- ===== src/Ingest/Rows.antt =====
-- The rows that the ingester adds, column by column.
use skialith.Common.{
  ℕ, ◌≡◌, refl, subst, ◌⊎◌, inl, inr, some, List, [], ◌∷◌, Result, ok, err, Result-cases,
  Option-cases, Among, Among-snoc,
}
use skialith.External.Json.{Json}
use skialith.Trace.{as_db_str, bind_row}
use skialith.Trace.Table.{TraceRow, TraceTable}
use skialith.Trace.Keyed.{IsKeyed}
use skialith.Trace.Insert.{Inserted, added, already_there, failed, insert-Inserted}
use skialith.Ingest.{
  Delivery, Consumer, S, agent_of, sequence_of, step_index_of, event_type_of, trace_of, process,
  process_message, process_batch, ingest_loop,
}
use skialith.Ingest.Items.{Item, items_of, ingest_loop-eq-process_batch}
use skialith.Ingest.Redelivery.{process_message_db, process_message_poison}

module _ (j : Json) (t : TraceTable j.Value) (c : Consumer) (bad_json : List ℕ → j.Error)
    (keyed : IsKeyed t) where
  open t use {rows}

  -- The row of a message: the agent of its subject, the step and the event type of its payload, and
  -- the whole payload.
  abbrev pub IsRowOf : Delivery → TraceRow j.Value → Type 0
  IsRowOf d r =
      (payload : j.Value) × (j.from_slice d.payload ≡ some payload)
      × (r ≡ record {
        agent_id = agent_of d.subject;
        step_index = step_index_of j payload (sequence_of d.stream_sequence);
        event_type = as_db_str (event_type_of j payload);
        payload = some payload;
      })

  -- Every row is an old one or that of a message among `items`.
  abbrev pub AddsRowsOf : List (Item c) → S j t c bad_json → S j t c bad_json → Type 0
  AddsRowsOf items s s' =
      (r : TraceRow j.Value)
      → Among r (rows s'.db)
      → Among r (rows s.db) ⊎ ((d : Delivery) × Among (ok d) items × IsRowOf d r)

  row_added :
      (d : Delivery) (payload : j.Value) (db db' : t.Db) (res : Result t.DbError (Unit {0}))
      → j.from_slice d.payload ≡ some payload
      → Inserted t keyed (trace_of j d payload) db db' res
      → (r : TraceRow j.Value) → Among r (rows db')
      → Among r (rows db) ⊎ IsRowOf d r
  unfolding trace_of bind_row
  row_added d payload db db' res e (added gain _) r mem =
      elim (Among-snoc r (rows db) (bind_row (trace_of j d payload)) (subst (Among r) gain mem)) [
        | inl old ↦ inl old
        | inr new ↦ inr (payload, e, new)
      ]
  row_added d payload db db' res e (already_there same _) r mem = inl (subst (Among r) same mem)
  row_added d payload db db' res e (failed _ same) r mem = inl (subst (Among r) same mem)

  process_message-row :
      (d : Delivery) (s : S j t c bad_json) (r : TraceRow j.Value)
      → Among r (rows (process_message j t c bad_json d s).1.db)
      → Among r (rows s.db) ⊎ IsRowOf d r
  process_message-row d s r mem = elim (Option-cases (j.from_slice d.payload)) [
    | inl e ↦
        inl
          (subst (λ s. Among r (rows s.db)) (process_message_poison j t c bad_json keyed d s e) mem)
    | inr (payload, e) ↦
        row_added d payload s.db _ _ e (insert-Inserted t keyed (trace_of j d payload) s.db) r
          (subst (λ db. Among r (rows db)) (process_message_db j t c bad_json d payload s e) mem)
  ]

  here :
      (d : Delivery) (items : List (Item c)) (s : S j t c bad_json) (r : TraceRow j.Value)
      → Among r (rows (process_message j t c bad_json d s).1.db)
      → Among r (rows s.db) ⊎ ((m : Delivery) × Among (ok m) (ok d ∷ items) × IsRowOf m r)
  here d items s r mem = elim (process_message-row d s r mem) [
    | inl old ↦ inl old
    | inr own ↦ inr (d, inl refl, own)
  ]

  process_batch-AddsRowsOf :
      (items : List (Item c)) (s : S j t c bad_json)
      → AddsRowsOf items s (process_batch j t c bad_json items s).1
  unfolding process_batch process
  process_batch-AddsRowsOf [] s r mem = inl mem
  process_batch-AddsRowsOf (err e ∷ items) s r mem = inl mem
  process_batch-AddsRowsOf (ok d ∷ items) s r mem =
      let s1 : S j t c bad_json = (process_message j t c bad_json d s).1 in
      elim (Result-cases (process_message j t c bad_json d s).0) [
        | inr (x, e) ↦ here d items s r (rw e at mem)
        | inl (u, e) ↦ elim (process_batch-AddsRowsOf items s1 r (rw e at mem)) [
          | inl old ↦ here d items s r old
          | inr (m, among, own) ↦ inr (m, inr among, own)
        ]
      ]

  pub ingest_loop-AddsRowsOf :
      (fetches : List (Result c.NatsError (List (Item c)))) (s : S j t c bad_json)
      → AddsRowsOf (items_of c fetches) s (ingest_loop j t c bad_json fetches s).1
  ingest_loop-AddsRowsOf fetches s r mem = process_batch-AddsRowsOf (items_of c fetches) s r (
      subst (λ out. Among r (rows out.1.db)) (ingest_loop-eq-process_batch j t c bad_json fetches s)
        mem)
