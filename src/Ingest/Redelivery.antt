-- ===== src/Ingest/Redelivery.antt =====
-- A message that is delivered again, after a lost acknowledgement or to a restarted ingester.
use skialith.Common.{
  ℕ, ◌≡◌, refl, sym, ap, ◌∙◌, inl, inr, true, Option, Bool, false, ◌&&◌, str_eq, arith, Bool-cases,
  eq_iff, ◌↔◌, map_err, none, some, List, [], ◌∷◌, Result, ok, err, Result-cases, Option-cases,
}
use mathlib.Core.Bool.{false≢true}
use skialith.Common.Text.{contains}
use skialith.External.Json.{Json}
use skialith.Trace.{AgentTrace, bind_row, is_duplicate, insert}
use skialith.Trace.Table.{TraceRow, DatabaseError, TraceTable, has_step}
use skialith.Trace.Keyed.{IsKeyed}
use skialith.Trace.Insert.{
  Inserted, added, already_there, failed, insert-Inserted, insert_ok-has_step, insert_keeps,
}
use skialith.Ingest.{
  Delivery, Consumer, S, E, nats, sqlx, trace_of, process_message, process_batch, process,
  ingest_loop,
}

module _ (j : Json) (t : TraceTable j.Value) (c : Consumer) (bad_json : List ℕ → j.Error) where
  -- A message whose payload parses changes the database as its trace does.
  pub process_message_db :
      (msg : Delivery) (payload : j.Value) (s : S j t c bad_json)
      → j.from_slice msg.payload ≡ some payload
      → (process_message j t c bad_json msg s).1.db ≡ (insert t (trace_of j msg payload) s.db).1
  unfolding process_message
  process_message_db msg payload s e =
      rw e (elim (Result-cases (insert t (trace_of j msg payload) s.db).0) [
        | inl (u, h) ↦ rw h refl
        | inr (x, h) ↦ rw h refl
      ])

module _ (j : Json) (t : TraceTable j.Value) (c : Consumer) (bad_json : List ℕ → j.Error)
    (keyed : IsKeyed t) where
  open t use {rows}

  abbrev HasStep : TraceRow j.Value → S j t c bad_json → Type 0
  HasStep x s = has_step x (rows s.db) ≡ true

  HasStep-parsed :
      (x : TraceRow j.Value) (msg : Delivery) (payload : j.Value) (s : S j t c bad_json)
      → j.from_slice msg.payload ≡ some payload
      → HasStep x s
      → HasStep x (process_message j t c bad_json msg s).1
  HasStep-parsed x msg payload s e h =
      ap (λ db. has_step x (rows db)) (process_message_db j t c bad_json msg payload s e)
      ∙ insert_keeps t keyed (trace_of j msg payload) s.db x h

  pub process_message_poison :
      (msg : Delivery) (s : S j t c bad_json)
      → j.from_slice msg.payload ≡ none
      → (process_message j t c bad_json msg s).1 ≡ s
  unfolding process_message
  process_message_poison msg s e = rw e refl

  HasStep-process_message :
      (x : TraceRow j.Value) (msg : Delivery) (s : S j t c bad_json)
      → HasStep x s
      → HasStep x (process_message j t c bad_json msg s).1
  HasStep-process_message x msg s h = elim (Option-cases (j.from_slice msg.payload)) [
    | inl e ↦ ap (λ s. has_step x (rows s.db)) (process_message_poison msg s e) ∙ h
    | inr (payload, e) ↦ HasStep-parsed x msg payload s e h
  ]

  HasStep-process_batch :
      (x : TraceRow j.Value) (items : List (Result c.NatsError Delivery)) (s : S j t c bad_json)
      → HasStep x s
      → HasStep x (process_batch j t c bad_json items s).1
  unfolding process_batch process
  HasStep-process_batch x [] s h = h
  HasStep-process_batch x (err e ∷ items) s h = h
  HasStep-process_batch x (ok msg ∷ items) s h =
      let h' = HasStep-process_message x msg s h in
      elim (Result-cases (process_message j t c bad_json msg s).0) [
        | inl (u, e) ↦
            rw e (HasStep-process_batch x items (process_message j t c bad_json msg s).1 h')
        | inr (y, e) ↦ rw e h'
      ]

  HasStep-ingest_loop :
      (x : TraceRow j.Value)
      (fetches : List (Result c.NatsError (List (Result c.NatsError Delivery))))
      (s : S j t c bad_json)
      → HasStep x s
      → HasStep x (ingest_loop j t c bad_json fetches s).1
  unfolding ingest_loop
  HasStep-ingest_loop x [] s h = h
  HasStep-ingest_loop x (err e ∷ rest) s h = h
  HasStep-ingest_loop x (ok items ∷ rest) s h =
      let h' = HasStep-process_batch x items s h in
      elim (Result-cases (process_batch j t c bad_json items s).0) [
        | inl (u, e) ↦ rw e (HasStep-ingest_loop x rest (process_batch j t c bad_json items s).1 h')
        | inr (y, e) ↦ rw e h'
      ]

  Inserted-same :
      (trace : AgentTrace j.Value) (db db' : t.Db) (r : Result t.DbError (Unit {0}))
      → Inserted t keyed trace db db' r
      → has_step (bind_row trace) (rows db) ≡ true
      → rows db' ≡ rows db
  Inserted-same trace db db' r (added _ new) old = absurd (false≢true (sym new ∙ old))
  Inserted-same trace db db' r (already_there same _) old = same
  Inserted-same trace db db' r (failed e same) old = same

  -- SQLSTATE 23000 with a message that says so.
  abbrev pub ReportsDuplicate : t.DbError → Type 0
  ReportsDuplicate e =
      (d : DatabaseError) × (t.as_database_error e ≡ some d)
      × (d.code ≡ some "23000")
      × (contains d.message "Duplicate" ≡ true)

  and_both : (a b : Bool) → (a && b) ≡ true → (a ≡ true) × (b ≡ true)
  and_both true b h = (refl, h)
  and_both false b h = cc

  reported :
      (x : Option DatabaseError)
      → is_duplicate x ≡ true
      → (d : DatabaseError) × (x ≡ some d)
        × (d.code ≡ some "23000")
        × (contains d.message "Duplicate" ≡ true)
  unfolding is_duplicate
  reported none h = cc
  reported (some d) h = elim (Option-cases d.code) [
    | inl e ↦ absurd (false≢true (rw e at h))
    | inr (code, e) ↦
        let both : (str_eq code "23000" && contains d.message "Duplicate") ≡ true = rw e at h in
        let (same, says) = and_both (str_eq code "23000") (contains d.message "Duplicate") both in
        (d, refl, e ∙ ap some (ground (arith, eq_iff code "23000", same)), says)
  ]

  reported_iff :
      (e : t.DbError) → (is_duplicate (t.as_database_error e) ≡ true) ↔ ReportsDuplicate e
  unfolding is_duplicate
  reported_iff e =
      (reported (t.as_database_error e), λ (d, same, code, message). rw (same, code, message) refl)

  -- How a message ends that is processed again in the state `later`.
  pub data NothingAdded (msg : Delivery) (trace : AgentTrace j.Value) (later : S j t c bad_json)
      : Result (E j t c bad_json) (Unit {0}) × S j t c bad_json → Type 0 where
    acknowledged :
        (e : t.DbError) (db : t.Db)
        → (t.execute (bind_row trace) later.db).0 ≡ err e
        → ReportsDuplicate e
        → rows db ≡ rows later.db
        → NothingAdded msg trace later (
          map_err nats (c.ack msg later.acks).0,
          record { db = db; acks = (c.ack msg later.acks).1 },
        )
    failed_again :
        (e : t.DbError) (db : t.Db)
        → (t.execute (bind_row trace) later.db).0 ≡ err e
        → ¬ ReportsDuplicate e
        → rows db ≡ rows later.db
        → NothingAdded msg trace later (err (sqlx e), record { db = db; acks = later.acks })

  NothingAdded-process_message :
      (msg : Delivery) (payload : j.Value) (later : S j t c bad_json)
      → j.from_slice msg.payload ≡ some payload
      → has_step (bind_row (trace_of j msg payload)) (rows later.db) ≡ true
      → NothingAdded msg (trace_of j msg payload) later (process_message j t c bad_json msg later)
  unfolding process_message insert
  NothingAdded-process_message msg payload later parsed old =
      let trace : AgentTrace j.Value = trace_of j msg payload in
      let db = (t.execute (bind_row trace) later.db).1 in
      let same : rows db ≡ rows later.db =
        Inserted-same trace later.db _ _ (insert-Inserted t keyed trace later.db) old in
      rw parsed (elim (Result-cases (t.execute (bind_row trace) later.db).0) [
        | inl (u, e) ↦
            absurd (false≢true (sym (keyed.execute_ok (bind_row trace) later.db u e).1 ∙ old))
        | inr (x, e) ↦ rw e (elim (Bool-cases (is_duplicate (t.as_database_error x))) [
          | inl dup ↦ rw dup (acknowledged x db e ((reported_iff x).0 dup) same)
          | inr other ↦
              rw other
                (failed_again x db e (λ r. false≢true (sym other ∙ (reported_iff x).1 r)) same)
        ])
      ])

  -- Delivered again, a message adds nothing: once its row is inserted, whether or not it was
  -- acknowledged then, and whatever is ingested in between, processing it again leaves the table as
  -- it is. The database refuses the row; if it reports a duplicate, with SQLSTATE 23000 and that
  -- word, the message is acknowledged and the answer is that of the acknowledgement; on any other
  -- error it answers that error and acknowledges nothing.
  pub redelivered_adds_nothing :
      (msg : Delivery) (payload : j.Value) (s : S j t c bad_json)
      (between : List (Result c.NatsError (List (Result c.NatsError Delivery))))
      → j.from_slice msg.payload ≡ some payload
      → (insert t (trace_of j msg payload) s.db).0 ≡ ok tt
      → let later =
          (ingest_loop j t c bad_json between (process_message j t c bad_json msg s).1).1 in
        NothingAdded msg (trace_of j msg payload) later (process_message j t c bad_json msg later)
  redelivered_adds_nothing msg payload s between e done =
      let trace : AgentTrace j.Value = trace_of j msg payload in
      let s1 : S j t c bad_json = (process_message j t c bad_json msg s).1 in
      let later : S j t c bad_json = (ingest_loop j t c bad_json between s1).1 in
      let here : HasStep (bind_row trace) s1 =
        ap (λ db. has_step (bind_row trace) (rows db))
          (process_message_db j t c bad_json msg payload s e)
        ∙ insert_ok-has_step t keyed trace s.db done in
      NothingAdded-process_message msg payload later e
        (HasStep-ingest_loop (bind_row trace) between s1 here)
