-- ===== src/Ingest/Acked.antt =====
-- The messages that the ingester has acknowledged, and their rows.
use skialith.Common.{
  ℕ, ◌≡◌, sym, subst, ◌⊎◌, inl, inr, true, some, List, [], ◌∷◌, ◌++◌, Result, ok, err, Result-cases,
  Option-cases,
}
use skialith.External.Json.{Json}
use skialith.Trace.{AgentTrace, bind_row, insert}
use skialith.Trace.Table.{TraceTable, has_step}
use skialith.Trace.Keyed.{IsKeyed}
use skialith.Trace.Insert.{insert_ok-has_step, insert_keeps}
use skialith.Ingest.{
  Delivery, Consumer, S, trace_of, process, process_message, process_batch, ingest_loop,
}

-- An acknowledgement is sent, or fails, and none is sent for another message.
pub record Acks (c : Consumer) : Type 0 where
  pub ack_sent :
      (d : Delivery) (a : c.Acks)
      → (c.acked (c.ack d a).1 ≡ c.acked a ++ d ∷ []) ⊎ (c.acked (c.ack d a).1 ≡ c.acked a)

module _ (j : Json) (t : TraceTable j.Value) (c : Consumer) (bad_json : List ℕ → j.Error) where
  open t use {rows}

  -- The payload is JSON, and the table has a row for the agent and the step of the message.
  abbrev pub IsPersisted : t.Db → Delivery → Type 0
  IsPersisted db d =
      (payload : j.Value) × (j.from_slice d.payload ≡ some payload)
      × (has_step (bind_row (trace_of j d payload)) (rows db) ≡ true)

  abbrev pub AllPersisted : t.Db → List Delivery → Type 0
  AllPersisted db [] = Unit {0}
  AllPersisted db (d ∷ ds) = IsPersisted db d × AllPersisted db ds

  abbrev pub AckedPersisted : S j t c bad_json → Type 0
  AckedPersisted s = AllPersisted s.db (c.acked s.acks)

  AllPersisted-snoc :
      (db : t.Db) (ds : List Delivery) (d : Delivery)
      → AllPersisted db ds
      → IsPersisted db d
      → AllPersisted db (ds ++ d ∷ [])
  AllPersisted-snoc db [] d h k = (k, tt)
  AllPersisted-snoc db (x ∷ ds) d h k = (h.0, AllPersisted-snoc db ds d h.1 k)

  module _ (keyed : IsKeyed t) (acks : Acks c) where
    IsPersisted-insert :
        (trace : AgentTrace j.Value) (db : t.Db) (d : Delivery)
        → IsPersisted db d
        → IsPersisted (insert t trace db).1 d
    IsPersisted-insert trace db d (payload, e, h) =
        (payload, e, insert_keeps t keyed trace db (bind_row (trace_of j d payload)) h)

    AllPersisted-insert :
        (trace : AgentTrace j.Value) (db : t.Db) (ds : List Delivery)
        → AllPersisted db ds
        → AllPersisted (insert t trace db).1 ds
    AllPersisted-insert trace db [] h = tt
    AllPersisted-insert trace db (d ∷ ds) h =
        (IsPersisted-insert trace db d h.0, AllPersisted-insert trace db ds h.1)

    AckedPersisted-ack :
        (db : t.Db) (a : c.Acks) (d : Delivery)
        → AllPersisted db (c.acked a)
        → IsPersisted db d
        → AllPersisted db (c.acked (c.ack d a).1)
    AckedPersisted-ack db a d h k = elim (acks.ack_sent d a) [
      | inl sent ↦ subst (AllPersisted db) (sym sent) (AllPersisted-snoc db (c.acked a) d h k)
      | inr same ↦ subst (AllPersisted db) (sym same) h
    ]

    process_message-AckedPersisted :
        (msg : Delivery) (s : S j t c bad_json)
        → AckedPersisted s
        → AckedPersisted (process_message j t c bad_json msg s).1
    unfolding process_message
    process_message-AckedPersisted msg s h = elim (Option-cases (j.from_slice msg.payload)) [
      | inl e ↦ rw e h
      | inr (payload, e) ↦
          let trace : AgentTrace j.Value = trace_of j msg payload in
          let grown = AllPersisted-insert trace s.db (c.acked s.acks) h in
          rw e (elim (Result-cases (insert t trace s.db).0) [
            | inr (x, failed) ↦ rw failed grown
            | inl (u, done) ↦ rw done (
                AckedPersisted-ack (insert t trace s.db).1 s.acks msg grown
                  (payload, e, insert_ok-has_step t keyed trace s.db done))
          ])
    ]

    process_batch-AckedPersisted :
        (items : List (Result c.NatsError Delivery)) (s : S j t c bad_json)
        → AckedPersisted s
        → AckedPersisted (process_batch j t c bad_json items s).1
    unfolding process_batch process
    process_batch-AckedPersisted [] s h = h
    process_batch-AckedPersisted (err e ∷ items) s h = h
    process_batch-AckedPersisted (ok msg ∷ items) s h =
        let h' = process_message-AckedPersisted msg s h in
        elim (Result-cases (process_message j t c bad_json msg s).0) [
          | inl (u, e) ↦
              rw e (process_batch-AckedPersisted items (process_message j t c bad_json msg s).1 h')
          | inr (x, e) ↦ rw e h'
        ]

    -- At-least-once ingestion: at whatever point and with whatever error the loop stops, every
    -- message that it has acknowledged has its row in the table.
    pub ingest_loop-AckedPersisted :
        (fetches : List (Result c.NatsError (List (Result c.NatsError Delivery))))
        (s : S j t c bad_json)
        → AckedPersisted s
        → AckedPersisted (ingest_loop j t c bad_json fetches s).1
    unfolding ingest_loop
    ingest_loop-AckedPersisted [] s h = h
    ingest_loop-AckedPersisted (err e ∷ rest) s h = h
    ingest_loop-AckedPersisted (ok items ∷ rest) s h =
        let h' = process_batch-AckedPersisted items s h in
        elim (Result-cases (process_batch j t c bad_json items s).0) [
          | inl (u, e) ↦
              rw e (ingest_loop-AckedPersisted rest (process_batch j t c bad_json items s).1 h')
          | inr (x, e) ↦ rw e h'
        ]
