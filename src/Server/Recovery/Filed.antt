-- ===== src/Server/Recovery/Filed.antt =====
-- The rows that the ingester makes of saved events, and how far it comes.
use mathlib.Core.List.{append-nil, append_assoc}
use skialith.Common.{
  ℕ, ◌≡◌, refl, sym, ap, ◌∙◌, subst, ◌⊎◌, inl, inr, String, true, false, List, [], ◌∷◌, ◌++◌,
  Result, ok, err, Result-cases, Among, Among-append, Among-last, Among-snoc,
}
use skialith.Common.Text.{has_dot}
use skialith.External.Json.{IsJson, Reparses}
use skialith.Trace.{bind_row, insert}
use skialith.Trace.Table.{TraceRow, TraceTable, has_step, has_step_self, has_step-append}
use skialith.Trace.Keyed.{IsKeyed}
use skialith.Trace.Insert.{Inserted, added, already_there, failed, insert-Inserted}
use skialith.Ingest.{Delivery, Consumer, S, E, nats, process, process_message, process_batch}
use skialith.Ingest.Items.{Item}
use skialith.Ingest.Refines.{process_message_err, process_batch_stop, process_batch_next}
use skialith.Ingest.Redelivery.{process_message_db}
use skialith.Ingest.Saved.{trace_of_saved}
use skialith.Store.SaveEvent.{Services, envelope}
use skialith.Server.Recovery.{saved_trace, delivered}

-- What a call of `save_event` logged.
pub record SavedEvent (Value : Type 0) : Type 0 where
  pub agent_id : String
  pub event_id : String
  pub payload : Value

module _ (v : Services) (isJson : IsJson v.json) (t : TraceTable v.json.Value) (keyed : IsKeyed t)
    (log : ℕ → SavedEvent v.json.Value) where
  open v use {json.{Value}}
  open t use {rows}

  -- Message `n` of the stream, and the row that it makes.
  abbrev pub nth_message : ℕ → Delivery
  nth_message n = delivered v isJson t keyed (log n).agent_id (log n).event_id (log n).payload n

  abbrev pub nth_state : ℕ → Value
  nth_state n = envelope v (log n).agent_id (log n).event_id (log n).payload

  abbrev pub nth_row : ℕ → TraceRow Value
  nth_row n =
      bind_row (saved_trace v isJson t keyed (log n).agent_id (log n).event_id (log n).payload n)

  -- The table has the rows of these messages, and no other.
  pub record HasRows (table : List (TraceRow Value)) (ns : List ℕ) : Type 0 where
    pub only : (r : TraceRow Value) → Among r table → (n : ℕ) × Among n ns × (r ≡ nth_row n)
    pub all : (n : ℕ) → Among n ns → has_step (nth_row n) table ≡ true

  HasRows-added :
      (table : List (TraceRow Value)) (ns : List ℕ) (n : ℕ) (table' : List (TraceRow Value))
      → table' ≡ table ++ nth_row n ∷ []
      → HasRows table ns
      → HasRows table' (ns ++ n ∷ [])
  HasRows-added table ns n table' gain h = record {
    only = λ r mem. elim (Among-snoc r table (nth_row n) (subst (Among r) gain mem)) [
      | inl old ↦ let (k, mem', e) = h.only r old in (k, Among-append k ns (n ∷ []) mem', e)
      | inr e ↦ (n, Among-last n ns, e)
    ];
    all = λ k mem. elim (Among-snoc k ns n mem) [
      | inl old ↦
          ap (has_step (nth_row k)) gain
          ∙ has_step-append (nth_row k) table (nth_row n ∷ []) (h.all k old)
      | inr e ↦ rw e (ap (has_step (nth_row n)) gain ∙ has_step_self (nth_row n) table)
    ];
  }

  HasRows-same :
      (table : List (TraceRow Value)) (ns : List ℕ) (n : ℕ) (table' : List (TraceRow Value))
      → table' ≡ table
      → has_step (nth_row n) table' ≡ true
      → HasRows table ns
      → HasRows table' (ns ++ n ∷ [])
  HasRows-same table ns n table' same here h = record {
    only = λ r mem.
        let (k, mem', e) = h.only r (subst (Among r) same mem) in
        (k, Among-append k ns (n ∷ []) mem', e);
    all = λ k mem. elim (Among-snoc k ns n mem) [
      | inl old ↦ ap (has_step (nth_row k)) same ∙ h.all k old
      | inr e ↦ rw e here
    ];
  }

  module _ (c : Consumer) (bad_json : List ℕ → v.json.Error)
      (plain : (n : ℕ) → has_dot (log n).agent_id ≡ false)
      (parses : (n : ℕ) → Reparses v.json (nth_state n)) where
    abbrev pub Out : Type 0
    Out = Result (E v.json t c bad_json) (Unit {0}) × S v.json t c bad_json

    -- After one message the table has its row, or the call has failed.
    abbrev Filed : List ℕ → ℕ → Out → Type 0
    Filed ns n (r, s) =
        HasRows (rows s.db) (ns ++ n ∷ [])
        ⊎ (((e : E v.json t c bad_json) × (r ≡ err e)) × HasRows (rows s.db) ns)

    Filed-Inserted :
        (ns : List ℕ) (n : ℕ) (db db' : t.Db) (r : Result t.DbError (Unit {0}))
        → Inserted t keyed
            (saved_trace v isJson t keyed (log n).agent_id (log n).event_id (log n).payload n)
            db
            db'
            r
        → HasRows (rows db) ns
        → HasRows (rows db') (ns ++ n ∷ [])
          ⊎ (((e : t.DbError) × (r ≡ err e)) × HasRows (rows db') ns)
    Filed-Inserted ns n db db' r (added gain _) h =
        inl (HasRows-added (rows db) ns n (rows db') gain h)
    Filed-Inserted ns n db db' r (already_there same old) h =
        inl (HasRows-same (rows db) ns n (rows db') same (ap (has_step (nth_row n)) same ∙ old) h)
    Filed-Inserted ns n db db' r (failed e same) h =
        inr ((e, refl), subst (λ l. HasRows l ns) (sym same) h)

    Filed-process_message :
        (ns : List ℕ) (n : ℕ) (s : S v.json t c bad_json)
        → HasRows (rows s.db) ns
        → Filed ns n (process_message v.json t c bad_json (nth_message n) s)
    Filed-process_message ns n s h =
        let same =
          trace_of_saved v isJson (log n).agent_id (log n).event_id (log n).payload
            (nth_message n).payload n (plain n) in
        let db =
          process_message_db v.json t c bad_json (nth_message n) (nth_state n) s (parses n)
          ∙ ap (λ x. (insert t x s.db).1) same in
        elim (Filed-Inserted ns n s.db _ _ (insert-Inserted t keyed _ s.db) h) [
          | inl there ↦ inl (rw db there)
          | inr ((e, r), old) ↦ inr (
            (
              _,
              process_message_err v.json t c bad_json keyed (nth_message n) (nth_state n) s e
                  (parses n) (ap (λ x. (insert t x s.db).0) same ∙ r),
            ),
            rw db old,
          )
        ]

    -- What is fetched: these messages, and the failures to fetch one, in this order.
    abbrev pub nth_items : List (Result c.NatsError ℕ) → List (Item c)
    nth_items [] = []
    nth_items (ok n ∷ ns) = ok (nth_message n) ∷ nth_items ns
    nth_items (err e ∷ ns) = err e ∷ nth_items ns

    abbrev pub numbers_of : List (Result c.NatsError ℕ) → List ℕ
    numbers_of [] = []
    numbers_of (ok n ∷ ns) = n ∷ numbers_of ns
    numbers_of (err e ∷ ns) = numbers_of ns

    -- A first part of the messages is filed, and all of them unless the run has failed.
    pub record Caught (before ns : List ℕ) (out : Out) : Type 0 where
      pub done : List ℕ
      pub left : List ℕ
      pub in_order : ns ≡ done ++ left
      pub table : HasRows (rows out.1.db) (before ++ done)
      pub complete : (left ≡ []) ⊎ ((e : E v.json t c bad_json) × (out.0 ≡ err e))

    Caught-none :
        (before ns : List ℕ) (out : Out)
        → HasRows (rows out.1.db) before
        → (ns ≡ []) ⊎ ((e : E v.json t c bad_json) × (out.0 ≡ err e))
        → Caught before ns out
    Caught-none before ns out h complete = record {
      done = [];
      left = ns;
      in_order = refl;
      table = subst (HasRows (rows out.1.db)) (sym (append-nil before)) h;
      complete = complete;
    }

    pub process_batch-Caught :
        (before : List ℕ) (ns : List (Result c.NatsError ℕ)) (s : S v.json t c bad_json)
        → HasRows (rows s.db) before
        → Caught before (numbers_of ns) (process_batch v.json t c bad_json (nth_items ns) s)
    unfolding process_batch process
    process_batch-Caught before [] s h = Caught-none before [] _ h (inl refl)
    process_batch-Caught before (err e ∷ ns) s h =
        Caught-none before (numbers_of ns) (err (nats e), s) h (inr (nats e, refl))
    process_batch-Caught before (ok n ∷ ns) s h =
        let s' = (process_message v.json t c bad_json (nth_message n) s).1 in
        let filed = Filed-process_message before n s h in
        let items = nth_items ns in
        elim (Result-cases (process_message v.json t c bad_json (nth_message n) s).0) [
          | inr (e, stopped) ↦
              subst (Caught before (n ∷ numbers_of ns))
                (sym (process_batch_stop v.json t c bad_json (nth_message n) items s e stopped))
                (elim filed [
                  | inl there ↦ record {
                    done = n ∷ [];
                    left = numbers_of ns;
                    in_order = refl;
                    table = there;
                    complete = inr (e, refl);
                  }
                  | inr (_, old) ↦
                      Caught-none before (n ∷ numbers_of ns) (err e, s') old (inr (e, refl))
                ])
          | inl (u, fine) ↦
              subst (Caught before (n ∷ numbers_of ns))
                (sym (process_batch_next v.json t c bad_json (nth_message n) items s u fine))
                (elim filed [
                  | inr ((e, stopped), _) ↦ let p = sym fine ∙ stopped in cc
                  | inl there ↦
                      let rest = process_batch-Caught (before ++ n ∷ []) ns s' there in
                      record {
                        done = n ∷ rest.done;
                        left = rest.left;
                        in_order = ap (λ l. n ∷ l) rest.in_order;
                        table =
                            subst (HasRows _) (append_assoc before (n ∷ []) rest.done) rest.table;
                        complete = rest.complete;
                      }
                ])
        ]
