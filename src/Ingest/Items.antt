-- ===== src/Ingest/Items.antt =====
-- The two loops of the ingester as one over all messages.
use skialith.Common.{
  ℕ, ◌≡◌, refl, inl, inr, List, [], ◌∷◌, ◌++◌, Result, ok, err, continue, Result-cases,
}
use skialith.External.Json.{Json}
use skialith.Trace.Table.{TraceTable}
use skialith.Ingest.{Delivery, Consumer, S, process, process_batch, ingest_loop}

module _ (c : Consumer) where
  abbrev pub Item : Type 0
  Item = Result c.NatsError Delivery

  -- What the outer loop meets, in one list: the messages of each fetch, or the error of a fetch.
  unfoldable pub items_of : List (Result c.NatsError (List Item)) → List Item
  items_of [] = []
  items_of (err e ∷ rest) = err e ∷ items_of rest
  items_of (ok items ∷ rest) = items ++ items_of rest

module _ (j : Json) (t : TraceTable j.Value) (c : Consumer) (bad_json : List ℕ → j.Error) where
  open t use {rows}

  pub process_batch-append :
      (xs ys : List (Item c)) (s : S j t c bad_json)
      → process_batch j t c bad_json (xs ++ ys) s
        ≡ continue
            (process_batch j t c bad_json xs s).0
            (λ _. process_batch j t c bad_json ys)
            (process_batch j t c bad_json xs s).1
  unfolding process_batch
  process_batch-append [] ys s = refl
  process_batch-append (item ∷ xs) ys s = elim (Result-cases (process j t c bad_json item s).0) [
    | inl (u, e) ↦ rw e (process_batch-append xs ys (process j t c bad_json item s).1)
    | inr (x, e) ↦ rw e refl
  ]

  -- The two loops are one over all items.
  pub ingest_loop-eq-process_batch :
      (fetches : List (Result c.NatsError (List (Item c)))) (s : S j t c bad_json)
      → ingest_loop j t c bad_json fetches s ≡ process_batch j t c bad_json (items_of c fetches) s
  unfolding ingest_loop items_of
  ingest_loop-eq-process_batch [] s = refl
  ingest_loop-eq-process_batch (err e ∷ rest) s = refl
  ingest_loop-eq-process_batch (ok items ∷ rest) s =
      elim (Result-cases (process_batch j t c bad_json items s).0) [
        | inl (u, e) ↦
            rw (process_batch-append items (items_of c rest) s, e)
              (ingest_loop-eq-process_batch rest (process_batch j t c bad_json items s).1)
        | inr (x, e) ↦ rw (process_batch-append items (items_of c rest) s, e) refl
      ]
