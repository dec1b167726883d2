-- ===== src/Ingest/Poison.antt =====
-- A message whose payload is no JSON.
use skialith.Common.{
  ℕ, ◌≡◌, refl, inl, inr, none, List, [], ◌∷◌, ◌++◌, Result, ok, err, continue, Result-cases,
}
use skialith.External.Json.{Json}
use skialith.Trace.Table.{TraceTable}
use skialith.Ingest.{Delivery, Consumer, json, S, process, process_batch}

module _ (j : Json) (t : TraceTable j.Value) (c : Consumer) (bad_json : List ℕ → j.Error) where
  process_poison :
      (msg : Delivery) (s : S j t c bad_json)
      → j.from_slice msg.payload ≡ none
      → process j t c bad_json (ok msg) s ≡ (err (json (bad_json msg.payload)), s)
  unfolding process
  process_poison msg s h = rw h

  -- A fetched batch that leads to a message that is no JSON ends the ingester with an error at that
  -- message, or before; nothing behind it is inserted or acknowledged, whatever it is.
  pub poison_stops :
      (before after : List (Result c.NatsError Delivery)) (msg : Delivery) (s : S j t c bad_json)
      → j.from_slice msg.payload ≡ none
      → process_batch j t c bad_json (before ++ ok msg ∷ after) s
        ≡ continue
            (process_batch j t c bad_json before s).0
            (λ _ s'. (err (json (bad_json msg.payload)), s'))
            (process_batch j t c bad_json before s).1
  unfolding process_batch
  poison_stops [] after msg s h = rw (h, process_batch)
  poison_stops (item ∷ before) after msg s h =
      elim (Result-cases (process j t c bad_json item s).0) [
        | inl (u, e) ↦ rw e (poison_stops before after msg (process j t c bad_json item s).1 h)
        | inr (x, e) ↦ rw e refl
      ]
