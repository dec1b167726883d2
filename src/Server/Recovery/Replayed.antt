-- ===== src/Server/Recovery/Replayed.antt =====
-- The log, the ingester and `resume_agent` together.
use mathlib.Core.List.{append_assoc}
use skialith.Common.{
  ℕ, ◌^◌, ◌<◌, ◌≡◌, refl, sym, ap, ◌∙◌, subst, ◌⊎◌, String, false, List, [], ◌++◌, Result, ok, err,
  Among, Among-append,
}
use skialith.Common.Text.{has_dot}
use skialith.External.Json.{IsJson, Reparses}
use skialith.Trace.Table.{TraceTable}
use skialith.Trace.Keyed.{IsKeyed}
use skialith.Ingest.{Consumer, S, E, process_batch, ingest_loop}
use skialith.Ingest.Items.{Item, items_of, ingest_loop-eq-process_batch}
use skialith.Resurrection.{AgentState, resume_agent}
use skialith.Resurrection.Resume.{resume_agent-Resumed}
use skialith.Store.SaveEvent.{Services}
use skialith.Server.Recovery.Filed.{SavedEvent, HasRows, nth_state}
use skialith.Server.Recovery.Filed.{Out, Caught, nth_items, numbers_of, process_batch-Caught}
use skialith.Server.Recovery.LastSaved.{LastSaved, LastSaved-Resumed}

module _ (v : Services) (isJson : IsJson v.json) (t : TraceTable v.json.Value) (keyed : IsKeyed t)
    (log : ℕ → SavedEvent v.json.Value) where
  open v use {json.{Value}}
  open t use {rows}

  module _ (c : Consumer) (bad_json : List ℕ → v.json.Error)
      (plain : (n : ℕ) → has_dot (log n).agent_id ≡ false)
      (parses : (n : ℕ) → Reparses v.json (nth_state v isJson t keyed log n)) where
    -- The log is the state: whatever is fetched of it, in whatever order and however often, and
    -- wherever the ingester fails, be it at a fetch, a message or the database, an agent resumes from its event with the highest number among
    -- those that the table had before and a first part of the fetched ones, which is all of them
    -- unless the ingester has ended with an error; it is given that event's envelope under that
    -- number, and is new if none of these events is its own. The messages fetched are those of
    -- saved events, whose agents' identifiers have no dot, whose envelopes parse back and whose
    -- numbers in the stream are below 2 ^ 31; the table had rows of such messages alone; and the
    -- query succeeds.
    pub resume_agent-LastSaved :
        (before : List ℕ) (items : List (Result c.NatsError ℕ))
        (fetches : List (Result c.NatsError (List (Item c)))) (s : S v.json t c bad_json)
        (agent_id : String) (state : AgentState Value)
        → items_of c fetches ≡ nth_items v isJson t keyed log c bad_json plain parses items
        → HasRows v isJson t keyed log (rows s.db) before
        → ((n : ℕ)
            → Among n (before ++ numbers_of v isJson t keyed log c bad_json plain parses items)
            → n < 2 ^ 31)
        → (resume_agent v.json t agent_id (ingest_loop v.json t c bad_json fetches s).1.db).0
          ≡ ok state
        → (done : List ℕ) × (left : List ℕ) × (numbers_of v isJson t keyed log c bad_json plain
              parses items
            ≡ done ++ left)
          × ((left ≡ [])
              ⊎ ((e : E v.json t c bad_json) × ((ingest_loop v.json t c bad_json fetches s).0
                    ≡ err e)))
          × LastSaved v isJson t keyed log agent_id (before ++ done) state
    resume_agent-LastSaved before items fetches s agent_id state same h small answer =
        let ns = numbers_of v isJson t keyed log c bad_json plain parses items in
        let out : Out v isJson t keyed log c bad_json plain parses =
          ingest_loop v.json t c bad_json fetches s in
        let one_loop =
          ingest_loop-eq-process_batch v.json t c bad_json fetches s
          ∙ ap (λ l. process_batch v.json t c bad_json l s) same in
        let caught : Caught v isJson t keyed log c bad_json plain parses before ns out =
          subst (Caught v isJson t keyed log c bad_json plain parses before ns) (sym one_loop)
            (process_batch-Caught v isJson t keyed log c bad_json plain parses before items s h) in
        let all : before ++ ns ≡ (before ++ caught.done) ++ caught.left =
          ap (λ l. before ++ l) caught.in_order
          ∙ sym (append_assoc before caught.done caught.left) in
        (
          caught.done,
          caught.left,
          caught.in_order,
          caught.complete,
          LastSaved-Resumed v isJson t keyed log (rows out.1.db) (before ++ caught.done)
              caught.table
              (λ n mem. small n (
                subst (Among n) (sym all) (Among-append n (before ++ caught.done) caught.left mem)))
              agent_id out.1.db _ state refl
              (resume_agent-Resumed v.json t keyed agent_id out.1.db).0 answer,
        )
