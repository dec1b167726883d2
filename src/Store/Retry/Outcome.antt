-- ===== src/Store/Retry/Outcome.antt =====
-- What becomes of a batch that the writer flushes with retries.
use mathlib.Core.Path.{ap₂}
use mathlib.Core.Bool.{false≢true}
use skialith.Common.{
  sym, ℕ, ◌+◌, ◌≡◌, ap, ◌∙◌, subst, ◌≢◌, ◌⊎◌, inl, inr, Bool, true, false, Option, none, some, List,
  [], ◌∷◌, ◌++◌, ok, err,
}
use skialith.Store.Events.{PendingEvent, unique_keys, unique_keys_twice}
use skialith.Store.Backend.{Backend, IsReliable, WriterOf}
use skialith.Store.Flush.{bind_row, rows_of, flush_batch, flush_batch-Flushes, Flushes}
use skialith.Store.Retry.{retry_strategy}

module _ (b : Backend) where
  open b use {database.{rows}, dead_letters.{Chan, send, accepted}}

  -- The batches that the dead-letter channel has accepted.
  abbrev pub dead : Option Chan → List (List PendingEvent)
  dead none = []
  dead (some c) = accepted c

  abbrev pub sum : List ℕ → ℕ
  sum [] = 0
  sum (x ∷ xs) = x + sum xs

  -- The table is as it was, or has gained the batch once.
  abbrev pub WrittenAtMostOnce : WriterOf b → WriterOf b → Type 0
  WrittenAtMostOnce w w' =
      (rows w'.db ≡ rows w.db)
      ⊎ ((rows w'.db ≡ rows w.db ++ rows_of b w.batch)
          × (unique_keys (rows w.db ++ rows_of b w.batch) ≡ true))

  -- The batch was sent to the dead-letter channel, which took it or refused it.
  abbrev pub Sent : Bool → WriterOf b → WriterOf b → Type 0
  Sent taken w w' =
      (c : Chan) × (w.dead_letter_tx ≡ some c)
      × (w'.dead_letter_tx ≡ some (send w.batch c).1)
      × ((send w.batch c).0 ≡ taken)

  -- There is no such channel, or its receiver is gone.
  abbrev pub Unsent : WriterOf b → WriterOf b → Type 0
  Unsent w w' = ((w.dead_letter_tx ≡ none) × (w'.dead_letter_tx ≡ none)) ⊎ Sent false w w'

  -- Where a batch can end: in the table; in the dead-letter channel; or nowhere, which takes a
  -- store without that channel, or a channel whose receiver is gone.
  pub data Outcome (w w' : WriterOf b) : Type 0 where
    stored :
        rows w'.db ≡ rows w.db ++ rows_of b w.batch
        → unique_keys (rows w.db ++ rows_of b w.batch) ≡ true
        → w'.dead_letter_tx ≡ w.dead_letter_tx
        → Outcome w w'
    dead_lettered :
        Sent true w w'
        → dead w'.dead_letter_tx ≡ dead w.dead_letter_tx ++ w.batch ∷ []
        → WrittenAtMostOnce w w'
        → w'.slept_ms ≡ w.slept_ms + sum (retry_strategy b)
        → Outcome w w'
    lost :
        Unsent w w'
        → dead w'.dead_letter_tx ≡ dead w.dead_letter_tx
        → WrittenAtMostOnce w w'
        → w'.slept_ms ≡ w.slept_ms + sum (retry_strategy b)
        → Outcome w w'

  -- The state between two attempts.
  pub record Tried (w v : WriterOf b) : Type 0 where
    pub batch : v.batch ≡ w.batch
    pub written : WrittenAtMostOnce w v
    pub channel : v.dead_letter_tx ≡ w.dead_letter_tx

  -- How an attempt that started from `v` answers.
  flush_ok :
      IsReliable b
      → (v : WriterOf b) (u : Unit {0}) → (flush_batch b v).0 ≡ ok u
      → Flushes b v (ok u, (flush_batch b v).1)
  flush_ok reliable v u e =
      subst (λ r. Flushes b v (r, (flush_batch b v).1)) e (flush_batch-Flushes b reliable v)

  pub flush_err :
      IsReliable b
      → (v : WriterOf b) (e : b.database.DbError) → (flush_batch b v).0 ≡ err e
      → Flushes b v (err e, (flush_batch b v).1)
  flush_err reliable v e h =
      subst (λ r. Flushes b v (r, (flush_batch b v).1)) h (flush_batch-Flushes b reliable v)

  -- A batch that is in the table already is refused by the unique key.
  not_twice :
      (w v : WriterOf b) (ev : PendingEvent) (evs : List PendingEvent)
      → w.batch ≡ ev ∷ evs
      → rows v.db ≡ rows w.db ++ rows_of b w.batch
      → v.batch ≡ w.batch
      → unique_keys (rows v.db ++ rows_of b v.batch) ≢ true
  not_twice w v ev evs full took same h = false≢true (
      sym (unique_keys_twice (rows w.db) (bind_row b ev) (rows_of b evs))
      ∙ ap unique_keys (ap₂ ◌++◌ (sym rows_eq) (sym batch_eq))
      ∙ h)
    where
      batch_eq : rows_of b v.batch ≡ rows_of b (ev ∷ evs)
      batch_eq = ap (rows_of b) (same ∙ full)

      rows_eq : rows v.db ≡ rows w.db ++ rows_of b (ev ∷ evs)
      rows_eq = took ∙ ap (λ l. rows w.db ++ rows_of b l) full

  module _ (reliable : IsReliable b) (w : WriterOf b) (ev : PendingEvent) (evs : List PendingEvent)
      (full : w.batch ≡ ev ∷ evs) where
    written_again :
        (v v' : WriterOf b) → Tried w v → WrittenAtMostOnce v v' → WrittenAtMostOnce w v'
    written_again v v' t (inl same) = elim t.written [
      | inl r ↦ inl (same ∙ r)
      | inr (r, u) ↦ inr (same ∙ r, u)
    ]
    written_again v v' t (inr (took, unique)) = elim t.written [
      | inl r ↦
          let both = ap₂ ◌++◌ r (ap (rows_of b) t.batch) in
          inr (took ∙ both, sym (ap unique_keys both) ∙ unique)
      | inr (r, u) ↦ absurd (not_twice w v ev evs full r t.batch unique)
    ]

    pub attempt_err :
        (v : WriterOf b) (e : b.database.DbError)
        → Tried w v
        → (flush_batch b v).0 ≡ err e
        → Tried w (flush_batch b v).1
    attempt_err v e t h =
        let (kept, written, rest) = flush_err reliable v e h in
        record {
          batch = kept ∙ t.batch;
          written = written_again v (flush_batch b v).1 t written;
          channel = rest.0 ∙ t.channel;
        }

    pub attempt_ok :
        (v : WriterOf b) (u : Unit {0})
        → Tried w v
        → (flush_batch b v).0 ≡ ok u
        → ((flush_batch b v).1.batch ≡ []) × Outcome w (flush_batch b v).1
    attempt_ok v u t h =
        let (cleared, wrote, unique, rest) = flush_ok reliable v u h in
        (
          cleared,
          elim t.written [
            | inl r ↦
                let both = ap₂ ◌++◌ r (ap (rows_of b) t.batch) in
                stored (wrote ∙ both) (sym (ap unique_keys both) ∙ unique) (rest.0 ∙ t.channel)
            | inr (r, _) ↦ absurd (not_twice w v ev evs full r t.batch unique)
          ],
        )
