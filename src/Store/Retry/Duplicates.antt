-- ===== src/Store/Retry/Duplicates.antt =====
-- A key that is in the table already, or twice in the batch.
use skialith.Common.{
  ℕ, suc, ◌+◌, ◌*◌, ◌^◌, ◌≡◌, sym, ◌∙◌, ◌⊎◌, inl, inr, false, List, [], ◌∷◌, ◌++◌, arith,
}
use mathlib.Core.Bool.{false≢true}
use skialith.Store.Events.{PendingEvent, unique_keys}
use skialith.Store.Backend.{Backend, IsReliable, WriterOf}
use skialith.Store.Flush.{rows_of}
use skialith.Store.Retry.{retry_strategy, flush_batch_with_retry}
use skialith.Store.Retry.Outcome.{
  Outcome, stored, dead_lettered, lost, WrittenAtMostOnce, Unsent, dead,
}
use skialith.Store.Retry.Loop.{flush_batch_with_retry_lem}

-- The documented delays of `tokio_retry`: the n-th is the n-th power of the base, times the factor.
abbrev pub IsExponential : (ℕ → ℕ → ℕ → ℕ) → Type 0
IsExponential backoff = (base factor n : ℕ) → backoff base factor n ≡ base ^ suc n * factor

module _ (b : Backend) (reliable : IsReliable b) where
  open b use {database.{rows}}

  unwritten :
      (w w' : WriterOf b)
      → unique_keys (rows w.db ++ rows_of b w.batch) ≡ false
      → WrittenAtMostOnce b w w'
      → rows w'.db ≡ rows w.db
  unwritten w w' dup (inl same) = same
  unwritten w w' dup (inr (_, unique)) = absurd (false≢true (sym dup ∙ unique))

  discarded :
      (w w' : WriterOf b)
      → IsExponential b.backoff
      → unique_keys (rows w.db ++ rows_of b w.batch) ≡ false
      → Outcome b w w'
      → (rows w'.db ≡ rows w.db)
        × (w'.slept_ms ≡ w.slept_ms + 2020200)
        × ((dead b w'.dead_letter_tx ≡ dead b w.dead_letter_tx ++ w.batch ∷ []) ⊎ Unsent b w w')
  unfolding retry_strategy
  discarded w w' x dup (stored _ unique _) = absurd (false≢true (sym dup ∙ unique))
  discarded w w' x dup (dead_lettered _ taken written slept) =
      (unwritten w w' dup written, omega (arith, slept, x 100 2 0, x 100 2 1, x 100 2 2), inl taken)
  discarded w w' x dup (lost unsent _ written slept) = (
    unwritten w w' dup written,
    omega (arith, slept, x 100 2 0, x 100 2 1, x 100 2 2),
    inr unsent,
  )

  -- With the documented delays of the backoff crate, one key that repeats costs the whole
  -- batch that has it: nothing of it reaches the table, all three delays (200 ms, 20 s and
  -- 2000 s) are slept through, and the batch is gone from the writer, to the dead-letter
  -- channel at best; without that channel it is lost.
  pub duplicate_discards_batch :
      (w : WriterOf b) (ev : PendingEvent) (evs : List PendingEvent)
      → IsExponential b.backoff
      → w.batch ≡ ev ∷ evs
      → unique_keys (rows w.db ++ rows_of b w.batch) ≡ false
      → let w' = flush_batch_with_retry b w in
        (w'.batch ≡ [])
        × (rows w'.db ≡ rows w.db)
        × (w'.slept_ms ≡ w.slept_ms + 2020200)
        × ((dead b w'.dead_letter_tx ≡ dead b w.dead_letter_tx ++ w.batch ∷ []) ⊎ Unsent b w w')
  duplicate_discards_batch w ev evs exponential full dup =
      let (cleared, outcome) = flush_batch_with_retry_lem b reliable w ev evs full in
      let (untouched, slept, gone) =
        discarded w (flush_batch_with_retry b w) exponential dup outcome in
      (cleared, untouched, slept, gone)
