-- ===== src/Store/Retry.antt =====
-- `flush_batch_with_retry`: up to four attempts, then the dead-letter channel.
pub mod Outcome
pub mod Loop
pub mod Duplicates
use skialith.Common.{
  ℕ, zero, suc, ◌+◌, Bool, true, false, Option, none, some, List, [], ◌∷◌, ok, err, if◌then◌else◌,
}
use skialith.Store.Backend.{Backend, WriterOf}
use skialith.Store.Flush.{flush_batch}

module _ (b : Backend) where
  open b use {dead_letters.{Chan, send}, backoff}

  -- `ExponentialBackoff::from_millis(100).factor(2).take(3)`
  unfoldable pub retry_strategy : List ℕ
  retry_strategy = backoff 100 2 0 ∷ backoff 100 2 1 ∷ backoff 100 2 2 ∷ []

  abbrev pub sleep : ℕ → WriterOf b → WriterOf b
  sleep delay w = record w { slept_ms = w.slept_ms + delay }

  -- The `for` loop, and whether it returned from the function.
  unfoldable pub attempts : List ℕ → WriterOf b → Bool × WriterOf b
  unfolding flush_batch
  attempts [] w = (false, w)
  attempts (delay ∷ delays) w = elim (flush_batch b w).0 [
    | ok _ ↦ (true, (flush_batch b w).1)
    | err _ ↦ attempts delays (sleep delay (flush_batch b w).1)
  ]

  -- All attempts failed: the batch is taken, and sent to the dead-letter channel if there is one.
  unfoldable pub route : Option Chan → WriterOf b → WriterOf b
  route none w = record w { batch = [] }
  route (some tx) w = record w { batch = []; dead_letter_tx = some (send w.batch tx).1 }

  unfoldable pub final_attempt : WriterOf b → WriterOf b
  unfolding flush_batch route
  final_attempt w = elim (flush_batch b w).0 [
    | ok _ ↦ (flush_batch b w).1
    | err _ ↦ route (flush_batch b w).1.dead_letter_tx (flush_batch b w).1
  ]

  unfoldable pub flush_batch_with_retry : WriterOf b → WriterOf b
  unfolding retry_strategy attempts final_attempt
  flush_batch_with_retry w =
      let (returned, w') = attempts retry_strategy w in if returned then w' else final_attempt w'
