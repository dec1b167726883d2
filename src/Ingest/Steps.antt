-- ===== src/Ingest/Steps.antt =====
-- The step under which a message is filed.
use skialith.Common.{ℕ, ◌^◌, ◌%◌, ◌≡◌, ◌↔◌, sym, ◌∙◌, some, none, arith}
use skialith.Common.Int.{ℤ, as_i32, as_i64, as_i32_of_fits, FitsI32}
use skialith.External.Json.{Json}
use skialith.Ingest.{sequence_of, step_index_of}

as_i32-as_i64_inj : (m n : ℕ) → as_i32 (as_i64 m) ≡ as_i32 (as_i64 n) → m % 2 ^ 32 ≡ n % 2 ^ 32
unfolding as_i32 as_i64
as_i32-as_i64_inj m n h = ground arith

as_i32-as_i64_of_mod : (m n : ℕ) → m % 2 ^ 32 ≡ n % 2 ^ 32 → as_i32 (as_i64 m) ≡ as_i32 (as_i64 n)
unfolding as_i32 as_i64
as_i32-as_i64_of_mod m n h = ground arith

module _ (j : Json) where
  pub fallback :
      (payload : j.Value) (sequence : ℕ)
      → j.get payload "step_index" ≡ none
      → step_index_of j payload (sequence_of (some sequence)) ≡ as_i32 (as_i64 sequence)
  unfolding step_index_of
  fallback payload sequence h = rw h

  -- Two messages whose payloads give no step are filed under the same step exactly if their sequence
  -- numbers in the stream agree up to multiples of 2 ^ 32, to which the cast to i32 folds them.
  pub fallback_steps_iff :
      (p q : j.Value) (m n : ℕ)
      → j.get p "step_index" ≡ none
      → j.get q "step_index" ≡ none
      → step_index_of j p (sequence_of (some m)) ≡ step_index_of j q (sequence_of (some n))
        ↔ m % 2 ^ 32 ≡ n % 2 ^ 32
  fallback_steps_iff p q m n hp hq = (
    λ e. as_i32-as_i64_inj m n (sym (fallback p m hp) ∙ e ∙ fallback q n hq),
    λ e. fallback p m hp ∙ as_i32-as_i64_of_mod m n e ∙ sym (fallback q n hq),
  )

  -- A step that the payload gives is taken as it is if it is an i32, whatever the sequence number.
  pub given_step_kept :
      (payload v : j.Value) (x sequence : ℤ)
      → j.get payload "step_index" ≡ some v
      → j.as_i64 v ≡ some x
      → FitsI32 x
      → step_index_of j payload sequence ≡ x
  unfolding step_index_of
  given_step_kept payload v x sequence h e fits = rw h (rw e (as_i32_of_fits x fits))
