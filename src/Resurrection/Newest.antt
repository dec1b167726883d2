-- ===== src/Resurrection/Newest.antt =====
-- The row that the query selects.
use skialith.Common.{
  ◌≡◌, refl, sym, subst, ◌⊎◌, inl, inr, String, true, false, Option, none, some, List, [], ◌∷◌,
  Bool-cases, Among, arith,
}
use skialith.Common.Int.{ℤ, ◌≤ℤ◌, ltb_ℤ}
use skialith.Trace.Table.{TraceRow}
use skialith.Trace.Keyed.{is_checkpoint, higher, newest}

module _ {Value : Type 0} where
  -- No row of the agent has a step above `top`.
  abbrev pub Highest : String → ℤ → List (TraceRow Value) → Type 0
  Highest agent_id top [] = Unit {0}
  Highest agent_id top (x ∷ xs) =
      ((is_checkpoint agent_id x ≡ false) ⊎ (x.step_index ≤ℤ top)) × Highest agent_id top xs

  abbrev pub NoCheckpoint : String → List (TraceRow Value) → Type 0
  NoCheckpoint agent_id [] = Unit {0}
  NoCheckpoint agent_id (x ∷ xs) = (is_checkpoint agent_id x ≡ false) × NoCheckpoint agent_id xs

  Highest-mono :
      (agent_id : String) (a b : ℤ) (rs : List (TraceRow Value))
      → a ≤ℤ b
      → Highest agent_id a rs
      → Highest agent_id b rs
  Highest-mono agent_id a b [] h k = tt
  Highest-mono agent_id a b (x ∷ rs) h k =
      (elim k.0 [ inl n ↦ inl n | inr l ↦ inr (omega arith) ], Highest-mono agent_id a b rs h k.1)

  Highest-none :
      (agent_id : String) (top : ℤ) (rs : List (TraceRow Value))
      → NoCheckpoint agent_id rs
      → Highest agent_id top rs
  Highest-none agent_id top [] h = tt
  Highest-none agent_id top (x ∷ rs) h = (inl h.0, Highest-none agent_id top rs h.1)

  abbrev pub Newest : String → List (TraceRow Value) → Option (TraceRow Value) → Type 0
  Newest agent_id rs none = NoCheckpoint agent_id rs
  Newest agent_id rs (some r) =
      Among r rs × (is_checkpoint agent_id r ≡ true) × Highest agent_id r.step_index rs

  Newest-other :
      (agent_id : String) (x : TraceRow Value) (rs : List (TraceRow Value))
      (o : Option (TraceRow Value))
      → is_checkpoint agent_id x ≡ false
      → Newest agent_id rs o
      → Newest agent_id (x ∷ rs) o
  Newest-other agent_id x rs none e h = (e, h)
  Newest-other agent_id x rs (some r) e (mem, own, high) = (inr mem, own, (inl e, high))

  higher_below :
      (x r : TraceRow Value) → ltb_ℤ x.step_index r.step_index ≡ true → higher x (some r) ≡ r
  higher_below x r h = rw h

  higher_above :
      (x r : TraceRow Value) → ltb_ℤ x.step_index r.step_index ≡ false → higher x (some r) ≡ x
  higher_above x r h = rw h

  Newest-own :
      (agent_id : String) (x : TraceRow Value) (rs : List (TraceRow Value))
      (o : Option (TraceRow Value))
      → is_checkpoint agent_id x ≡ true
      → Newest agent_id rs o
      → Newest agent_id (x ∷ rs) (some (higher x o))
  Newest-own agent_id x rs none e h =
      (inl refl, e, (inr (omega arith), Highest-none agent_id x.step_index rs h))
  Newest-own agent_id x rs (some r) e (mem, own, high) =
      elim (Bool-cases (ltb_ℤ x.step_index r.step_index)) [
        | inl below ↦
            subst (λ y. Newest agent_id (x ∷ rs) (some y)) (sym (higher_below x r below))
              (inr mem, own, (inr (ground arith), high))
        | inr above ↦
            subst (λ y. Newest agent_id (x ∷ rs) (some y)) (sym (higher_above x r above))
              (
                inl refl,
                e,
                (
                  inr (omega arith),
                  Highest-mono agent_id r.step_index x.step_index rs (ground arith) high,
                ),
              )
      ]

  -- The query finds nothing exactly where the agent has no checkpoint, and otherwise a checkpoint of
  -- the agent, from the table, above which it has no other.
  pub newest-Newest :
      (agent_id : String) (rs : List (TraceRow Value)) → Newest agent_id rs (newest agent_id rs)
  unfolding newest
  newest-Newest agent_id [] = tt
  newest-Newest agent_id (x ∷ rs) =
      let h = newest-Newest agent_id rs in
      elim (Bool-cases (is_checkpoint agent_id x)) [
        | inl own ↦ rw own (Newest-own agent_id x rs (newest agent_id rs) own h)
        | inr other ↦ rw other (Newest-other agent_id x rs (newest agent_id rs) other h)
      ]
