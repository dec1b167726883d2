-- ===== src/Common/Members.antt =====
-- The elements of a list.
use mathlib.Core.Path.{◌≡◌, refl, sym}
use mathlib.Core.Logic.{◌⊎◌, inl, inr}
use mathlib.Core.List.{List, [], ◌∷◌, ◌++◌}

module _ {A : Type 0} where
  -- An element of a list, with where it stands.
  abbrev pub Among : A → List A → Type 0
  Among a [] = ⊥
  Among a (x ∷ xs) = (a ≡ x) ⊎ Among a xs

  pub Among-append : (a : A) (xs ys : List A) → Among a xs → Among a (xs ++ ys)
  Among-append a [] ys h = elim h [ ]
  Among-append a (x ∷ xs) ys (inl e) = inl e
  Among-append a (x ∷ xs) ys (inr h) = inr (Among-append a xs ys h)

  pub Among-last : (a : A) (xs : List A) → Among a (xs ++ a ∷ [])
  Among-last a [] = inl refl
  Among-last a (x ∷ xs) = inr (Among-last a xs)

  pub Among-snoc : (a : A) (xs : List A) (b : A) → Among a (xs ++ b ∷ []) → Among a xs ⊎ (a ≡ b)
  Among-snoc a [] b (inl e) = inr e
  Among-snoc a [] b (inr h) = elim h [ ]
  Among-snoc a (x ∷ xs) b (inl e) = inl (inl e)
  Among-snoc a (x ∷ xs) b (inr h) = elim (Among-snoc a xs b h) [
    | inl k ↦ inl (inr k)
    | inr e ↦ inr e
  ]

  -- No element twice.
  abbrev pub Distinct : List A → Type 0
  Distinct [] = Unit {0}
  Distinct (x ∷ xs) = (¬ Among x xs) × Distinct xs

  pub Distinct-snoc : (xs : List A) (b : A) → Distinct xs → ¬ Among b xs → Distinct (xs ++ b ∷ [])
  Distinct-snoc [] b d h = (λ m. m, tt)
  Distinct-snoc (x ∷ xs) b d h = (
    λ m. elim (Among-snoc x xs b m) [ inl old ↦ d.0 old | inr e ↦ h (inl (sym e)) ],
    Distinct-snoc xs b d.1 (λ m. h (inr m)),
  )
