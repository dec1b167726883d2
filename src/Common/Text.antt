-- ===== src/Common/Text.antt =====
-- Text as the program takes it apart: `format!` of a prefix and a value, `split('.')`, `split_once`.
use Prim.Native.Char.{Char, code}
use Prim.Native.String.{String}
use mathlib.Core.Path.{◌≡◌, refl, ap, subst}
use text.Mathlib.TextEquality.{Char-path}
use mathlib.Core.Bool.{Bool, true, false, ◌||◌, ◌&&◌}
use mathlib.Core.Logic.{inl, inr}
use mathlib.Core.Option.{Option, none, some}
use mathlib.Core.List.{List, [], ◌∷◌}
use native.Mathlib.Omega.{arith}
use skialith.Common.Tests.{◌==◌, leb, if◌then◌else◌, Bool-cases, Option-cases, some-inj}

infixr 65 ◌<>◌
abbrev pub ◌<>◌ : String → String → String
String.[] <> t = t
(String.◌∷◌ c s) <> t = String.◌∷◌ c (s <> t)

abbrev pub is_dot : Char → Bool
is_dot c = code c == b'.'

unfoldable pub has_dot : String → Bool
has_dot String.[] = false
has_dot (String.◌∷◌ c s) = is_dot c || has_dot s

-- A character joins the first piece.
abbrev onto_first : Char → List String → List String
onto_first c [] = (String.◌∷◌ c String.[]) ∷ []
onto_first c (p ∷ ps) = (String.◌∷◌ c p) ∷ ps

-- `s.split('.')`: never empty.
unfoldable pub split_dot : String → List String
split_dot String.[] = String.[] ∷ []
split_dot (String.◌∷◌ c s) =
    if is_dot c then String.[] ∷ split_dot s else onto_first c (split_dot s)

abbrev onto_left : Char → Option (String × String) → Option (String × String)
onto_left c none = none
onto_left c (some (l, r)) = some (String.◌∷◌ c l, r)

-- `s.split_once('.')`
unfoldable pub split_once_dot : String → Option (String × String)
split_once_dot String.[] = none
split_once_dot (String.◌∷◌ c s) =
    if is_dot c then some (String.[], s) else onto_left c (split_once_dot s)

-- Every piece of a split is free of dots; here, the first.
pub split_dot-first :
    (s : String) → (p : String) × (ps : List String) × (split_dot s ≡ p ∷ ps) × (has_dot p ≡ false)
unfolding split_dot has_dot
split_dot-first String.[] = (String.[], [], refl, refl)
split_dot-first (String.◌∷◌ c s) = elim (Bool-cases (is_dot c)) [
  | inl dot ↦ (String.[], split_dot s, rw dot, refl)
  | inr other ↦
      let (p, ps, e, h) = split_dot-first s in (String.◌∷◌ c p, ps, rw (other, e), rw (other, h))
]

-- A text without a dot is its only piece.
pub split_dot_of_no_dot : (s : String) → has_dot s ≡ false → split_dot s ≡ s ∷ []
unfolding split_dot has_dot
split_dot_of_no_dot String.[] h = refl
split_dot_of_no_dot (String.◌∷◌ c s) h = ground (arith, split_dot_of_no_dot s)

abbrev CutsAtDot : String → String × String → Type 0
CutsAtDot s p = (s ≡ p.0 <> ("." <> p.1)) × (has_dot p.0 ≡ false)

-- `split_once` cuts at the first dot.
pub split_once_dot_sound :
    (s l r : String) → split_once_dot s ≡ some (l, r) → (s ≡ l <> ("." <> r)) × (has_dot l ≡ false)
unfolding split_once_dot has_dot
split_once_dot_sound String.[] l r h = cc
split_once_dot_sound (String.◌∷◌ c s) l r h = elim (Bool-cases (is_dot c)) [
  | inl dot ↦
      subst (CutsAtDot (String.◌∷◌ c s)) (some-inj (rw dot at h))
        (ap (λ d. String.◌∷◌ d s) (Char-path c "." (ground arith)), refl)
  | inr other ↦ elim (Option-cases (split_once_dot s)) [
    | inl e ↦ (let h' = rw (other, e) at h in cc)
    | inr ((l', r'), e) ↦
        let (es, el) = split_once_dot_sound s l' r' e in
        subst (CutsAtDot (String.◌∷◌ c s)) (some-inj (rw (other, e) at h))
          (ap (String.◌∷◌ c) es, rw other el)
  ]
]

pub split_once_dot_complete :
    (l r : String) → has_dot l ≡ false → split_once_dot (l <> ("." <> r)) ≡ some (l, r)
unfolding split_once_dot has_dot
split_once_dot_complete String.[] r h = refl
split_once_dot_complete (String.◌∷◌ c l) r h = ground (arith, split_once_dot_complete l r)

-- White space in the sense of `char::is_whitespace`.
is_whitespace : Char → Bool
is_whitespace c =
    (leb 9 (code c) && leb (code c) 13)
    || (code c == 32)
    || (code c == 0x85)
    || (code c == 0xa0)
    || (code c == 0x1680)
    || (leb 0x2000 (code c) && leb (code c) 0x200a)
    || (code c == 0x2028)
    || (code c == 0x2029)
    || (code c == 0x202f)
    || (code c == 0x205f)
    || (code c == 0x3000)

trim_start : String → String
trim_start String.[] = String.[]
trim_start (String.◌∷◌ c s) =
    let rest = trim_start s in if is_whitespace c then rest else String.◌∷◌ c s

-- A white character stays only before one that stays.
keep_before : Char → String → String
keep_before c String.[] = if is_whitespace c then String.[] else String.◌∷◌ c String.[]
keep_before c (String.◌∷◌ d s) = String.◌∷◌ c (String.◌∷◌ d s)

trim_end : String → String
trim_end String.[] = String.[]
trim_end (String.◌∷◌ c s) = keep_before c (trim_end s)

-- `s.trim()`
unfoldable pub trim : String → String
unfolding trim_start trim_end keep_before is_whitespace
trim s = trim_end (trim_start s)

trimmed : trim "  a b.c \n" ≡ "a b.c"
unfolding trim
trimmed = refl

is_prefix : String → String → Bool
is_prefix String.[] s = true
is_prefix (String.◌∷◌ c p) String.[] = false
is_prefix (String.◌∷◌ c p) (String.◌∷◌ d s) = (code c == code d) && is_prefix p s

-- `s.contains(p)`
unfoldable pub contains : String → String → Bool
unfolding is_prefix
contains String.[] p = is_prefix p String.[]
contains (String.◌∷◌ c s) p = is_prefix p (String.◌∷◌ c s) || contains s p

-- A text with a dot has two pieces at least.
pub split_dot_of_dot :
    (s : String)
    → has_dot s ≡ true
    → (p : String) × (q : String) × (ps : List String) × (split_dot s ≡ p ∷ q ∷ ps)
unfolding split_dot has_dot
split_dot_of_dot String.[] h = cc
split_dot_of_dot (String.◌∷◌ c s) h = elim (Bool-cases (is_dot c)) [
  | inl dot ↦ let (p, ps, e, _) = split_dot-first s in (String.[], p, ps, rw (dot, e))
  | inr other ↦
      let (p, q, ps, e) = split_dot_of_dot s (rw other at h) in
      (String.◌∷◌ c p, q, ps, rw (other, e))
]
