-- ===== src/External/Json.antt =====
-- `serde_json`: its values, printed and parsed.
use skialith.Common.{ℕ, ◌≡◌, String, Option, none, some, List, [], ◌∷◌, str_eq, if◌then◌else◌}
use skialith.Common.Int.{ℤ, FitsI64}

pub record Json : Type 1 where
  pub Value : Type 0
  pub Error : Type 0
  -- `json!` and a derived `Serialize` build objects from their fields, in order.
  pub object : List (String × Value) → Value
  pub string : String → Value
  pub number : ℤ → Value
  pub get : Value → String → Option Value
  pub as_i64 : Value → Option ℤ
  pub as_str : Value → Option String
  pub to_vec : Value → List ℕ
  pub from_slice : List ℕ → Option Value

-- Of two fields with one key the later counts.
abbrev pub field {ℓ} : {V : Type ℓ} → String → List (String × V) → Option V
field k [] = none
field k ((j, v) ∷ fs) =
    let rest = field k fs in
    elim rest [ some w ↦ some w | none ↦ if str_eq j k then some v else none ]

pub record IsJson (j : Json) : Type 0 where
  pub get-object : (fs : List (String × j.Value)) (k : String) → j.get (j.object fs) k ≡ field k fs
  pub as_i64-number : (x : ℤ) → FitsI64 x → j.as_i64 (j.number x) ≡ some x
  pub as_str-string : (s : String) → j.as_str (j.string s) ≡ some s

-- What is read back is what was printed; so it is for every value without floats.
abbrev pub Reparses : (j : Json) → j.Value → Type 0
Reparses j v = j.from_slice (j.to_vec v) ≡ some v
