-- ===== src/Common/Updates.antt =====
-- A family of things by number, changed at one number.
use Prim.Native.Nat.{ℕ}
use native.Mathlib.Decide.{ℕ_discrete}
use mathlib.Core.Path.{◌≡◌, refl, ap, ◌∙◌, subst}
use mathlib.Core.Logic.{◌≢◌, ite, if_pos, if_neg}

abbrev pub update {ℓ} : {A : Type ℓ} → (ℕ → A) → ℕ → A → ℕ → A
update f i a j = ite (ℕ_discrete i j) a (f j)

pub update-all {ℓ κ} :
    {A : Type ℓ} (P : A → Type κ) (f : ℕ → A) (i : ℕ) (a : A)
    → P a
    → ((j : ℕ) → P (f j))
    → (j : ℕ) → P (update f i a j)
update-all P f i a h all j = elim (ℕ_discrete i j) [
  | yes e ↦ rw (if_pos _ e) h
  | no e ↦ rw (if_neg _ e) (all j)
]

-- An update with a value of the same image changes no image.
pub ap-update {ℓ κ} :
    {A : Type ℓ} {B : Type κ} (g : A → B) (f : ℕ → A) (i : ℕ) (a : A)
    → g a ≡ g (f i)
    → (j : ℕ) → g (update f i a j) ≡ g (f j)
ap-update g f i a h j = elim (ℕ_discrete i j) [
  | yes e ↦ rw (if_pos _ e) (h ∙ ap (λ k. g (f k)) e)
  | no e ↦ rw (if_neg _ e) refl
]

-- A property of each number and its value, where the changed value has it too.
pub update-each {ℓ κ} :
    {A : Type ℓ} (P : ℕ → A → Type κ) (f : ℕ → A) (i : ℕ) (a : A)
    → P i a
    → ((j : ℕ) → i ≢ j → P j (f j))
    → (j : ℕ) → P j (update f i a j)
update-each P f i a h others j = elim (ℕ_discrete i j) [
  | yes e ↦ rw (if_pos _ e) (subst (λ k. P k a) e h)
  | no e ↦ rw (if_neg _ e) (others j e)
]

pub update-at {ℓ} : {A : Type ℓ} (f : ℕ → A) (i : ℕ) (a : A) → update f i a i ≡ a
update-at f i a =
    update-each (λ j b. i ≡ j → b ≡ a) f i a (λ e. refl) (λ j other e. absurd (other e)) i refl

pub update-other {ℓ} :
    {A : Type ℓ} (f : ℕ → A) (i : ℕ) (a : A) (j : ℕ) → i ≢ j → update f i a j ≡ f j
update-other f i a =
    update-each (λ j b. i ≢ j → b ≡ f j) f i a (λ other. absurd (other refl)) (λ j other _. refl)
