-- ===== src/Benchmark/Sorted.antt =====
-- The sorted list, and how many numbers of a list pass a test.
use skialith.Common.{
  ℕ, zero, suc, ◌+◌, ◌≤◌, ◌<◌, ◌≡◌, refl, sym, ◌∙◌, Bool, true, false, List, [], ◌∷◌, length, leb,
  ltb, ◌==◌, arith, if◌then◌else◌, Bool-cases, inl, inr,
}
use skialith.Benchmark.{get_or, insert_sorted, sort_unstable}

abbrev pub count_if : (ℕ → Bool) → List ℕ → ℕ
count_if f [] = 0
count_if f (x ∷ xs) = (if f x then 1 else 0) + count_if f xs

insert_sorted_first :
    (x y : ℕ) (ys : List ℕ) → leb x y ≡ true → insert_sorted x (y ∷ ys) ≡ x ∷ y ∷ ys
unfolding insert_sorted
insert_sorted_first x y ys h = rw (h, insert_sorted) refl

insert_sorted_later :
    (x y : ℕ) (ys : List ℕ) → leb x y ≡ false → insert_sorted x (y ∷ ys) ≡ y ∷ insert_sorted x ys
unfolding insert_sorted
insert_sorted_later x y ys h = rw (h, insert_sorted) refl

count_if-insert_sorted :
    (f : ℕ → Bool) (x : ℕ) (ys : List ℕ)
    → count_if f (insert_sorted x ys) ≡ (if f x then 1 else 0) + count_if f ys
unfolding insert_sorted
count_if-insert_sorted f x [] = refl
count_if-insert_sorted f x (y ∷ ys) = elim (Bool-cases (leb x y)) [
  | inl first ↦ rw (insert_sorted_first x y ys first) refl
  | inr later ↦ rw (insert_sorted_later x y ys later) (omega (arith, count_if-insert_sorted f x ys))
]

pub count_if-sort_unstable :
    (f : ℕ → Bool) (xs : List ℕ) → count_if f (sort_unstable xs) ≡ count_if f xs
unfolding sort_unstable
count_if-sort_unstable f [] = refl
count_if-sort_unstable f (x ∷ xs) =
    omega (arith, count_if-insert_sorted f x (sort_unstable xs), count_if-sort_unstable f xs)

count_if-true : (xs : List ℕ) → count_if (λ x. true) xs ≡ length xs
count_if-true [] = refl
count_if-true (x ∷ xs) = omega (arith, count_if-true xs)

pub length-sort_unstable : (xs : List ℕ) → length (sort_unstable xs) ≡ length xs
length-sort_unstable xs =
    sym (count_if-true (sort_unstable xs))
    ∙ count_if-sort_unstable (λ x. true) xs
    ∙ count_if-true xs

abbrev pub AllFrom : ℕ → List ℕ → Type 0
AllFrom x [] = Unit {0}
AllFrom x (y ∷ ys) = (x ≤ y) × AllFrom x ys

abbrev pub IsSorted : List ℕ → Type 0
IsSorted [] = Unit {0}
IsSorted (x ∷ xs) = AllFrom x xs × IsSorted xs

AllFrom-mono : (x y : ℕ) (zs : List ℕ) → x ≤ y → AllFrom y zs → AllFrom x zs
AllFrom-mono x y [] le h = tt
AllFrom-mono x y (z ∷ zs) le h = (omega (arith, h.0), AllFrom-mono x y zs le h.1)

AllFrom-insert_sorted :
    (z x : ℕ) (ys : List ℕ) → z ≤ x → AllFrom z ys → AllFrom z (insert_sorted x ys)
unfolding insert_sorted
AllFrom-insert_sorted z x [] le h = (le, tt)
AllFrom-insert_sorted z x (y ∷ ys) le h = elim (Bool-cases (leb x y)) [
  | inl first ↦ rw (insert_sorted_first x y ys first) (le, h)
  | inr later ↦ rw (insert_sorted_later x y ys later) (h.0, AllFrom-insert_sorted z x ys le h.1)
]

IsSorted-insert_sorted : (x : ℕ) (ys : List ℕ) → IsSorted ys → IsSorted (insert_sorted x ys)
unfolding insert_sorted
IsSorted-insert_sorted x [] h = (tt, tt)
IsSorted-insert_sorted x (y ∷ ys) h = elim (Bool-cases (leb x y)) [
  | inl first ↦
      let le : x ≤ y = ground arith in
      rw (insert_sorted_first x y ys first) ((le, AllFrom-mono x y ys le h.0), h)
  | inr later ↦
      rw (insert_sorted_later x y ys later)
        (AllFrom-insert_sorted y x ys (ground arith) h.0, IsSorted-insert_sorted x ys h.1)
]

pub sort_unstable-IsSorted : (xs : List ℕ) → IsSorted (sort_unstable xs)
unfolding sort_unstable
sort_unstable-IsSorted [] = tt
sort_unstable-IsSorted (x ∷ xs) =
    IsSorted-insert_sorted x (sort_unstable xs) (sort_unstable-IsSorted xs)

AllFrom-get_or : (x : ℕ) (ys : List ℕ) (i : ℕ) → i < length ys → AllFrom x ys → x ≤ get_or ys i 0
AllFrom-get_or x [] i h all = absurd (omega (arith, h))
AllFrom-get_or x (y ∷ ys) zero h all = all.0
AllFrom-get_or x (y ∷ ys) (suc i) h all = AllFrom-get_or x ys i (omega arith) all.1

pub get_or_mono :
    (ys : List ℕ) (i j : ℕ) → i ≤ j → j < length ys → IsSorted ys → get_or ys i 0 ≤ get_or ys j 0
get_or_mono [] i j le h s = absurd (omega (arith, h))
get_or_mono (y ∷ ys) zero zero le h s = omega arith
get_or_mono (y ∷ ys) zero (suc j) le h s = AllFrom-get_or y ys j (omega arith) s.0
get_or_mono (y ∷ ys) (suc i) zero le h s = absurd (omega (arith, le))
get_or_mono (y ∷ ys) (suc i) (suc j) le h s = get_or_mono ys i j (omega arith) (omega arith) s.1

count_below : (x : ℕ) (ys : List ℕ) → AllFrom x ys → count_if (λ y. ltb y x) ys ≡ 0
count_below x [] h = refl
count_below x (y ∷ ys) h = ground (arith, h.0, count_below x ys h.1)

-- In a sorted list more than i elements are no greater than the one at i, and no more than i are less.
pub get_or_counts :
    (ys : List ℕ) (i : ℕ)
    → i < length ys
    → IsSorted ys
    → (i < count_if (λ y. leb y (get_or ys i 0)) ys)
      × (count_if (λ y. ltb y (get_or ys i 0)) ys ≤ i)
get_or_counts [] i h s = absurd (omega (arith, h))
get_or_counts (y ∷ ys) zero h s = ground (arith, count_below y ys s.0)
get_or_counts (y ∷ ys) (suc i) h s =
    ground (arith, get_or_counts ys i (omega arith) s.1, AllFrom-get_or y ys i (omega arith) s.0)

pub get_or_occurs :
    (ys : List ℕ) (i : ℕ) → i < length ys → 0 < count_if (λ y. y == get_or ys i 0) ys
get_or_occurs [] i h = absurd (omega (arith, h))
get_or_occurs (y ∷ ys) zero h = ground arith
get_or_occurs (y ∷ ys) (suc i) h = ground (arith, get_or_occurs ys i (omega arith))
