-- ===== src/Benchmark/Quantiles.antt =====
-- What the percentiles that the benchmark prints say of its measurements.
use skialith.Common.{
  ℕ, ◌-◌, ◌*◌, ◌/◌, ◌≤◌, ◌<◌, min, ◌≡◌, refl, ap, List, [], ◌∷◌, length, leb, ltb, ◌==◌, arith,
}
use skialith.Benchmark.{get_or, percentile, sort_unstable, last_or_zero, print_latencies}
use skialith.Benchmark.Sorted.{
  count_if, count_if-sort_unstable, length-sort_unstable, IsSorted, sort_unstable-IsSorted,
  get_or_mono, get_or_counts, get_or_occurs,
}

-- The number v occurs; at least p percent are no greater than it, and at most p percent are less.
abbrev pub IsQuantile : ℕ → ℕ → List ℕ → Type 0
IsQuantile p v xs =
    (0 < count_if (λ x. x == v) xs)
    × (length xs * p ≤ 100 * count_if (λ x. leb x v) xs)
    × (100 * count_if (λ x. ltb x v) xs ≤ length xs * p)

abbrev index : ℕ → ℕ → ℕ
index n p = min (n * p / 100) (n - 1)

percentile-get_or :
    (ys : List ℕ) (p : ℕ) → 0 < length ys → percentile ys p ≡ get_or ys (index (length ys) p) 0
unfolding percentile
percentile-get_or [] p h = absurd (omega (arith, h))
percentile-get_or (y ∷ ys) p h = refl

last-get_or : (ys : List ℕ) → 0 < length ys → last_or_zero ys ≡ get_or ys (length ys - 1) 0
last-get_or [] h = absurd (omega (arith, h))
last-get_or (y ∷ ys) h = ap (λ i. get_or (y ∷ ys) i 0) (omega arith)

mul-le-hundred : (n p : ℕ) → p ≤ 100 → n * p ≤ 100 * n
mul-le-hundred n p h = grind arith

index_ranks :
    (n p le lt : ℕ)
    → 0 < n
    → p ≤ 100
    → index n p < le
    → lt ≤ index n p
    → (n * p ≤ 100 * le) × (100 * lt ≤ n * p)
index_ranks n p le lt pos h a b = omega (arith, mul-le-hundred n p h)

percentile-IsQuantile :
    (ys : List ℕ) (p : ℕ)
    → 0 < length ys
    → p ≤ 100
    → IsSorted ys
    → IsQuantile p (percentile ys p) ys
percentile-IsQuantile ys p pos h s =
    let (a, b) = get_or_counts ys (index (length ys) p) (omega arith) s in
    let ranks = index_ranks (length ys) p _ _ pos h a b in
    rw (percentile-get_or ys p pos)
      (get_or_occurs ys (index (length ys) p) (omega arith), ranks.0, ranks.1)

-- The order of the measurements does not matter.
IsQuantile-sort_unstable :
    (p v : ℕ) (xs : List ℕ) → IsQuantile p v (sort_unstable xs) → IsQuantile p v xs
IsQuantile-sort_unstable p v xs h = omega (
  arith,
  h.0,
  h.1,
  h.2,
  ap (λ n. n * p) (length-sort_unstable xs),
  count_if-sort_unstable (λ x. x == v) xs,
  count_if-sort_unstable (λ x. leb x v) xs,
  count_if-sort_unstable (λ x. ltb x v) xs,
)

quantile :
    (xs : List ℕ) (p : ℕ)
    → 0 < length xs
    → p ≤ 100
    → IsQuantile p (percentile (sort_unstable xs) p) xs
quantile xs p pos h = IsQuantile-sort_unstable p _ xs (
    percentile-IsQuantile (sort_unstable xs) p (omega (arith, length-sort_unstable xs)) h
      (sort_unstable-IsSorted xs))

mul_mono : (n p q : ℕ) → p ≤ q → n * p ≤ n * q
mul_mono n p q h = grind arith

percentile_mono :
    (ys : List ℕ) (p q : ℕ)
    → 0 < length ys
    → p ≤ q
    → IsSorted ys
    → percentile ys p ≤ percentile ys q
percentile_mono ys p q pos le s =
    rw (percentile-get_or ys p pos, percentile-get_or ys q pos)
      (get_or_mono ys (index (length ys) p) (index (length ys) q)
        (omega (arith, mul_mono (length ys) p q le)) (omega arith) s)

percentile-le-last :
    (ys : List ℕ) (p : ℕ) → 0 < length ys → IsSorted ys → percentile ys p ≤ last_or_zero ys
percentile-le-last ys p pos s =
    rw (percentile-get_or ys p pos, last-get_or ys pos)
      (get_or_mono ys (index (length ys) p) (length ys - 1) (omega arith) (omega arith) s)

last-IsQuantile : (ys : List ℕ) → 0 < length ys → IsSorted ys → IsQuantile 100 (last_or_zero ys) ys
last-IsQuantile ys pos s =
    let (a, b) = get_or_counts ys (length ys - 1) (omega arith) s in
    rw (last-get_or ys pos)
      (get_or_occurs ys (length ys - 1) (omega arith), omega (arith, a), omega (arith, b))

-- What is printed for a list of measurements that is not empty: the median, the 95th and the 99th
-- percentile and the maximum, each a measurement with that rank (100 for the maximum), in ascending
-- order, whatever the order of the measurements.
pub print_latencies_lem :
    (x : ℕ) (xs : List ℕ)
    → let l = print_latencies (x ∷ xs) in
      IsQuantile 50 l.p50 (x ∷ xs)
      × IsQuantile 95 l.p95 (x ∷ xs)
      × IsQuantile 99 l.p99 (x ∷ xs)
      × IsQuantile 100 l.maximum (x ∷ xs)
      × (l.p50 ≤ l.p95)
      × (l.p95 ≤ l.p99)
      × (l.p99 ≤ l.maximum)
unfolding print_latencies
print_latencies_lem x xs =
    let ys : List ℕ = sort_unstable (x ∷ xs) in
    let sorted = sort_unstable-IsSorted (x ∷ xs) in
    let pos : 0 < length ys = omega (arith, length-sort_unstable (x ∷ xs)) in
    (
      quantile (x ∷ xs) 50 (omega arith) (omega arith),
      quantile (x ∷ xs) 95 (omega arith) (omega arith),
      quantile (x ∷ xs) 99 (omega arith) (omega arith),
      IsQuantile-sort_unstable 100 _ (x ∷ xs) (last-IsQuantile ys pos sorted),
      percentile_mono ys 50 95 pos (omega arith) sorted,
      percentile_mono ys 95 99 pos (omega arith) sorted,
      percentile-le-last ys 99 pos sorted,
    )
