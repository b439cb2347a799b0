-- ===== src/Harness/Percentiles.antt =====
-- `_percentile` of chaos_harness.py.
use chaos_harness.Common.{
  ℕ, zero, suc, ◌<◌, ◌≤◌, List, [], ◌∷◌, arith, leb, length, Pairs, Pairs-mono, All,
}
use chaos_harness.Common.Int.{clamp_zero}
use chaos_harness.Common.Sort.{sort, sort-Ordered, All-sort, length-sort}
use chaos_harness.Harness.Report.{Floats, get_or, index, percentile}

get_or-All : (P : ℕ → Type 0) (xs : List ℕ) (i d : ℕ) → i < length xs → All P xs → P (get_or xs i d)
unfolding get_or
get_or-All P [] i d h a = absurd (omega arith)
get_or-All P (x ∷ xs) zero d h a = a.0
get_or-All P (x ∷ xs) (suc i) d h a = get_or-All P xs i d (omega arith) a.1

get_or-le :
    (xs : List ℕ) (i k d : ℕ)
    → i ≤ k
    → k < length xs
    → Pairs (λ a b. a ≤ b) xs
    → get_or xs i d ≤ get_or xs k d
unfolding get_or
get_or-le [] i k d le h s = absurd (omega arith)
get_or-le (x ∷ xs) zero zero d le h s = omega arith
get_or-le (x ∷ xs) zero (suc k) d le h s = get_or-All (λ y. x ≤ y) xs k d (omega arith) s.0
get_or-le (x ∷ xs) (suc i) zero d le h s = absurd (omega arith)
get_or-le (x ∷ xs) (suc i) (suc k) d le h s = get_or-le xs i k d (omega arith) (omega arith) s.1

All-Unit : (xs : List ℕ) → All (λ x. Unit {0}) xs
All-Unit [] = tt
All-Unit (x ∷ xs) = (tt, All-Unit xs)

all-Pairs : (xs : List ℕ) → Pairs (λ a b. Unit {0}) xs
all-Pairs [] = tt
all-Pairs (x ∷ xs) = (All-Unit xs, all-Pairs xs)

-- The latencies in order.
sorted_rises : (xs : List ℕ) → Pairs (λ a b. a ≤ b) (sort leb xs)
sorted_rises xs =
    Pairs-mono (sort leb xs) (λ a b h. ground (arith, h.1))
      (sort-Ordered leb (λ a b. Unit {0}) (λ a b h. tt) (λ a b h e. ground arith)
        (λ a b c h k. ground arith) xs (all-Pairs xs))

-- A percentile of a list that is not empty is an entry of it: what holds of all entries holds of it.
-- A percentile whose rank is no smaller than that of another is no smaller itself.
percentile_monotone :
    (a : Floats) (x : ℕ) (xs : List ℕ) (p q : ℕ) (P : ℕ → Type 0)
    → clamp_zero (a.rank p (length (x ∷ xs))) ≤ clamp_zero (a.rank q (length (x ∷ xs)))
    → All P (x ∷ xs)
    → P (percentile a (x ∷ xs) p) × (percentile a (x ∷ xs) p ≤ percentile a (x ∷ xs) q)
unfolding percentile
percentile_monotone a x xs p q P h all =
    let same = length-sort leb (x ∷ xs) in
    (
      get_or-All P (sort leb (x ∷ xs)) (index a (length (x ∷ xs)) p) 0 (omega (arith, same))
          (All-sort leb P (x ∷ xs) all),
      get_or-le (sort leb (x ∷ xs)) (index a (length (x ∷ xs)) p) (index a (length (x ∷ xs)) q) 0
          (omega arith) (omega (arith, same)) (sorted_rises (x ∷ xs)),
    )
