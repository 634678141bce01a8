-- ===== src/Sparse/Bounds.antt =====
-- A set never has more members than its maximum: distinct numbers below `n` are at most `n`.
use codesearch.Common.{ℕ, zero, suc, ◌+◌, ◌≤◌, ◌<◌, ◌≡◌, ◌≢◌, refl, arith, List, [], ◌∷◌}
use codesearch.Common.{some, ◌==◌, if◌then◌else◌, length, get_elem?, All}
use codesearch.Sparse.{Set, IsValid}

abbrev pub Distinct : List ℕ → Type 0
Distinct [] = Unit {0}
Distinct (x ∷ xs) = All (λ y. x ≢ y) xs × Distinct xs

unfoldable pub without : ℕ → List ℕ → List ℕ
without a [] = []
without a (x ∷ xs) = if x == a then without a xs else x ∷ without a xs

without-All : (P : ℕ → Type 0) (a : ℕ) (xs : List ℕ) → All P xs → All P (without a xs)
unfolding without
without-All P a [] h = tt
without-All P a (x ∷ xs) h = ground (arith, without-All P a xs h.1)

without-Distinct : (a : ℕ) (xs : List ℕ) → Distinct xs → Distinct (without a xs)
unfolding without
without-Distinct a [] h = tt
without-Distinct a (x ∷ xs) h =
    ground (arith, without-Distinct a xs h.1, without-All (λ y. x ≢ y) a xs h.0)

without-lt : (n : ℕ) (xs : List ℕ) → All (λ x. x < suc n) xs → All (λ x. x < n) (without n xs)
unfolding without
without-lt n [] h = tt
without-lt n (x ∷ xs) h = ground (arith, without-lt n xs h.1)

without_absent : (a : ℕ) (xs : List ℕ) → All (λ y. a ≢ y) xs → without a xs ≡ xs
unfolding without
without_absent a [] h = refl
without_absent a (x ∷ xs) h = ground (arith, without_absent a xs h.1)

length-without : (a : ℕ) (xs : List ℕ) → Distinct xs → length xs ≤ length (without a xs) + 1
unfolding without
length-without a [] h = omega arith
length-without a (x ∷ xs) h = ground (arith, length-without a xs h.1, without_absent x xs h.0)

pub Distinct-bound : (n : ℕ) (xs : List ℕ) → Distinct xs → All (λ x. x < n) xs → length xs ≤ n
Distinct-bound zero [] d h = omega arith
Distinct-bound zero (x ∷ xs) d h = absurd (omega arith)
Distinct-bound (suc n) xs d h = omega (
  arith,
  length-without n xs d,
  Distinct-bound n (without n xs) (without-Distinct n xs d) (without-lt n xs h),
)

fresh : (x : ℕ) (ys : List ℕ) → ((j : ℕ) → get_elem? ys j ≡ some x → ⊥) → All (λ y. x ≢ y) ys
fresh x [] k = tt
fresh x (y ∷ ys) k = ((λ e. k 0 (ground arith)), fresh x ys (λ j. k (suc j)))

-- Distinct positions hold distinct values, so the list has no duplicates.
pub Distinct-of_positions :
    (xs : List ℕ)
    → ((i j x : ℕ) → get_elem? xs i ≡ some x → get_elem? xs j ≡ some x → i ≡ j)
    → Distinct xs
Distinct-of_positions [] h = tt
Distinct-of_positions (x ∷ xs) h = (
  fresh x xs (λ j e. absurd (omega (arith, h 0 (suc j) x refl e))),
  Distinct-of_positions xs (λ i j y p q. omega (arith, h (suc i) (suc j) y p q)),
)

pub dense-Distinct : (s : Set) → IsValid s → Distinct s.dense
dense-Distinct s v =
    Distinct-of_positions s.dense (λ i j x p q. ground (arith, v.located i x p, v.located j x q))

-- So the conversions of lengths to uint32 change nothing.
pub len-le : (s : Set) → IsValid s → length s.dense ≤ length s.sparse
len-le s v = Distinct-bound (length s.sparse) s.dense (dense-Distinct s v) v.in_range
