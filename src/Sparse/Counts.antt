-- ===== src/Sparse/Counts.antt =====
-- Lists that hold each number once: two with the same members are as long.
use codesearch.Common.{ℕ, ◌≤◌, ◌<◌, ◌≡◌, ◌≢◌, refl, arith, ◌∙◌, sym, subst}
use codesearch.Common.{true, false, Bool-cases, inl, inr, List, [], ◌∷◌}
use codesearch.Common.{◌==◌, if◌then◌else◌, length, All, member}
use codesearch.Sparse.Bounds.{Distinct, without}

-- The members, each once.
unfoldable pub distinct : List ℕ → List ℕ
unfolding member
distinct [] = []
distinct (x ∷ xs) = if member x xs then distinct xs else x ∷ distinct xs

pub member-distinct : (y : ℕ) (xs : List ℕ) → member y (distinct xs) ≡ member y xs
unfolding distinct member
member-distinct y [] = refl
member-distinct y (x ∷ xs) = elim (Bool-cases (member x xs)) [
  | inl e ↦ rw e (elim (Bool-cases (y == x)) [
    | inl k ↦
        let same : y ≡ x = ground arith in
        ground (arith, member-distinct y xs, subst (λ z. member z xs ≡ true) (sym same) e)
    | inr k ↦ ground (arith, member-distinct y xs)
  ])
  | inr e ↦ rw e (ground (arith, member-distinct y xs))
]

absent : (x : ℕ) (xs : List ℕ) → member x xs ≡ false → All (λ y. x ≢ y) xs
unfolding member
absent x [] h = tt
absent x (y ∷ xs) h = (ground arith, absent x xs (ground arith))

absent-member : (x : ℕ) (xs : List ℕ) → All (λ y. x ≢ y) xs → member x xs ≡ false
unfolding member
absent-member x [] h = refl
absent-member x (y ∷ xs) h = ground (arith, h.0, absent-member x xs h.1)

pub distinct-Distinct : (xs : List ℕ) → Distinct (distinct xs)
unfolding distinct
distinct-Distinct [] = tt
distinct-Distinct (x ∷ xs) = elim (Bool-cases (member x xs)) [
  | inl e ↦ rw e (distinct-Distinct xs)
  | inr e ↦ rw e (absent x (distinct xs) (member-distinct x xs ∙ e), distinct-Distinct xs)
]

member-without : (a y : ℕ) (xs : List ℕ) → y ≢ a → member y (without a xs) ≡ member y xs
unfolding member without
member-without a y [] h = refl
member-without a y (x ∷ xs) h = ground (arith, h, member-without a y xs h)

without_shorter : (a : ℕ) (xs : List ℕ) → length (without a xs) ≤ length xs
unfolding without
without_shorter a [] = omega arith
without_shorter a (x ∷ xs) = ground (arith, without_shorter a xs)

without_shrinks : (a : ℕ) (xs : List ℕ) → member a xs ≡ true → length (without a xs) < length xs
unfolding without member
without_shrinks a [] h = ground arith
without_shrinks a (x ∷ xs) h = elim (Bool-cases (x == a)) [
  | inl e ↦ rw e (omega (arith, without_shorter a xs))
  | inr e ↦ rw e (omega (arith, without_shrinks a xs (ground arith)))
]

length-le :
    (xs ys : List ℕ)
    → Distinct xs
    → ((y : ℕ) → member y xs ≡ true → member y ys ≡ true)
    → length xs ≤ length ys
length-le [] ys d h = omega arith
length-le (x ∷ xs) ys (n, d) h =
    let rest = length-le xs (without x ys) d (λ y i.
      let other : y ≢ x =
        λ e. ground (arith, absent-member x xs n, subst (λ z. member z xs ≡ true) e i) in
      member-without x y ys other ∙ h y (unfold member in ground (arith, i))) in
    omega (arith, rest, without_shrinks x ys (h x (unfold member in ground arith)))

-- The same members, and each once: the lengths agree.
pub length-Distinct :
    (xs ys : List ℕ)
    → Distinct xs
    → Distinct ys
    → ((y : ℕ) → member y xs ≡ member y ys)
    → length xs ≡ length ys
length-Distinct xs ys d e h =
    omega (arith, length-le xs ys d (λ y i. sym (h y) ∙ i), length-le ys xs e (λ y i. h y ∙ i))
