-- ===== src/Index/Renumber/Sorted.antt =====
-- The trigrams of the merged lists ascend.
use codesearch.Common.{ℕ, ◌<◌, ◌≡◌, arith, sym, subst}
use codesearch.Common.{Bool-cases, inl, inr, [], ◌∷◌, All}
use codesearch.Common.{ltb}
use codesearch.Index.Renumber.Tables.{
  Lists, merge_tables, merge_tables-first, merge_tables-second, merge_tables-both,
}
use codesearch.Index.Renumber.Lookup.{IsSorted}

abbrev IsAbove : ℕ → Lists → Type 0
IsAbove t ts = All (λ e. t < e.0) ts

IsAbove-trans : (t u : ℕ) (ts : Lists) → t < u → IsAbove u ts → IsAbove t ts
IsAbove-trans t u [] h a = tt
IsAbove-trans t u (e ∷ ts) h (l, a) = (omega (arith, h, l), IsAbove-trans t u ts h a)

merge_tables-IsAbove :
    (t : ℕ) (ts us : Lists) → IsAbove t ts → IsAbove t us → IsAbove t (merge_tables ts us)
unfolding merge_tables
merge_tables-IsAbove t [] [] a b = tt
merge_tables-IsAbove t [] (e ∷ us) a (l, b) = (l, merge_tables-IsAbove t [] us a b)
merge_tables-IsAbove t (e ∷ ts) [] (l, a) b = (l, merge_tables-IsAbove t ts [] a b)
merge_tables-IsAbove t ((u, xs) ∷ ts) ((v, ys) ∷ us) (l, a) (m, b) = elim (Bool-cases (ltb u v)) [
  | inl c ↦
      subst (IsAbove t) (sym (merge_tables-first u v xs ys ts us c))
        (l, merge_tables-IsAbove t ts ((v, ys) ∷ us) a (m, b))
  | inr c ↦ elim (Bool-cases (ltb v u)) [
    | inl d ↦
        subst (IsAbove t) (sym (merge_tables-second u v xs ys ts us c d))
          (m, merge_tables-IsAbove t ((u, xs) ∷ ts) us (l, a) b)
    | inr d ↦
        subst (IsAbove t) (sym (merge_tables-both u v xs ys ts us c d))
          (l, merge_tables-IsAbove t ts us a b)
  ]
]

pub merge_tables-IsSorted :
    (ts us : Lists) → IsSorted ts → IsSorted us → IsSorted (merge_tables ts us)
unfolding merge_tables
merge_tables-IsSorted [] [] s z = tt
merge_tables-IsSorted [] ((v, ys) ∷ us) s (b, z) =
    (merge_tables-IsAbove v [] us tt b, merge_tables-IsSorted [] us s z)
merge_tables-IsSorted ((u, xs) ∷ ts) [] (a, s) z =
    (merge_tables-IsAbove u ts [] a tt, merge_tables-IsSorted ts [] s z)
merge_tables-IsSorted ((u, xs) ∷ ts) ((v, ys) ∷ us) (a, s) (b, z) = elim (Bool-cases (ltb u v)) [
  | inl c ↦
      let l : u < v = ground arith in
      subst IsSorted (sym (merge_tables-first u v xs ys ts us c)) (
        merge_tables-IsAbove u ts ((v, ys) ∷ us) a (l, IsAbove-trans u v us l b),
        merge_tables-IsSorted ts ((v, ys) ∷ us) s (b, z),
      )
  | inr c ↦ elim (Bool-cases (ltb v u)) [
    | inl d ↦
        let l : v < u = ground arith in
        subst IsSorted (sym (merge_tables-second u v xs ys ts us c d)) (
          merge_tables-IsAbove v ((u, xs) ∷ ts) us (l, IsAbove-trans v u ts l a) b,
          merge_tables-IsSorted ((u, xs) ∷ ts) us (a, s) z,
        )
    | inr d ↦
        let same : u ≡ v = ground arith in
        subst IsSorted (sym (merge_tables-both u v xs ys ts us c d)) (
          merge_tables-IsAbove u ts us a (subst (λ n. IsAbove n us) (sym same) b),
          merge_tables-IsSorted ts us s z,
        )
  ]
]
