-- ===== src/Index/Posting/Union.antt =====
-- `mergeOr` and `postingOr` both make the ascending union of two ascending lists.
use codesearch.Common.{ℕ, ◌<◌, ◌≡◌, refl, arith}
use codesearch.Common.{true, false, ◌||◌, List, [], ◌∷◌, ◌++◌, inl, inr, Bool-cases}
use codesearch.Common.{ltb, ◌==◌, All, All-append, member, IsAscending, All-lt_trans}
use codesearch.Index.Posting.{skip_below, copy_below}
use codesearch.Index.Posting.Loops.{join, past, past-IsAscending}

-- `mergeOr`, over what the indices `i` and `j` have not passed.
unfoldable pub merge_or : List ℕ → List ℕ → List ℕ
merge_or [] [] = []
merge_or [] (y ∷ ys) = y ∷ merge_or [] ys
merge_or (x ∷ xs) [] = x ∷ merge_or xs []
merge_or (x ∷ xs) (y ∷ ys) = elim (ltb x y) [
  | true ↦ x ∷ merge_or xs (y ∷ ys)
  | false ↦ elim (ltb y x) [ true ↦ y ∷ merge_or (x ∷ xs) ys | false ↦ x ∷ merge_or xs ys ]
]

-- `zs` is ascending and holds exactly the members of `xs` and `ys`.
pub record IsUnion (xs ys zs : List ℕ) : Type 0 where
  pub ascending : IsAscending zs
  pub members : (y : ℕ) → member y zs ≡ (member y xs || member y ys)

member-merge_or :
    (xs ys : List ℕ) (a : ℕ) → member a (merge_or xs ys) ≡ (member a xs || member a ys)
unfolding merge_or member
member-merge_or [] [] a = refl
member-merge_or [] (y ∷ ys) a = ground (arith, member-merge_or [] ys a)
member-merge_or (x ∷ xs) [] a = ground (arith, member-merge_or xs [] a)
member-merge_or (x ∷ xs) (y ∷ ys) a =
    ground
      (arith, member-merge_or xs (y ∷ ys) a, member-merge_or (x ∷ xs) ys a, member-merge_or xs ys a)

All-merge_or : (P : ℕ → Type 0) (xs ys : List ℕ) → All P xs → All P ys → All P (merge_or xs ys)
unfolding merge_or
All-merge_or P [] [] p q = tt
All-merge_or P [] (y ∷ ys) p q = (q.0, All-merge_or P [] ys p q.1)
All-merge_or P (x ∷ xs) [] p q = (p.0, All-merge_or P xs [] p.1 q)
All-merge_or P (x ∷ xs) (y ∷ ys) p q = ground (
  arith,
  All-merge_or P xs (y ∷ ys) p.1 q,
  All-merge_or P (x ∷ xs) ys p q.1,
  All-merge_or P xs ys p.1 q.1,
)

merge_or-IsAscending :
    (xs ys : List ℕ) → IsAscending xs → IsAscending ys → IsAscending (merge_or xs ys)
unfolding merge_or
merge_or-IsAscending [] [] s t = tt
merge_or-IsAscending [] (y ∷ ys) s t =
    (All-merge_or (λ z. y < z) [] ys tt t.0, merge_or-IsAscending [] ys s t.1)
merge_or-IsAscending (x ∷ xs) [] s t =
    (All-merge_or (λ z. x < z) xs [] s.0 tt, merge_or-IsAscending xs [] s.1 t)
merge_or-IsAscending (x ∷ xs) (y ∷ ys) s t = elim (Bool-cases (ltb x y)) [
  | inl a ↦
      let xy : x < y = ground arith in
      rw (a, merge_or)
        (
          All-merge_or (λ z. x < z) xs (y ∷ ys) s.0 (xy, All-lt_trans x y ys xy t.0),
          merge_or-IsAscending xs (y ∷ ys) s.1 t,
        )
  | inr a ↦ elim (Bool-cases (ltb y x)) [
    | inl b ↦
        let yx : y < x = ground arith in
        rw (a, merge_or)
          (rw (b, merge_or)
            (
              All-merge_or (λ z. y < z) (x ∷ xs) ys (yx, All-lt_trans y x xs yx s.0) t.0,
              merge_or-IsAscending (x ∷ xs) ys s t.1,
            ))
    | inr b ↦
        let same : y ≡ x = ground arith in
        let above : All (λ z. x < z) ys = rw (← same) (t.0) in
        rw (a, merge_or)
          (rw (b, merge_or)
            (All-merge_or (λ z. x < z) xs ys s.0 above, merge_or-IsAscending xs ys s.1 t.1))
  ]
]

-- `mergeOr` of two ascending lists is their ascending union.
pub merge_or-IsUnion :
    (xs ys : List ℕ) → IsAscending xs → IsAscending ys → IsUnion xs ys (merge_or xs ys)
merge_or-IsUnion xs ys s t = record {
  ascending = merge_or-IsAscending xs ys s t;
  members = member-merge_or xs ys;
}

-- A list falls into what `postingOr` copies before `x`, `x` itself, and what it leaves.
member-copy :
    (a x : ℕ) (list rest : List ℕ)
    → member a (copy_below x list ++ (x ∷ rest))
      ≡ (a == x || (member a (copy_below x list) || member a rest))
unfolding copy_below member
member-copy a x [] rest = ground arith
member-copy a x (y ∷ list) rest = ground (arith, member-copy a x list rest)

member-split :
    (a x : ℕ) (list : List ℕ)
    → (a == x || member a list)
      ≡ (a == x || (member a (copy_below x list) || member a (past x list)))
unfolding copy_below skip_below member
member-split a x [] = ground arith
member-split a x (y ∷ list) = ground (arith, member-split a x list)

member-join : (xs list : List ℕ) (a : ℕ) → member a (join xs list) ≡ (member a xs || member a list)
unfolding join member
member-join [] list a = refl
member-join (x ∷ xs) list a = ground (
  arith,
  member-copy a x list (join xs (past x list)),
  member-split a x list,
  member-join xs (past x list) a,
)

past-above : (x : ℕ) (list : List ℕ) → IsAscending list → All (λ y. x < y) (past x list)
unfolding skip_below
past-above x [] s = tt
past-above x (y ∷ list) s =
    ground (arith, past-above x list s.1, λ (h : x < y). All-lt_trans x y list h s.0)

All-past : (P : ℕ → Type 0) (x : ℕ) (list : List ℕ) → All P list → All P (past x list)
unfolding skip_below
All-past P x [] p = tt
All-past P x (y ∷ list) p = ground (arith, All-past P x list p.1)

All-copy_below : (P : ℕ → Type 0) (x : ℕ) (list : List ℕ) → All P list → All P (copy_below x list)
unfolding copy_below
All-copy_below P x [] p = tt
All-copy_below P x (y ∷ list) p = ground (arith, All-copy_below P x list p.1)

All-join : (P : ℕ → Type 0) (xs list : List ℕ) → All P xs → All P list → All P (join xs list)
unfolding join
All-join P [] list p q = q
All-join P (x ∷ xs) list p q =
    All-append P (copy_below x list) (x ∷ join xs (past x list)) (All-copy_below P x list q)
      (p.0, All-join P xs (past x list) p.1 (All-past P x list q))

copy-IsAscending :
    (x : ℕ) (list rest : List ℕ)
    → IsAscending list
    → All (λ y. x < y) rest
    → IsAscending rest
    → IsAscending (copy_below x list ++ (x ∷ rest))
unfolding copy_below
copy-IsAscending x [] rest s h t = (h, t)
copy-IsAscending x (y ∷ list) rest s h t = elim (Bool-cases (ltb y x)) [
  | inl e ↦
      let yx : y < x = ground arith in
      rw (e, copy_below)
        (
          All-append (λ z. y < z) (copy_below x list) (x ∷ rest)
              (All-copy_below (λ z. y < z) x list s.0) (yx, All-lt_trans y x rest yx h),
          copy-IsAscending x list rest s.1 h t,
        )
  | inr e ↦ rw (e, copy_below) (h, t)
]

join-IsAscending :
    (xs list : List ℕ) → IsAscending xs → IsAscending list → IsAscending (join xs list)
unfolding join
join-IsAscending [] list s t = t
join-IsAscending (x ∷ xs) list s t =
    copy-IsAscending x list (join xs (past x list)) t
      (All-join (λ y. x < y) xs (past x list) s.0 (past-above x list t))
      (join-IsAscending xs (past x list) s.1 (past-IsAscending x list t))

pub join-IsUnion :
    (xs list : List ℕ) → IsAscending xs → IsAscending list → IsUnion xs list (join xs list)
join-IsUnion xs list s t = record {
  ascending = join-IsAscending xs list s t;
  members = member-join xs list;
}
