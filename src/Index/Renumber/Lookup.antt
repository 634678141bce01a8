-- ===== src/Index/Renumber/Lookup.antt =====
-- What the merged lists say of a trigram.
use codesearch.Common.{ℕ, ◌≤◌, ◌<◌, ◌≡◌, refl, arith, ◌∙◌, ap, sym}
use codesearch.Common.{true, false, Bool-cases, inl, inr, List, [], ◌∷◌, All}
use codesearch.Common.{ltb, ◌==◌, if◌then◌else◌}
use codesearch.Index.Posting.Union.{merge_or}
use codesearch.Index.Renumber.{IdRange}
use codesearch.Index.Renumber.Ranges.{image}
use codesearch.Index.Renumber.Tables.{
  Lists, merge_tables, map_lists, merge_tables-first, merge_tables-second, merge_tables-both,
}

-- The ids of a trigram; none if it has no list.
unfoldable pub ids_of : ℕ → Lists → List ℕ
ids_of t [] = []
ids_of t ((u, xs) ∷ ts) = if t == u then xs else ids_of t ts

-- The trigrams ascend.
abbrev pub IsSorted : Lists → Type 0
IsSorted [] = Unit
IsSorted ((t, xs) ∷ ts) = All (λ e. t < e.0) ts × IsSorted ts

pub ids_of-map_lists :
    (t : ℕ) (idmap : List IdRange) (ts : Lists)
    → ids_of t (map_lists idmap ts) ≡ image idmap (ids_of t ts)
unfolding ids_of image
ids_of-map_lists t idmap [] = refl
ids_of-map_lists t idmap ((u, ids) ∷ ts) = elim (Bool-cases (t == u)) [
  | inl e ↦ rw e refl
  | inr e ↦ rw e (ids_of-map_lists t idmap ts)
]

pub map_lists-IsSorted :
    (idmap : List IdRange) (ts : Lists) → IsSorted ts → IsSorted (map_lists idmap ts)
map_lists-IsSorted idmap [] s = tt
map_lists-IsSorted idmap ((t, ids) ∷ ts) (h, s) = (above ts h, map_lists-IsSorted idmap ts s)
  where
    above : (us : Lists) → All (λ e. t < e.0) us → All (λ e. t < e.0) (map_lists idmap us)
    above [] h = tt
    above ((u, ids) ∷ us) (h, k) = (h, above us k)

ids_of_above : (t u : ℕ) (ts : Lists) → t ≤ u → All (λ e. u < e.0) ts → ids_of t ts ≡ []
unfolding ids_of
ids_of_above t u [] h a = refl
ids_of_above t u ((v, xs) ∷ ts) h (l, a) =
    let e : (t == v) ≡ false = ground arith in rw e (ids_of_above t u ts h a)

merge_or-nil : (xs : List ℕ) → merge_or xs [] ≡ xs
unfolding merge_or
merge_or-nil [] = refl
merge_or-nil (x ∷ xs) = ap (λ l. x ∷ l) (merge_or-nil xs)

merge_or_nil_left : (ys : List ℕ) → merge_or [] ys ≡ ys
unfolding merge_or
merge_or_nil_left [] = refl
merge_or_nil_left (y ∷ ys) = ap (λ l. y ∷ l) (merge_or_nil_left ys)

merge_tables-nil : (ts : Lists) → merge_tables ts [] ≡ ts
unfolding merge_tables
merge_tables-nil [] = refl
merge_tables-nil (a ∷ ts) = ap (λ l. a ∷ l) (merge_tables-nil ts)

merge_tables_nil_left : (us : Lists) → merge_tables [] us ≡ us
unfolding merge_tables
merge_tables_nil_left [] = refl
merge_tables_nil_left (b ∷ us) = ap (λ l. b ∷ l) (merge_tables_nil_left us)

ids_of-here : (t u : ℕ) (xs : List ℕ) (ts : Lists) → (t == u) ≡ true → ids_of t ((u, xs) ∷ ts) ≡ xs
unfolding ids_of
ids_of-here t u xs ts e = rw e refl

ids_of_behind :
    (t u : ℕ) (xs : List ℕ) (ts : Lists) → (t == u) ≡ false → ids_of t ((u, xs) ∷ ts) ≡ ids_of t ts
unfolding ids_of
ids_of_behind t u xs ts e = rw e refl

-- A list of the first, of the second, and of both, in front of merged lists.
first_ids :
    (t u : ℕ) (xs : List ℕ) (ts other ms : Lists)
    → (t ≡ u → ids_of t other ≡ [])
    → ids_of t ms ≡ merge_or (ids_of t ts) (ids_of t other)
    → ids_of t ((u, xs) ∷ ms) ≡ merge_or (ids_of t ((u, xs) ∷ ts)) (ids_of t other)
first_ids t u xs ts other ms h k = elim (Bool-cases (t == u)) [
  | inl e ↦
      ids_of-here t u xs ms e
      ∙ sym (merge_or-nil xs)
      ∙ sym (ap (λ l. merge_or l []) (ids_of-here t u xs ts e))
      ∙ ap (merge_or (ids_of t ((u, xs) ∷ ts))) (sym (h (ground (arith, e))))
  | inr e ↦
      ids_of_behind t u xs ms e
      ∙ k
      ∙ sym (ap (λ l. merge_or l (ids_of t other)) (ids_of_behind t u xs ts e))
]

second_ids :
    (t v : ℕ) (ys : List ℕ) (us other ms : Lists)
    → (t ≡ v → ids_of t other ≡ [])
    → ids_of t ms ≡ merge_or (ids_of t other) (ids_of t us)
    → ids_of t ((v, ys) ∷ ms) ≡ merge_or (ids_of t other) (ids_of t ((v, ys) ∷ us))
second_ids t v ys us other ms h k = elim (Bool-cases (t == v)) [
  | inl e ↦
      ids_of-here t v ys ms e
      ∙ sym (merge_or_nil_left ys)
      ∙ sym (ap (merge_or []) (ids_of-here t v ys us e))
      ∙ ap (λ l. merge_or l (ids_of t ((v, ys) ∷ us))) (sym (h (ground (arith, e))))
  | inr e ↦
      ids_of_behind t v ys ms e
      ∙ k
      ∙ sym (ap (merge_or (ids_of t other)) (ids_of_behind t v ys us e))
]

both_ids :
    (t u v : ℕ) (xs ys : List ℕ) (ts us ms : Lists)
    → u ≡ v
    → ids_of t ms ≡ merge_or (ids_of t ts) (ids_of t us)
    → ids_of t ((u, merge_or xs ys) ∷ ms)
      ≡ merge_or (ids_of t ((u, xs) ∷ ts)) (ids_of t ((v, ys) ∷ us))
both_ids t u v xs ys ts us ms same k = elim (Bool-cases (t == u)) [
  | inl e ↦
      let f : (t == v) ≡ true = ground arith in
      ids_of-here t u (merge_or xs ys) ms e
      ∙ sym (ap (λ l. merge_or l ys) (ids_of-here t u xs ts e))
      ∙ ap (merge_or (ids_of t ((u, xs) ∷ ts))) (sym (ids_of-here t v ys us f))
  | inr e ↦
      let f : (t == v) ≡ false = ground arith in
      ids_of_behind t u (merge_or xs ys) ms e
      ∙ k
      ∙ sym (ap (λ l. merge_or l (ids_of t us)) (ids_of_behind t u xs ts e))
      ∙ ap (merge_or (ids_of t ((u, xs) ∷ ts))) (sym (ids_of_behind t v ys us f))
]

-- A trigram below the first one has no ids.
ids_of_below :
    (t v : ℕ) (ys : List ℕ) (us : Lists)
    → t < v
    → All (λ e. v < e.0) us
    → ids_of t ((v, ys) ∷ us) ≡ []
ids_of_below t v ys us h b =
    ids_of_behind t v ys us (ground arith) ∙ ids_of_above t v us (omega (arith, h)) b

-- A trigram has the union of its ids in both.
pub ids_of-merge_tables :
    (t : ℕ) (ts us : Lists)
    → IsSorted ts
    → IsSorted us
    → ids_of t (merge_tables ts us) ≡ merge_or (ids_of t ts) (ids_of t us)
ids_of-merge_tables t [] us s z =
    unfold ids_of in
    ap (ids_of t) (merge_tables_nil_left us) ∙ sym (merge_or_nil_left (ids_of t us))
ids_of-merge_tables t (a ∷ ts) [] s z =
    ap (ids_of t) (merge_tables-nil (a ∷ ts))
    ∙ sym (unfold ids_of in merge_or-nil (ids_of t (a ∷ ts)))
ids_of-merge_tables t ((u, xs) ∷ ts) ((v, ys) ∷ us) (a, s) (b, z) = elim (Bool-cases (ltb u v)) [
  | inl c ↦
      let l : u < v = ground arith in
      ap (ids_of t) (merge_tables-first u v xs ys ts us c)
      ∙ first_ids t u xs ts ((v, ys) ∷ us) _ (λ e. ids_of_below t v ys us (omega (arith, e, l)) b)
          (ids_of-merge_tables t ts ((v, ys) ∷ us) s (b, z))
  | inr c ↦ elim (Bool-cases (ltb v u)) [
    | inl d ↦
        let l : v < u = ground arith in
        ap (ids_of t) (merge_tables-second u v xs ys ts us c d)
        ∙ second_ids t v ys us ((u, xs) ∷ ts) _
            (λ e. ids_of_below t u xs ts (omega (arith, e, l)) a)
            (ids_of-merge_tables t ((u, xs) ∷ ts) us (a, s) z)
    | inr d ↦
        let same : u ≡ v = ground arith in
        ap (ids_of t) (merge_tables-both u v xs ys ts us c d)
        ∙ both_ids t u v xs ys ts us _ same (ids_of-merge_tables t ts us s z)
  ]
]
