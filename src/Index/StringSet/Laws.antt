-- ===== src/Index/StringSet/Laws.antt =====
-- The set operations against membership.
use codesearch.Common.{◌≡◌, arith, sym, subst, ◌⊎◌, ◌↔◌}
use codesearch.Common.{Bool, true, false, List, [], ◌∷◌, ◌++◌, inl, inr, Bool-cases}
use codesearch.Common.{All, In, In-append_cases, In-append_left, In-append_right}
use codesearch.Common.Strings.{
  Str, str_eq, str_lt, str_eq→eq, str_eq_refl, str_lt_asym, str_lt_trans, str_lt_total,
}
use codesearch.Index.StringSet.{
  insert, sort, drop_repeats, compact, clean_by, clean, union, skip_less, starts_at, is_subset_of,
}

In-insert :
    (less : Str → Str → Bool) (x a : Str) (ys : List Str) → In a (insert less x ys) → In a (x ∷ ys)
unfolding insert
In-insert less x a [] h = h
In-insert less x a (y ∷ ys) h = ground (arith, In-insert less x a ys)

insert-In :
    (less : Str → Str → Bool) (x a : Str) (ys : List Str) → In a (x ∷ ys) → In a (insert less x ys)
unfolding insert
insert-In less x a [] h = h
insert-In less x a (y ∷ ys) h = ground (arith, insert-In less x a ys)

In-sort : (less : Str → Str → Bool) (a : Str) (xs : List Str) → In a (sort less xs) ↔ In a xs
unfolding sort
In-sort less a [] = ((λ h. h), λ h. h)
In-sort less a (x ∷ xs) = (
  λ h. elim (In-insert less x a (sort less xs) h) [
    | inl e ↦ inl e
    | inr k ↦ inr ((In-sort less a xs).0 k)
  ],
  λ h.
      insert-In less x a (sort less xs)
        (elim h [ inl e ↦ inl e | inr k ↦ inr ((In-sort less a xs).1 k) ]),
)

In-drop_repeats : (last a : Str) (t : List Str) → In a (drop_repeats last t) → In a t
unfolding drop_repeats
In-drop_repeats last a [] h = h
In-drop_repeats last a (str ∷ t) h =
    ground (arith, In-drop_repeats last a t, In-drop_repeats str a t)

drop_repeats-In :
    (last a : Str) (t : List Str) → In a (last ∷ t) → In a (last ∷ drop_repeats last t)
unfolding drop_repeats
drop_repeats-In last a [] h = h
drop_repeats-In last a (str ∷ t) h =
    ground (arith, str_eq→eq last str, drop_repeats-In last a t, drop_repeats-In str a t)

pub compact-In : (t : List Str) (a : Str) → In a t → In a (compact t)
unfolding compact
compact-In [] a h = h
compact-In (str ∷ t) a h = drop_repeats-In str a t h

-- `clean` keeps exactly the members.
pub In-clean_by :
    (less : Str → Str → Bool) (a : Str) (xs : List Str) → In a (clean_by less xs) ↔ In a xs
unfolding clean_by
In-clean_by less a xs = (
  λ h. (In-sort less a xs).0 (shrink (sort less xs) h),
  λ h. compact-In (sort less xs) a ((In-sort less a xs).1 h),
)
  where
    shrink : (t : List Str) → In a (compact t) → In a t
    shrink [] h = h
    shrink (str ∷ t) (inl e) = inl e
    shrink (str ∷ t) (inr h) = inr (In-drop_repeats str a t h)

-- The members of a union are those of either set.
pub In-union : (a : Str) (s t : List Str) → In a (union s t) ↔ (In a s ⊎ In a t)
In-union a s t = (
  λ h. In-append_cases a s t ((In-clean_by str_lt a (s ++ t)).0 h),
  λ h.
      (In-clean_by str_lt a (s ++ t)).1
        (elim h [ inl l ↦ In-append_left a s t l | inr r ↦ In-append_right a s t r ]),
)

-- Ascending, with no string twice.
abbrev pub IsAscending : List Str → Type 0
IsAscending [] = Unit {0}
IsAscending (x ∷ xs) = All (λ y. str_lt x y ≡ true) xs × IsAscending xs

-- In order, with repeats.
abbrev IsSorted : List Str → Type 0
IsSorted [] = Unit {0}
IsSorted (x ∷ xs) = All (λ y. str_lt y x ≡ false) xs × IsSorted xs

not_less_trans :
    (x y : Str) (zs : List Str)
    → str_lt x y ≡ true
    → All (λ z. str_lt z y ≡ false) zs
    → All (λ z. str_lt z x ≡ false) zs
not_less_trans x y [] h k = tt
not_less_trans x y (z ∷ zs) h k = (
  elim (Bool-cases (str_lt z x)) [
    | inl e ↦ absurd (ground (arith, str_lt_trans z x y e h))
    | inr e ↦ e
  ],
  not_less_trans x y zs h k.1,
)

same_trans :
    (x y : Str) (zs : List Str)
    → str_lt y x ≡ false
    → All (λ z. str_lt z y ≡ false) zs
    → All (λ z. str_lt z x ≡ false) zs
same_trans x y zs h k = elim (Bool-cases (str_lt x y)) [
  | inl e ↦ not_less_trans x y zs e k
  | inr e ↦ subst (λ w. All (λ z. str_lt z w ≡ false) zs) (str_lt_total y x h e) k
]

All-insert :
    (P : Str → Type 0) (x : Str) (ys : List Str) → P x → All P ys → All P (insert str_lt x ys)
unfolding insert
All-insert P x [] p q = (p, tt)
All-insert P x (y ∷ ys) p q = ground (arith, All-insert P x ys p q.1)

insert-IsSorted : (x : Str) (ys : List Str) → IsSorted ys → IsSorted (insert str_lt x ys)
unfolding insert
insert-IsSorted x [] s = (tt, tt)
insert-IsSorted x (y ∷ ys) s = elim (Bool-cases (str_lt y x)) [
  | inl e ↦
      rw (e, insert)
        (
          All-insert (λ z. str_lt z y ≡ false) x ys (str_lt_asym y x e) s.0,
          insert-IsSorted x ys s.1,
        )
  | inr e ↦ rw (e, insert) ((e, same_trans x y ys e s.0), s)
]

sort-IsSorted : (xs : List Str) → IsSorted (sort str_lt xs)
unfolding sort
sort-IsSorted [] = tt
sort-IsSorted (x ∷ xs) = insert-IsSorted x (sort str_lt xs) (sort-IsSorted xs)

-- What follows `last` in an ordered list, less its repeats, is above it.
drop_repeats-IsAscending :
    (last : Str) (t : List Str) → IsSorted (last ∷ t) → IsAscending (last ∷ drop_repeats last t)
unfolding drop_repeats
drop_repeats-IsAscending last [] s = (tt, tt)
drop_repeats-IsAscending last (str ∷ t) s = elim (Bool-cases (str_eq last str)) [
  | inl e ↦ rw (e, drop_repeats) (drop_repeats-IsAscending last t (s.0.1, s.1.1))
  | inr e ↦
      let later = drop_repeats-IsAscending str t s.1 in
      let less : str_lt last str ≡ true = elim (Bool-cases (str_lt last str)) [
        | inl l ↦ l
        | inr l ↦ absurd (ground (arith, str_lt_total last str l s.0.0, str_eq_refl last))
      ] in
      rw (e, drop_repeats) ((less, above last str (drop_repeats str t) less later.0), later)
]
  where
    above :
        (x y : Str) (zs : List Str)
        → str_lt x y ≡ true
        → All (λ z. str_lt y z ≡ true) zs
        → All (λ z. str_lt x z ≡ true) zs
    above x y [] h k = tt
    above x y (z ∷ zs) h k = (str_lt_trans x y z h k.0, above x y zs h k.1)

clean-IsAscending : (xs : List Str) → IsAscending (clean xs)
unfolding clean_by
clean-IsAscending xs = go (sort str_lt xs) (sort-IsSorted xs)
  where
    go : (t : List Str) → IsSorted t → IsAscending (compact t)
    go [] s = tt
    go (str ∷ t) s = drop_repeats-IsAscending str t s

-- The strings of a list in ascending order, each once.
pub record IsSetOf (xs ys : List Str) : Type 0 where
  pub ascending : IsAscending ys
  pub members : (a : Str) → In a ys ↔ In a xs

-- `clean` returns the strings of the list in ascending order, each once, and no others.
pub clean-IsSetOf : (xs : List Str) → IsSetOf xs (clean xs)
clean-IsSetOf xs = record {
  ascending = clean-IsAscending xs;
  members = λ a. In-clean_by str_lt a xs;
}

skip_less-In : (ss a : Str) (t : List Str) → In a (skip_less ss t) → In a t
unfolding skip_less
skip_less-In ss a [] h = h
skip_less-In ss a (x ∷ t) h = ground (arith, skip_less-In ss a t)

starts_at-In : (ss : Str) (t : List Str) → starts_at ss t ≡ true → In ss t
starts_at-In ss [] h = ground arith
starts_at-In ss (x ∷ t) h = inl (sym (str_eq→eq x ss h))

-- A positive answer of `isSubsetOf` is right, in whatever order the sets stand.
pub is_subset_of-In : (s t : List Str) → is_subset_of s t ≡ true → (a : Str) → In a s → In a t
unfolding is_subset_of
is_subset_of-In [] t h a i = elim i [ ]
is_subset_of-In (ss ∷ s) t h a (inl e) =
    subst (λ w. In w t) (sym e) (skip_less-In ss ss t (starts_at-In ss _ (ground arith)))
is_subset_of-In (ss ∷ s) t h a (inr i) =
    skip_less-In ss a t (is_subset_of-In s (skip_less ss t) (ground arith) a i)

-- On ascending sets a negative answer is right too.
pub skip_less_keeps :
    (ss a : Str) (t : List Str) → str_lt a ss ≡ false → In a t → In a (skip_less ss t)
unfolding skip_less
skip_less_keeps ss a [] h i = i
skip_less_keeps ss a (x ∷ t) h i = elim (Bool-cases (str_lt x ss)) [
  | inl e ↦
      rw (e, skip_less)
        (elim i [ inl same ↦ absurd (ground arith) | inr k ↦ skip_less_keeps ss a t h k ])
  | inr e ↦ rw (e, skip_less) i
]
