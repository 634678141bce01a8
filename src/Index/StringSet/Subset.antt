-- ===== src/Index/StringSet/Subset.antt =====
-- `isSubsetOf` decides inclusion of ascending sets.
use codesearch.Common.{◌≡◌, refl, arith, ◌↔◌, true, List, [], ◌∷◌, inl, inr, Bool-cases}
use codesearch.Common.{All-In, In}
use codesearch.Common.Strings.{Str, str_lt, str_eq_refl, str_lt_asym}
use codesearch.Index.StringSet.{skip_less, starts_at, is_subset_of}
use codesearch.Index.StringSet.Laws.{IsAscending, is_subset_of-In, skip_less_keeps}

starts_at-skip_less :
    (ss : Str) (t : List Str) → IsAscending t → In ss t → starts_at ss (skip_less ss t) ≡ true
unfolding skip_less
starts_at-skip_less ss [] s i = elim i [ ]
starts_at-skip_less ss (x ∷ t) s (inl e) = elim (Bool-cases (str_lt x ss)) [
  | inl l ↦ absurd (ground (arith, str_lt_asym x ss l))
  | inr l ↦ rw (l, skip_less) (ground (arith, str_eq_refl x))
]
starts_at-skip_less ss (x ∷ t) s (inr i) =
    rw (All-In (λ y. str_lt x y ≡ true) t s.0 ss i, skip_less) (starts_at-skip_less ss t s.1 i)

skip_less-IsAscending : (ss : Str) (t : List Str) → IsAscending t → IsAscending (skip_less ss t)
unfolding skip_less
skip_less-IsAscending ss [] s = tt
skip_less-IsAscending ss (x ∷ t) s = ground (arith, skip_less-IsAscending ss t s.1)

In-is_subset_of :
    (s t : List Str)
    → IsAscending s
    → IsAscending t
    → ((a : Str) → In a s → In a t)
    → is_subset_of s t ≡ true
unfolding is_subset_of
In-is_subset_of [] t p q h = refl
In-is_subset_of (ss ∷ s) t p q h = rw (starts_at-skip_less ss t q (h ss (inl refl))) (
    In-is_subset_of s (skip_less ss t) p.1 (skip_less-IsAscending ss t q) (λ a i.
      skip_less_keeps ss a t (str_lt_asym ss a (All-In (λ y. str_lt ss y ≡ true) s p.0 a i))
        (h a (inr i))))

-- On ascending sets `isSubsetOf` answers true exactly when every string of `s` is in `t`.
pub is_subset_of_iff :
    (s t : List Str)
    → IsAscending s
    → IsAscending t
    → (is_subset_of s t ≡ true) ↔ ((a : Str) → In a s → In a t)
is_subset_of_iff s t p q = (is_subset_of-In s t, In-is_subset_of s t p q)
