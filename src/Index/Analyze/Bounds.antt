-- ===== src/Index/Analyze/Bounds.antt =====
-- How large the sets are behind `simplify`.
use codesearch.Common.{ℕ, zero, suc, ◌+◌, ◌-◌, ◌≤◌, ◌≡◌, refl, arith, sym, subst, Bool, true, false}
use codesearch.Common.{Bool-cases, Option-cases, Option, none, some, inl, inr, List, [], ◌∷◌, map}
use codesearch.Common.{ltb, leb, if◌then◌else◌, length, All, drop, ltb-false}
use codesearch.Common.Strings.{Str, str_lt, str_eq_refl}
use codesearch.Index.StringSet.{clean_by, compact, drop_repeats, sort, insert}
use codesearch.Index.Analyze.{RegexpInfo, max_set, max_exact}
use codesearch.Index.Analyze.Sets.{
  clean_set, suffix_lt, shorten, shrink, is_covered, uncovered, without_covered, simplified_set,
}
use codesearch.Index.Analyze.Simplify.{simplify, is_too_big}

length-drop_repeats : (last : Str) (t : List Str) → length (drop_repeats last t) ≤ length t
unfolding drop_repeats
length-drop_repeats last [] = omega arith
length-drop_repeats last (x ∷ t) =
    ground (arith, length-drop_repeats last t, length-drop_repeats x t)

length-compact : (t : List Str) → length (compact t) ≤ length t
unfolding compact
length-compact [] = omega arith
length-compact (x ∷ t) = omega (arith, length-drop_repeats x t)

length-insert :
    (less : Str → Str → Bool) (x : Str) (t : List Str) → length (insert less x t) ≡ suc (length t)
unfolding insert
length-insert less x [] = refl
length-insert less x (y ∷ t) = ground (arith, length-insert less x t)

length-sort : (less : Str → Str → Bool) (t : List Str) → length (sort less t) ≡ length t
unfolding sort
length-sort less [] = refl
length-sort less (x ∷ t) = omega (arith, length-insert less x (sort less t), length-sort less t)

length-clean_by : (less : Str → Str → Bool) (t : List Str) → length (clean_by less t) ≤ length t
unfolding clean_by
length-clean_by less t = omega (arith, length-compact (sort less t), length-sort less t)

-- Empty strings only leave one.
drop_empty : (t : List Str) → All (λ s. s ≡ []) t → drop_repeats [] t ≡ []
unfolding drop_repeats
drop_empty [] h = refl
drop_empty (x ∷ t) (e, h) = rw e (rw (str_eq_refl []) (drop_empty t h))

one_empty : (t : List Str) → All (λ s. s ≡ []) t → length (compact t) ≤ 1
unfolding compact
one_empty [] h = omega arith
one_empty (x ∷ t) (e, h) = rw e (rw (drop_empty t h) (omega arith))

drop-all : (s : Str) → drop (length s) s ≡ []
drop-all [] = refl
drop-all (x ∷ s) = drop-all s

shorten-empty : (f : Bool) (s : Str) → shorten f 1 s ≡ []
unfolding shorten
shorten-empty f [] = refl
shorten-empty false (x ∷ s) =
    let long : leb 1 (suc (length s)) ≡ true = ground arith in rw long refl
shorten-empty true (x ∷ s) =
    let long : leb 1 (suc (length s)) ≡ true = ground arith in
    let n : length (x ∷ s) - 1 + 1 ≡ length (x ∷ s) = omega arith in
    rw long (rw n (drop-all (x ∷ s)))

map-empty : (f : Bool) (t : List Str) → All (λ s. s ≡ []) (map (shorten f 1) t)
map-empty f [] = tt
map-empty f (x ∷ t) = (shorten-empty f x, map-empty f t)

last_round : (f : Bool) (t : List Str) → length (shrink f 1 t) ≤ max_set
unfolding shrink
last_round f t =
    let t' = compact (map (shorten f 1) t) in
    let one = one_empty (map (shorten f 1) t) (map-empty f t) in
    let small = length-clean_by (if f then suffix_lt else str_lt) t' in ground (arith, one, small)

shrink-le : (f : Bool) (n : ℕ) (t : List Str) → length (shrink f (suc n) t) ≤ max_set
unfolding shrink
shrink-le f zero t = last_round f t
shrink-le f (suc n) t =
    let t' = clean_set f (compact (map (shorten f (suc (suc n))) t)) in
    elim (Bool-cases (ltb max_set (length t'))) [
      | inl e ↦ rw e (shrink-le f n t')
      | inr e ↦ rw e (ltb-false max_set (length t') e)
    ]

length-uncovered : (f : Bool) (last : Str) (t : List Str) → length (uncovered f last t) ≤ length t
unfolding uncovered
length-uncovered f last [] = omega arith
length-uncovered f last (x ∷ t) = elim (Bool-cases (is_covered f x last)) [
  | inl e ↦ rw e (omega (arith, length-uncovered f last t))
  | inr e ↦ rw e (omega (arith, length-uncovered f x t))
]

length-without_covered : (f : Bool) (t : List Str) → length (without_covered f t) ≤ length t
unfolding without_covered
length-without_covered f [] = omega arith
length-without_covered f (x ∷ t) = omega (arith, length-uncovered f x t)

simplified_set-le : (f : Bool) (t : List Str) → length (simplified_set f t) ≤ max_set
unfolding simplified_set
simplified_set-le f t =
    omega
      (arith, length-without_covered f (shrink f 3 (clean_set f t)), shrink-le f 2 (clean_set f t))

-- The sets are within their bounds.
abbrev pub Fits : Option (List Str) → List Str → List Str → Type 0
Fits (some e) ps qs = length e ≤ max_exact
Fits none ps qs = (length ps ≤ max_set) × (length qs ≤ max_set)

-- After `simplify` an exact set has at most seven strings; without one, the prefixes and the suffixes
-- are at most twenty each. The loop of `simplifySet` ends with strings of no bytes at the latest.
pub simplify-Fits :
    (force : Bool) (info : RegexpInfo)
    → Fits (simplify force info).exact (simplify force info).prefix (simplify force info).suffix
unfolding simplify
simplify-Fits force info = elim (Option-cases info.exact) [
  | inl e ↦
      rw (e, simplify)
        (subst (λ o. Fits o (simplified_set false info.prefix) (simplified_set true info.suffix))
          (sym e) (simplified_set-le false info.prefix, simplified_set-le true info.suffix))
  | inr (x, e) ↦ elim (Bool-cases (is_too_big force (clean_set false x))) [
    | inl b ↦ rw (e, b, simplify) (simplified_set-le false _, simplified_set-le true _)
    | inr b ↦
        rw (e, b, simplify) (ltb-false max_exact (length (clean_set false x)) (ground (arith, b)))
  ]
]
