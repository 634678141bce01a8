-- ===== src/Index/Analyze/Join.antt =====
-- `concat` and `alternate` keep what is told of the texts.
use mathlib.Core.List.{append_assoc}
use codesearch.Common.{◌≡◌, ◌⊎◌, refl, arith, ◌∙◌, ap, sym, subst}
use codesearch.Common.{Bool, true, false, ◌||◌, Bool-cases, Option-cases, none, inl, inr}
use codesearch.Common.{List, [], ◌∷◌, ◌++◌, map, In, if◌then◌else◌, In-append_left, In-append_right}
use codesearch.Common.Strings.{Str, str_lt}
use codesearch.Index.StringSet.{cross_all}
use codesearch.Index.StringSet.Laws.{In-clean_by}
use codesearch.Index.Query.{Query, query_and, query_or}
use codesearch.Index.Query.Logic.{matches, well_formed}
use codesearch.Index.Query.Meaning.{query_and-Joins, query_or-Joins}
use codesearch.Index.Analyze.{RegexpInfo}
use codesearch.Index.Analyze.Sets.{suffix_lt, cross_set, union_set}
use codesearch.Index.Analyze.Combine.{concat_prefix, concat_suffix}
use codesearch.Index.Analyze.Cover.{Reaches, Reaches-clean_set, Reaches-sub, In-map}
use codesearch.Index.Analyze.Keep.{Keeps, Known}

pub Keeps-query_and :
    (q r : Query) (s : Str)
    → well_formed q ≡ true
    → well_formed r ≡ true
    → Keeps q s
    → Keeps r s
    → Keeps (query_and q r) s
Keeps-query_and q r s wq wr k m before after =
    (query_and-Joins _ q r wq wr).means ∙ rw (k before after, m before after) refl

pub Keeps-query_or :
    (q r : Query) (s : Str)
    → well_formed q ≡ true
    → well_formed r ≡ true
    → Keeps q s ⊎ Keeps r s
    → Keeps (query_or q r) s
Keeps-query_or q r s wq wr (inl k) before after =
    (query_or-Joins _ q r wq wr).means ∙ rw (k before after) refl
Keeps-query_or q r s wq wr (inr k) before after =
    (query_or-Joins _ q r wq wr).means ∙ rw (k before after) (or_true (matches _ q))
  where
    or_true : (b : Bool) → (b || true) ≡ true
    or_true true = refl
    or_true false = refl

In-cross_all : (a b : Str) (s t : List Str) → In a s → In b t → In (a ++ b) (cross_all s t)
unfolding cross_all
In-cross_all a b [] t i j = i
In-cross_all a b (x ∷ s) t (inl e) j =
    In-append_left (a ++ b) (map (λ y. x ++ y) t) (cross_all s t)
      (subst (λ z. In (z ++ b) (map (λ y. x ++ y) t)) (sym e) (In-map (λ y. x ++ y) b t j))
In-cross_all a b (x ∷ s) t (inr i) j =
    In-append_right (a ++ b) (map (λ y. x ++ y) t) (cross_all s t) (In-cross_all a b s t i j)

pub In-cross_set :
    (f : Bool) (a b : Str) (s t : List Str) → In a s → In b t → In (a ++ b) (cross_set s t f)
In-cross_set f a b s t i j =
    (In-clean_by (if f then suffix_lt else str_lt) (a ++ b) (cross_all s t)).1
      (In-cross_all a b s t i j)

pub Reaches-union_left :
    (f : Bool) (s t : List Str) (x : Str) → Reaches f s x → Reaches f (union_set s t f) x
Reaches-union_left f s t x h =
    Reaches-clean_set f f (s ++ t) x (Reaches-sub f s (s ++ t) x (λ a i. In-append_left a s t i) h)

pub Reaches-union_right :
    (f : Bool) (s t : List Str) (x : Str) → Reaches f t x → Reaches f (union_set s t f) x
Reaches-union_right f s t x h =
    Reaches-clean_set f f (s ++ t) x (Reaches-sub f t (s ++ t) x (λ a i. In-append_right a s t i) h)

pub Reaches-front : (t : List Str) (u v : Str) → Reaches false t u → Reaches false t (u ++ v)
Reaches-front t u v (a, i, (b, e)) = (a, i, (b ++ v, ap (λ x. x ++ v) e ∙ append_assoc a b v))

pub Reaches-back : (t : List Str) (u v : Str) → Reaches true t v → Reaches true t (u ++ v)
Reaches-back t u v (a, i, (b, e)) = (a, i, (u ++ b, ap (λ x. u ++ x) e ∙ sym (append_assoc u b a)))

-- What is known of a text made of two, with the exact sets as they are.
pub concat_prefix-Reaches :
    (x y : RegexpInfo) (u v : Str)
    → Known x.exact x.prefix x.suffix u
    → (y.exact ≡ none) ⊎ (x.exact ≡ none)
    → Known y.exact y.prefix y.suffix v
    → Reaches false (concat_prefix x y) (u ++ v)
unfolding concat_prefix
concat_prefix-Reaches x y u v kx one ky = elim (Option-cases x.exact) [
  | inl e ↦
      let (front, back) = subst (λ o. Known o x.prefix x.suffix u) e kx in
      elim (Bool-cases x.can_empty) [
        | inl c ↦
            rw (e, c, concat_prefix)
              (Reaches-union_left false x.prefix y.prefix (u ++ v)
                (Reaches-front x.prefix u v front))
        | inr c ↦ rw (e, c, concat_prefix) (Reaches-front x.prefix u v front)
      ]
  | inr (s, e) ↦
      let i : In u s = subst (λ o. Known o x.prefix x.suffix u) e kx in
      elim one [
        | inr k ↦ absurd (ground (arith, e, k))
        | inl k ↦
            let ((a, j, (b, d)), back) = subst (λ o. Known o y.prefix y.suffix v) k ky in
            rw (e, concat_prefix)
              (
                u ++ a,
                In-cross_set false u a s y.prefix i j,
                (b, ap (λ z. u ++ z) d ∙ sym (append_assoc u a b)),
              )
      ]
]

pub concat_suffix-Reaches :
    (x y : RegexpInfo) (u v : Str)
    → Known x.exact x.prefix x.suffix u
    → (y.exact ≡ none) ⊎ (x.exact ≡ none)
    → Known y.exact y.prefix y.suffix v
    → Reaches true (concat_suffix x y) (u ++ v)
unfolding concat_suffix
concat_suffix-Reaches x y u v kx one ky = elim (Option-cases y.exact) [
  | inl e ↦
      let (front, back) = subst (λ o. Known o y.prefix y.suffix v) e ky in
      elim (Bool-cases y.can_empty) [
        | inl c ↦
            rw (e, c, concat_suffix)
              (Reaches-union_left true y.suffix x.suffix (u ++ v) (Reaches-back y.suffix u v back))
        | inr c ↦ rw (e, c, concat_suffix) (Reaches-back y.suffix u v back)
      ]
  | inr (s, e) ↦
      let i : In v s = subst (λ o. Known o y.prefix y.suffix v) e ky in
      elim one [
        | inl k ↦ absurd (ground (arith, e, k))
        | inr k ↦
            let (front, (a, j, (b, d))) = subst (λ o. Known o x.prefix x.suffix u) k kx in
            rw (e, concat_suffix)
              (
                a ++ v,
                In-cross_set true a v x.suffix s j i,
                (b, ap (λ z. z ++ v) d ∙ append_assoc b a v),
              )
      ]
]
