-- ===== src/Index/Analyze/Concat.antt =====
-- `concat` tells of a text what its two parts tell.
use mathlib.Core.List.{append_assoc}
use codesearch.Common.{◌≡◌, refl, arith, ◌∙◌, ap, sym, subst}
use codesearch.Common.{true, false, Bool-cases, Option-cases, Option, none, some, inl, inr}
use codesearch.Common.{List, ◌++◌, In}
use codesearch.Common.Strings.{Str}
use codesearch.Index.Query.{Query, query_and, and_trigrams}
use codesearch.Index.Query.Logic.{matches, well_formed}
use codesearch.Index.Query.Trigrams.{has_trigram, and_trigrams_keeps}
use codesearch.Index.Query.Meaning.{query_and-Joins}
use codesearch.Index.Analyze.{RegexpInfo, Platform, have}
use codesearch.Index.Analyze.Sets.{cross_set}
use codesearch.Index.Analyze.Combine.{is_bridged, concat_query, concat_sets, concat}
use codesearch.Index.Analyze.Cover.{Reaches}
use codesearch.Index.Analyze.Keep.{
  Keeps, Keeps-front, Keeps-back, formed, Known, Tells, IsFormed, simplify-Tells, simplify-IsFormed,
}
use codesearch.Index.Analyze.Join.{
  Keeps-query_and, In-cross_set, concat_prefix-Reaches, concat_suffix-Reaches,
}

-- A string across the boundary.
across :
    (q : Query) (x y : RegexpInfo) (u v : Str)
    → well_formed q ≡ true
    → Keeps q (u ++ v)
    → Reaches true x.suffix u
    → Reaches false y.prefix v
    → Keeps (and_trigrams q (cross_set x.suffix y.prefix false)) (u ++ v)
across q x y u v w k (a, i, (b, e)) (c, j, (d, g)) before after =
    let whole : before ++ ((u ++ v) ++ after) ≡ (before ++ b) ++ (((a ++ c) ++ d) ++ after) =
      ap (λ z. before ++ (z ++ after)) (rw (e, g) (middle b a c d))
      ∙ ap (λ z. before ++ z) (append_assoc b ((a ++ c) ++ d) after)
      ∙ sym (append_assoc before b (((a ++ c) ++ d) ++ after)) in
    subst (λ z. matches (has_trigram z) (and_trigrams q (cross_set x.suffix y.prefix false)) ≡ true)
      (sym (whole ∙ ap (λ z. (before ++ b) ++ z) (append_assoc (a ++ c) d after)))
      (and_trigrams_keeps q (cross_set x.suffix y.prefix false) (before ++ b) (a ++ c) (d ++ after)
        w (In-cross_set false a c x.suffix y.prefix i j)
        (subst (λ z. matches (has_trigram z) q ≡ true)
          (whole ∙ ap (λ z. (before ++ b) ++ z) (append_assoc (a ++ c) d after)) (k before after)))
  where
    middle : (p q r t : Str) → (p ++ q) ++ (r ++ t) ≡ p ++ ((q ++ r) ++ t)
    middle p q r t = append_assoc p q (r ++ t) ∙ ap (λ z. p ++ z) (sym (append_assoc q r t))

concat_query-Keeps :
    (x y : RegexpInfo) (u v : Str)
    → IsFormed x
    → IsFormed y
    → Tells x u
    → Tells y v
    → Keeps (concat_query x y) (u ++ v)
unfolding concat_query
concat_query-Keeps x y u v wx wy tx ty =
    let both =
      Keeps-query_and x.query y.query (u ++ v) wx wy (Keeps-front x.query u v tx.keeps)
        (Keeps-back y.query u v ty.keeps) in
    elim (Bool-cases (is_bridged x y)) [
      | inr e ↦ rw (e, concat_query) both
      | inl e ↦
          let no_x : x.exact ≡ none = not_exact x.exact (ground (arith, e)) in
          let no_y : y.exact ≡ none = not_exact y.exact (ground (arith, e)) in
          let (front_x, back_x) = subst (λ o. Known o x.prefix x.suffix u) no_x tx.known in
          let (front_y, back_y) = subst (λ o. Known o y.prefix y.suffix v) no_y ty.known in
          rw (e, concat_query)
            (across (query_and x.query y.query) x y u v
              (query_and-Joins (λ s. true) x.query y.query wx wy).formed both back_x front_y)
    ]
  where
    not_exact : (o : Option (List Str)) → have o ≡ false → o ≡ none
    not_exact none h = refl
    not_exact (some e) h = ground arith

concat_query-formed :
    (x y : RegexpInfo) → IsFormed x → IsFormed y → well_formed (concat_query x y) ≡ true
unfolding concat_query
concat_query-formed x y wx wy =
    let w = (query_and-Joins (λ s. true) x.query y.query wx wy).formed in
    elim (Bool-cases (is_bridged x y)) [
      | inl e ↦ rw (e, concat_query) (formed _ _ w)
      | inr e ↦ rw (e, concat_query) w
    ]

concat_sets-Tells :
    (p : Platform) (x y : RegexpInfo) (u v : Str)
    → IsFormed x
    → IsFormed y
    → Tells x u
    → Tells y v
    → Tells (concat_sets p x y) (u ++ v)
unfolding concat_sets
concat_sets-Tells p x y u v wx wy tx ty =
    let k = concat_query-Keeps x y u v wx wy tx ty in
    elim (Option-cases x.exact) [
      | inl e ↦
          rw (e, concat_sets)
            (record {
              known = (
                concat_prefix-Reaches x y u v tx.known (inr e) ty.known,
                concat_suffix-Reaches x y u v tx.known (inr e) ty.known,
              );
              keeps = k;
            })
      | inr (s, e) ↦ elim (Option-cases y.exact) [
        | inl g ↦
            rw (e, g, concat_sets)
              (record {
                known = (
                  concat_prefix-Reaches x y u v tx.known (inl g) ty.known,
                  concat_suffix-Reaches x y u v tx.known (inl g) ty.known,
                );
                keeps = k;
              })
        | inr (t, g) ↦
            let i : In u s = subst (λ o. Known o x.prefix x.suffix u) e tx.known in
            let j : In v t = subst (λ o. Known o y.prefix y.suffix v) g ty.known in
            rw (e, g, concat_sets) (record { known = In-cross_set false u v s t i j; keeps = k })
      ]
    ]

concat_sets-IsFormed :
    (p : Platform) (x y : RegexpInfo) → IsFormed x → IsFormed y → IsFormed (concat_sets p x y)
unfolding concat_sets
concat_sets-IsFormed p x y wx wy = elim (Option-cases x.exact) [
  | inl e ↦ rw (e, concat_sets) (concat_query-formed x y wx wy)
  | inr (s, e) ↦ elim (Option-cases y.exact) [
    | inl g ↦ rw (e, g, concat_sets) (concat_query-formed x y wx wy)
    | inr (t, g) ↦ rw (e, g, concat_sets) (concat_query-formed x y wx wy)
  ]
]

pub concat-Tells :
    (p : Platform) (x y : RegexpInfo) (u v : Str)
    → IsFormed x
    → IsFormed y
    → Tells x u
    → Tells y v
    → Tells (concat p x y) (u ++ v)
unfolding concat
concat-Tells p x y u v wx wy tx ty =
    simplify-Tells false (concat_sets p x y) (u ++ v) (concat_sets-IsFormed p x y wx wy)
      (concat_sets-Tells p x y u v wx wy tx ty)

pub concat-IsFormed :
    (p : Platform) (x y : RegexpInfo) → IsFormed x → IsFormed y → IsFormed (concat p x y)
unfolding concat
concat-IsFormed p x y wx wy =
    simplify-IsFormed false (concat_sets p x y) (concat_sets-IsFormed p x y wx wy)
