-- ===== src/Index/Analyze/Runs.antt =====
-- The queries of two regular expressions, and one that shares an array.
use codesearch.Common.{
  ◌+◌, ◌≡◌, refl, arith, true, false, none, some, [], ◌∷◌, ◌++◌, ◌==◌, inl, inr, Bool-cases,
}
use codesearch.Common.{leb, if◌then◌else◌}
use codesearch.Common.Strings.{Str, str_lt, str_eq}
use codesearch.Index.StringSet.{clean_by, min_len, cross_all, is_subset_of, skip_less}
use codesearch.Index.Query.{
  Query, query, q_and, nil, and_trigrams, query_and, or_trigrams, query_or, trigrams,
  trigrams_imply,
}
use codesearch.Index.Query.Logic.{matches}
use codesearch.Index.Query.Trigrams.{has_trigram}
use codesearch.Index.Analyze.{RegexpInfo, exactly}
use codesearch.Index.Analyze.{
  Platform, Regexp, literal, char_class, star, plus, any_char, concat_of, alternate_of, nil_re,
  cons_re, rune_pairs, runes_bytes,
}
use codesearch.Index.Analyze.Sets.{reversed, has_prefix}
use codesearch.Index.Analyze.Combine.{cap_adds}
use codesearch.Index.Analyze.Walk.{regexp_query}
use codesearch.Index.Analyze.Texts.{IsCyclic, Matches}
use codesearch.Index.Analyze.Simplify.{simplify}
use codesearch.Index.Analyze.Bounds.{Fits, simplify-Fits}
use codesearch.Index.Analyze.Total.{regexp_query-returns}
use codesearch.Index.Analyze.Sound.{regexp_query-keeps}

-- Arrays that double, and no letters that fold.
abbrev doubling : Platform
doubling = record {
  grow = λ cap n. if leb n (cap + cap) then cap + cap else n;
  simple_fold = λ r. r;
  fold_steps = λ r. 0;
}

doubling-IsCyclic : IsCyclic doubling
doubling-IsCyclic = record { returns = λ r. refl }

-- `(abc)+.*xyz`
abbrev abc_xyz : Regexp
abc_xyz = concat_of (
    cons_re (plus (literal false (97 ∷ 98 ∷ 99 ∷ [])))
      (cons_re (star any_char) (cons_re (literal false (120 ∷ 121 ∷ 122 ∷ [])) nil_re)))

abbrev abc_and_xyz : Query
abc_and_xyz = query q_and ((97 ∷ 98 ∷ 99 ∷ []) ∷ (120 ∷ 121 ∷ 122 ∷ []) ∷ []) nil

abc_xyz_query : regexp_query doubling abc_xyz ≡ some abc_and_xyz
unfolding regexp_query clean_by min_len runes_bytes and_trigrams cross_all str_lt reversed str_eq
    has_prefix query_and or_trigrams query_or trigrams trigrams_imply is_subset_of skip_less
abc_xyz_query = refl

abc_bytes : 97 ∷ 98 ∷ 99 ∷ [] ≡ runes_bytes (97 ∷ 98 ∷ 99 ∷ [])
unfolding runes_bytes
abc_bytes = refl

xyz_bytes : 120 ∷ 121 ∷ 122 ∷ [] ≡ runes_bytes (120 ∷ 121 ∷ 122 ∷ [])
unfolding runes_bytes
xyz_bytes = refl

regexp_query-keeps_example :
    matches (has_trigram (1 ∷ 97 ∷ 98 ∷ 99 ∷ 2 ∷ 120 ∷ 121 ∷ 122 ∷ 3 ∷ [])) abc_and_xyz ≡ true
regexp_query-keeps_example =
    regexp_query-keeps doubling abc_xyz abc_and_xyz (1 ∷ [])
      (97 ∷ 98 ∷ 99 ∷ 2 ∷ 120 ∷ 121 ∷ 122 ∷ []) (3 ∷ []) doubling-IsCyclic abc_xyz_query
      (
        97 ∷ 98 ∷ 99 ∷ [],
        2 ∷ 120 ∷ 121 ∷ 122 ∷ [],
        refl,
        (0, (97 ∷ 98 ∷ 99 ∷ [], [], refl, abc_bytes, refl)),
        (
          2 ∷ [],
          120 ∷ 121 ∷ 122 ∷ [],
          refl,
          (1, (2 ∷ [], [], refl, (2, [], refl, omega arith), refl)),
          (120 ∷ 121 ∷ 122 ∷ [], [], refl, xyz_bytes, refl),
        ),
      )

-- As `doubling`, and `a` folds to `A` and back.
abbrev folding : Platform
folding = record {
  grow = λ cap n. if leb n (cap + cap) then cap + cap else n;
  simple_fold = λ r. if r == 97 then 65 else if r == 65 then 97 else r;
  fold_steps = λ r. if r == 97 then 1 else if r == 65 then 1 else 0;
}

folding-IsCyclic : IsCyclic folding
folding-IsCyclic = record {
  returns = λ r. elim (Bool-cases (r == 97)) [
    | inl e ↦ let same : r ≡ 97 = ground (arith, e) in rw same refl
    | inr e ↦ elim (Bool-cases (r == 65)) [
      | inl k ↦ let same : r ≡ 65 = ground (arith, k) in rw same refl
      | inr k ↦ rw (e, k) refl
    ]
  ];
}

-- `(?i)abc`, then `xyz`
abbrev folded_abc : Regexp
folded_abc = concat_of (
    cons_re (literal true (97 ∷ 98 ∷ 99 ∷ []))
      (cons_re (literal false (120 ∷ 121 ∷ 122 ∷ [])) nil_re))

regexp_query-returns_example :
    (q : Query) × (regexp_query folding folded_abc ≡ some q)
    × ((before s after : Str)
        → Matches folding folded_abc s
        → matches (has_trigram (before ++ (s ++ after))) q ≡ true)
regexp_query-returns_example = regexp_query-returns folding folded_abc folding-IsCyclic refl

-- Eight exact strings of two bytes.
abbrev eight_pairs : RegexpInfo
eight_pairs =
    exactly false
      ((1 ∷ 1 ∷ [])
        ∷ (1 ∷ 2 ∷ [])
        ∷ (1 ∷ 3 ∷ [])
        ∷ (1 ∷ 4 ∷ [])
        ∷ (1 ∷ 5 ∷ [])
        ∷ (1 ∷ 6 ∷ [])
        ∷ (1 ∷ 7 ∷ [])
        ∷ (1 ∷ 8 ∷ [])
        ∷ [])
      8

simplify-Fits_example :
    Fits
      (simplify false eight_pairs).exact
      (simplify false eight_pairs).prefix
      (simplify false eight_pairs).suffix
simplify-Fits_example = simplify-Fits false eight_pairs

-- `xx[a-c]|zzz.*yyy`: the three exact strings leave room for one more.
abbrev sharing : Regexp
sharing = alternate_of (
    cons_re
      (concat_of (
        cons_re (literal false (120 ∷ 120 ∷ []))
          (cons_re (char_class (rune_pairs (record { lo = 97; span = 2 } ∷ []))) nil_re)))
      (cons_re
        (concat_of (
          cons_re (literal false (122 ∷ 122 ∷ 122 ∷ []))
            (cons_re (star any_char) (cons_re (literal false (121 ∷ 121 ∷ 121 ∷ [])) nil_re))))
        nil_re))

sharing_stops : regexp_query doubling sharing ≡ none
unfolding regexp_query clean_by min_len runes_bytes str_lt str_eq cross_all cap_adds
sharing_stops = refl
