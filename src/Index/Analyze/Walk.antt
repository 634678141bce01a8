-- ===== src/Index/Analyze/Walk.antt =====
-- `analyze`, `fold` and `RegexpQuery` of index/regexp.go.
use codesearch.Common.{ℕ, zero, suc, ◌+◌, Bool, true, false}
use codesearch.Common.{Option, none, some, List, [], ◌∷◌, ◌++◌, map, ltb, ◌==◌, if◌then◌else◌}
use codesearch.Common.{length}
use codesearch.Common.Strings.{Str}
use codesearch.Index.Query.{Query}
use codesearch.Index.Analyze.{
  RegexpInfo, Platform, Regexp, Regexps, RuneClass, RuneRange, one_rune, rune_pairs, no_match,
  empty_match, begin_line, end_line, begin_text, end_text, word_boundary, no_word_boundary,
  any_char_not_nl, any_char, literal, char_class, capture, star, plus, quest, repeat, concat_of,
  alternate_of, nil_re, cons_re, runes_bytes, rune_bytes, exactly, any_match_info, any_char_info,
  no_match_info, empty_string_info,
}
use codesearch.Index.Analyze.Simplify.{add_exact, simplify}
use codesearch.Index.Analyze.Combine.{cap_adds, concat, alternate}

-- The runes from `r1` on until `SimpleFold` is back at `r0`; `none` where the steps do not lead back,
-- and the loop of the source goes on.
unfoldable pub orbit : (ℕ → ℕ) → ℕ → ℕ → ℕ → Option (List ℕ)
orbit simple_fold zero r0 r1 = if r1 == r0 then some [] else none
orbit simple_fold (suc n) r0 r1 =
    let rest = orbit simple_fold n r0 (simple_fold r1) in
    if r1 == r0 then some [] else elim rest [ none ↦ none | some rs ↦ some (r1 ∷ rs) ]

abbrev pub one_range : ℕ → RuneRange
one_range r = record { lo = r; span = 0 }

-- The class of a rune whose case is folded.
unfoldable pub folded_class : Platform → ℕ → Option RuneClass
unfolding orbit
folded_class p r = elim (orbit p.simple_fold (p.fold_steps r) r (p.simple_fold r)) [
  | none ↦ none
  | some rs ↦ some (rune_pairs (map one_range (r ∷ rs)))
]

abbrev pub total_span : List RuneRange → ℕ
total_span [] = 0
total_span (r ∷ rs) = r.span + total_span rs

-- `for rr := lo; rr <= hi; rr++ { info.exact.add(string(rr)) }`, for `n` runes behind the first.
unfoldable pub range_strings : ℕ → ℕ → List Str
range_strings lo zero = rune_bytes lo ∷ []
range_strings lo (suc n) = rune_bytes lo ∷ range_strings (lo + 1) n

unfoldable pub class_strings : List RuneRange → List Str
unfolding range_strings
class_strings [] = []
class_strings (r ∷ rs) = range_strings r.lo r.span ++ class_strings rs

-- The case of `OpCharClass`.
unfoldable pub analyze_class : Platform → RuneClass → RegexpInfo
unfolding class_strings simplify
analyze_class p (one_rune r) = simplify false (exactly false (rune_bytes r ∷ []) 1)
analyze_class p (rune_pairs []) = no_match_info
analyze_class p (rune_pairs (r ∷ rs)) =
    if ltb 100 (total_span (r ∷ rs))
    then any_char_info
    else simplify false
        (exactly false (class_strings (r ∷ rs)) (cap_adds p 0 0 (length (class_strings (r ∷ rs)))))

-- The loop over the letters of a literal whose case is folded.
unfoldable pub folded_letters : Platform → RegexpInfo → List ℕ → Option RegexpInfo
unfolding folded_class analyze_class concat
folded_letters p info [] = some info
folded_letters p info (r ∷ rs) = elim (folded_class p r) [
  | none ↦ none
  | some c ↦ folded_letters p (concat p info (analyze_class p c)) rs
]

-- The case of `OpLiteral`.
unfoldable pub analyze_literal : Platform → Bool → List ℕ → Option RegexpInfo
unfolding folded_letters
analyze_literal p false rs = some (simplify false (exactly false (runes_bytes rs ∷ []) 1))
analyze_literal p true [] = some empty_string_info
analyze_literal p true (r ∷ []) = elim (folded_class p r) [
  | none ↦ none
  | some c ↦ some (analyze_class p c)
]
analyze_literal p true (r ∷ s ∷ rs) = folded_letters p empty_string_info (r ∷ s ∷ rs)

-- The case of `OpPlus`.
unfoldable pub once_or_more : RegexpInfo → RegexpInfo
unfolding simplify
once_or_more info = elim info.exact [
  | none ↦ simplify false info
  | some e ↦ simplify false (record info { exact = none; cap = 0; prefix = e; suffix = e })
]

-- `f(x, y)` where both are there.
abbrev pub combine :
    (RegexpInfo → RegexpInfo → Option RegexpInfo)
    → Option RegexpInfo
    → Option RegexpInfo
    → Option RegexpInfo
combine f none y = none
combine f (some x) none = none
combine f (some x) (some y) = f x y

abbrev pub concat_some : Platform → RegexpInfo → RegexpInfo → Option RegexpInfo
concat_some p x y = some (concat p x y)

abbrev pub on_some : (RegexpInfo → RegexpInfo) → Option RegexpInfo → Option RegexpInfo
on_some f none = none
on_some f (some x) = some (f x)

unfoldable mutual
  unfolding analyze_literal once_or_more alternate

  pub analyze : Platform → Regexp → Option RegexpInfo
  analyze p no_match = some no_match_info
  analyze p empty_match = some empty_string_info
  analyze p begin_line = some empty_string_info
  analyze p end_line = some empty_string_info
  analyze p begin_text = some empty_string_info
  analyze p end_text = some empty_string_info
  analyze p word_boundary = some empty_string_info
  analyze p no_word_boundary = some empty_string_info
  analyze p any_char_not_nl = some any_char_info
  analyze p any_char = some any_char_info
  analyze p (literal fold_case rs) = analyze_literal p fold_case rs
  analyze p (char_class c) = some (analyze_class p c)
  analyze p (capture re) = analyze p re
  analyze p (star re) = some any_match_info
  analyze p (plus re) = on_some once_or_more (analyze p re)
  analyze p (quest re) = combine (alternate p) (analyze p re) (some empty_string_info)
  analyze p (repeat zero max re) = some any_match_info
  analyze p (repeat (suc n) max re) = on_some once_or_more (analyze p re)
  analyze p (concat_of rs) = fold p (concat_some p) rs empty_string_info
  analyze p (alternate_of rs) = fold p (alternate p) rs no_match_info

  -- `fold`, and its loop from the second expression on.
  pub fold :
      Platform
      → (RegexpInfo → RegexpInfo → Option RegexpInfo)
      → Regexps
      → RegexpInfo
      → Option RegexpInfo
  fold p f nil_re zero_info = some zero_info
  fold p f (cons_re re rs) zero_info = fold_rest p f (analyze p re) rs

  pub fold_rest :
      Platform
      → (RegexpInfo → RegexpInfo → Option RegexpInfo)
      → Option RegexpInfo
      → Regexps
      → Option RegexpInfo
  fold_rest p f info nil_re = info
  fold_rest p f info (cons_re re rs) = fold_rest p f (combine f info (analyze p re)) rs

unfoldable pub regexp_query : Platform → Regexp → Option Query
unfolding analyze
regexp_query p re = elim (analyze p re) [
  | none ↦ none
  | some info ↦ some (add_exact (simplify true info)).query
]
