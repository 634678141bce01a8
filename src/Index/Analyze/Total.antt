-- ===== src/Index/Analyze/Total.antt =====
-- Where the analysis returns a query.
use codesearch.Common.{ℕ, zero, suc, ◌≡◌, refl, arith, Bool, true, false, ◌||◌, Option, none, some}
use codesearch.Common.{List, ◌++◌}
use codesearch.Common.Strings.{Str}
use codesearch.Index.Query.{Query}
use codesearch.Index.Query.Logic.{matches}
use codesearch.Index.Query.Trigrams.{has_trigram}
use codesearch.Index.Analyze.{
  RegexpInfo, Platform, Regexp, Regexps, no_match, empty_match, begin_line, end_line, begin_text,
  end_text, word_boundary, no_word_boundary, any_char_not_nl, any_char, literal, char_class,
  capture, star, plus, quest, repeat, concat_of, alternate_of, nil_re, cons_re, empty_string_info,
}
use codesearch.Index.Analyze.Simplify.{add_exact, simplify}
use codesearch.Index.Analyze.Combine.{alternate}
use codesearch.Index.Analyze.Walk.{
  combine, concat_some, on_some, once_or_more, analyze, analyze_literal, fold_rest, regexp_query,
}
use codesearch.Index.Analyze.Texts.{IsCyclic, Matches}
use codesearch.Index.Analyze.Folding.{Folded-TellsThere}
use codesearch.Index.Analyze.Sound.{regexp_query-keeps}

-- The expression has no alternative; what may be left out is none.
abbrev mutual
  pub has_choice : Regexp → Bool
  has_choice (alternate_of rs) = true
  has_choice (capture re) = has_choice re
  has_choice (plus re) = has_choice re
  has_choice (quest re) = has_choice re
  has_choice (repeat min max re) = has_choice re
  has_choice (concat_of rs) = some_choice rs
  has_choice _ = false

  some_choice : Regexps → Bool
  some_choice nil_re = false
  some_choice (cons_re re rs) = has_choice re || some_choice rs

-- An outcome that is there.
abbrev IsThere : Option RegexpInfo → Type 0
IsThere o = (info : RegexpInfo) × (o ≡ some info)

on_some-IsThere :
    (f : RegexpInfo → RegexpInfo) (o : Option RegexpInfo) → IsThere o → IsThere (on_some f o)
on_some-IsThere f none (i, e) = ground arith
on_some-IsThere f (some x) h = (f x, refl)

combine-IsThere :
    (p : Platform) (x y : Option RegexpInfo)
    → IsThere x
    → IsThere y
    → IsThere (combine (concat_some p) x y)
combine-IsThere p none y (i, e) hy = ground arith
combine-IsThere p (some x) none hx (i, e) = ground arith
combine-IsThere p (some x) (some y) hx hy = (_, refl)

-- With an exact second part, as for `?`, nothing is shared.
alternate-some : (p : Platform) (x : RegexpInfo) → IsThere (alternate p x empty_string_info)
unfolding alternate
alternate-some p x = go x.exact
  where
    go : (o : Option (List Str)) → IsThere (alternate p (record x { exact = o }) empty_string_info)
    go none = (_, refl)
    go (some e) = (_, refl)

quest-IsThere :
    (p : Platform) (o : Option RegexpInfo)
    → IsThere o
    → IsThere (combine (alternate p) o (some empty_string_info))
quest-IsThere p none (i, e) = ground arith
quest-IsThere p (some x) h = alternate-some p x

analyze_literal-IsThere :
    (p : Platform) (fold_case : Bool) (rs : List ℕ)
    → IsCyclic p
    → IsThere (analyze_literal p fold_case rs)
unfolding analyze_literal
analyze_literal-IsThere p false rs y = (_, refl)
analyze_literal-IsThere p true rs y =
    let (i, e, all) = Folded-TellsThere p rs y in (i, unfold analyze_literal in e)

both_false : (a b : Bool) → (a || b) ≡ false → (a ≡ false) × (b ≡ false)
both_false true b h = ground (arith, h)
both_false false b h = (refl, h)

mutual
  unfolding analyze

  analyze-IsThere :
      (p : Platform) (re : Regexp) → IsCyclic p → has_choice re ≡ false → IsThere (analyze p re)
  analyze-IsThere p no_match y h = (_, refl)
  analyze-IsThere p empty_match y h = (_, refl)
  analyze-IsThere p begin_line y h = (_, refl)
  analyze-IsThere p end_line y h = (_, refl)
  analyze-IsThere p begin_text y h = (_, refl)
  analyze-IsThere p end_text y h = (_, refl)
  analyze-IsThere p word_boundary y h = (_, refl)
  analyze-IsThere p no_word_boundary y h = (_, refl)
  analyze-IsThere p any_char_not_nl y h = (_, refl)
  analyze-IsThere p any_char y h = (_, refl)
  analyze-IsThere p (literal f rs) y h = analyze_literal-IsThere p f rs y
  analyze-IsThere p (char_class c) y h = (_, refl)
  analyze-IsThere p (capture re) y h = analyze-IsThere p re y h
  analyze-IsThere p (star re) y h = (_, refl)
  analyze-IsThere p (plus re) y h =
      on_some-IsThere once_or_more (analyze p re) (analyze-IsThere p re y h)
  analyze-IsThere p (quest re) y h = quest-IsThere p (analyze p re) (analyze-IsThere p re y h)
  analyze-IsThere p (repeat zero max re) y h = (_, refl)
  analyze-IsThere p (repeat (suc min) max re) y h =
      on_some-IsThere once_or_more (analyze p re) (analyze-IsThere p re y h)
  analyze-IsThere p (concat_of nil_re) y h = (_, refl)
  analyze-IsThere p (concat_of (cons_re re rs)) y h =
      let (one, more) = both_false (has_choice re) (some_choice rs) h in
      fold_rest-IsThere p (analyze p re) rs y more (analyze-IsThere p re y one)
  analyze-IsThere p (alternate_of rs) y h = ground (arith, h)

  fold_rest-IsThere :
      (p : Platform) (o : Option RegexpInfo) (rs : Regexps)
      → IsCyclic p
      → some_choice rs ≡ false
      → IsThere o
      → IsThere (fold_rest p (concat_some p) o rs)
  fold_rest-IsThere p o nil_re y h k = k
  fold_rest-IsThere p o (cons_re re rs) y h k =
      let (one, more) = both_false (has_choice re) (some_choice rs) h in
      fold_rest-IsThere p (combine (concat_some p) o (analyze p re)) rs y more
        (combine-IsThere p o (analyze p re) k (analyze-IsThere p re y one))

-- Where `SimpleFold` is cyclic, and the expression has no alternative, so that no two sets share an
-- array, the loops of `RegexpQuery` end. It returns a query, and the query matches the trigrams of
-- every text that holds a match of the expression.
pub regexp_query-returns :
    (p : Platform) (re : Regexp)
    → IsCyclic p
    → has_choice re ≡ false
    → (q : Query) × (regexp_query p re ≡ some q)
      × ((before s after : Str)
          → Matches p re s
          → matches (has_trigram (before ++ (s ++ after))) q ≡ true)
unfolding regexp_query
regexp_query-returns p re y h =
    let (info, e) = analyze-IsThere p re y h in
    let end = add_exact (simplify true info) in
    let run : regexp_query p re ≡ some end.query = rw (e, regexp_query) refl in
    (end.query, run, λ before s after m. regexp_query-keeps p re end.query before s after y run m)
