-- ===== src/Index/Analyze/Sound.antt =====
-- The query that `RegexpQuery` makes for a regular expression matches every text with a match.
use mathlib.Core.List.{append_assoc}
use codesearch.Common.{ℕ, zero, suc, ◌≤◌, ◌≡◌, ◌⊎◌, refl, arith, ◌∙◌, ap, sym, subst}
use codesearch.Common.{true, false, Option, none, some, inl, inr, List, [], ◌++◌}
use codesearch.Common.Strings.{Str}
use codesearch.Index.Query.{Query}
use codesearch.Index.Query.Logic.{matches}
use codesearch.Index.Query.Trigrams.{has_trigram}
use codesearch.Index.Analyze.{
  RegexpInfo, Platform, Regexp, Regexps, no_match, empty_match, begin_line, end_line, begin_text,
  end_text, word_boundary, no_word_boundary, any_char_not_nl, any_char, literal, char_class,
  capture, star, plus, quest, repeat, concat_of, alternate_of, nil_re, cons_re, runes_bytes,
  empty_string_info,
}
use codesearch.Index.Analyze.Simplify.{add_exact, simplify}
use codesearch.Index.Analyze.Combine.{concat, alternate}
use codesearch.Index.Analyze.Walk.{
  combine, concat_some, on_some, once_or_more, analyze, analyze_literal, fold_rest, regexp_query,
}
use codesearch.Index.Analyze.Cover.{append_end}
use codesearch.Index.Analyze.Keep.{Tells, add_exact-Tells, simplify-Tells, simplify-IsFormed}
use codesearch.Index.Analyze.Concat.{concat-Tells, concat-IsFormed}
use codesearch.Index.Analyze.Either.{Offers, EitherTells, alternate-Offers}
use codesearch.Index.Analyze.Texts.{IsCyclic, Folded, Power, Matches, MatchesAll, MatchesAny}
use codesearch.Index.Analyze.Cases.{
  any_char-TellsAll, any_match-TellsAll, analyze_class-TellsAll, literal-TellsAll,
  empty_string-TellsAll, no_match-TellsAll,
}
use codesearch.Index.Analyze.Folding.{TellsThere, Folded-TellsThere}
use codesearch.Index.Analyze.Repeated.{once_or_more-TellsAll}

Offers-weaken :
    (P Q : Str → Type 0) (o : Option RegexpInfo) → ((s : Str) → P s → Q s) → Offers Q o → Offers P o
Offers-weaken P Q none f h = tt
Offers-weaken P Q (some i) f (w, h) = (w, λ s k. h s (f s k))

-- A text of `P` with one of `Q` behind it.
abbrev Behind : (Str → Type 0) → (Str → Type 0) → Str → Type 0
Behind P Q s = (u v : Str) × (s ≡ u ++ v) × P u × Q v

combine-concat :
    (p : Platform) (P Q : Str → Type 0) (x y : Option RegexpInfo)
    → Offers P x
    → Offers Q y
    → Offers (Behind P Q) (combine (concat_some p) x y)
combine-concat p P Q none y hx hy = tt
combine-concat p P Q (some x) none hx hy = tt
combine-concat p P Q (some x) (some y) (wx, hx) (wy, hy) = (
  concat-IsFormed p x y wx wy,
  λ s (u, v, e, ku, kv).
      subst (λ t. Tells (concat p x y) t) (sym e)
        (concat-Tells p x y u v wx wy (hx u ku) (hy v kv)),
)

combine-alternate :
    (p : Platform) (P Q : Str → Type 0) (x y : Option RegexpInfo)
    → Offers P x
    → Offers Q y
    → Offers (λ s. P s ⊎ Q s) (combine (alternate p) x y)
combine-alternate p P Q none y hx hy = tt
combine-alternate p P Q (some x) none hx hy = tt
combine-alternate p P Q (some x) (some y) (wx, hx) (wy, hy) =
    Offers-weaken (λ s. P s ⊎ Q s) (EitherTells x y) (alternate p x y)
      (λ s k. elim k [ inl a ↦ inl (hx s a) | inr b ↦ inr (hy s b) ]) (alternate-Offers p x y wx wy)

on_some-Offers :
    (P : Str → Type 0) (o : Option RegexpInfo)
    → Offers P o
    → Offers (λ s. (n : ℕ) × Power P (suc n) s) (on_some once_or_more o)
on_some-Offers P none h = tt
on_some-Offers P (some i) h = once_or_more-TellsAll P i h

at_least :
    (n min : ℕ) (s : Str) (P : Str → Type 0)
    → suc min ≤ n
    → Power P n s
    → (k : ℕ) × Power P (suc k) s
at_least zero min s P low k = absurd (omega (arith, low))
at_least (suc n) min s P low k = (n, k)

-- What is said of each expression of a list.
abbrev ListOffers : Platform → Regexps → Type 0
ListOffers p nil_re = Unit
ListOffers p (cons_re re rs) = Offers (Matches p re) (analyze p re) × ListOffers p rs

concat_rest-Offers :
    (p : Platform) (P : Str → Type 0) (o : Option RegexpInfo) (rs : Regexps)
    → ListOffers p rs
    → Offers P o
    → Offers (Behind P (MatchesAll p rs)) (fold_rest p (concat_some p) o rs)
unfolding analyze
concat_rest-Offers p P o nil_re l h =
    Offers-weaken (Behind P (λ s. s ≡ [])) P o
      (λ s (u, v, e, k, m). subst P (sym (e ∙ ap (λ t. u ++ t) m ∙ sym (append_end u))) k) h
concat_rest-Offers p P o (cons_re re rs) (k, l) h =
    Offers-weaken (Behind P (MatchesAll p (cons_re re rs)))
      (Behind (Behind P (Matches p re)) (MatchesAll p rs)) _
      (λ s (u, v, e, ku, (a, b, g, m, more)).
        (u ++ a, b, e ∙ ap (λ t. u ++ t) g ∙ sym (append_assoc u a b), (u, a, refl, ku, m), more))
      (concat_rest-Offers p (Behind P (Matches p re)) (combine (concat_some p) o (analyze p re)) rs
        l (combine-concat p P (Matches p re) o (analyze p re) h k))

alternate_rest-Offers :
    (p : Platform) (P : Str → Type 0) (o : Option RegexpInfo) (rs : Regexps)
    → ListOffers p rs
    → Offers P o
    → Offers (λ s. P s ⊎ MatchesAny p rs s) (fold_rest p (alternate p) o rs)
unfolding analyze
alternate_rest-Offers p P o nil_re l h =
    Offers-weaken (λ s. P s ⊎ ⊥) P o (λ s k. elim k [ inl a ↦ a | inr n ↦ absurd n ]) h
alternate_rest-Offers p P o (cons_re re rs) (k, l) h =
    Offers-weaken (λ s. P s ⊎ MatchesAny p (cons_re re rs) s)
      (λ s. (P s ⊎ Matches p re s) ⊎ MatchesAny p rs s) _
      (λ s m. elim m [ inl a ↦ inl (inl a) | inr (inl b) ↦ inl (inr b) | inr (inr d) ↦ inr d ])
      (alternate_rest-Offers p (λ s. P s ⊎ Matches p re s) (combine (alternate p) o (analyze p re))
        rs l (combine-alternate p P (Matches p re) o (analyze p re) h k))

literal-Offers :
    (p : Platform) (rs : List ℕ) → Offers (λ s. s ≡ runes_bytes rs) (analyze_literal p false rs)
unfolding analyze_literal
literal-Offers p rs = literal-TellsAll rs

TellsThere-Offers : (P : Str → Type 0) (o : Option RegexpInfo) → TellsThere P o → Offers P o
TellsThere-Offers P o (i, e, h) = subst (Offers P) (sym e) h

mutual
  unfolding analyze

  analyze-Offers : (p : Platform) (re : Regexp) → IsCyclic p → Offers (Matches p re) (analyze p re)
  analyze-Offers p no_match c = no_match-TellsAll (Matches p no_match) (λ s k. k)
  analyze-Offers p empty_match c = empty_string-TellsAll
  analyze-Offers p begin_line c = empty_string-TellsAll
  analyze-Offers p end_line c = empty_string-TellsAll
  analyze-Offers p begin_text c = empty_string-TellsAll
  analyze-Offers p end_text c = empty_string-TellsAll
  analyze-Offers p word_boundary c = empty_string-TellsAll
  analyze-Offers p no_word_boundary c = empty_string-TellsAll
  analyze-Offers p any_char_not_nl c = any_char-TellsAll (Matches p any_char_not_nl)
  analyze-Offers p any_char c = any_char-TellsAll (Matches p any_char)
  analyze-Offers p (literal false rs) c = literal-Offers p rs
  analyze-Offers p (literal true rs) c =
      TellsThere-Offers (Folded p rs) _ (Folded-TellsThere p rs c)
  analyze-Offers p (char_class k) c = analyze_class-TellsAll p k
  analyze-Offers p (capture re) c = analyze-Offers p re c
  analyze-Offers p (star re) c = any_match-TellsAll (Matches p (star re))
  analyze-Offers p (plus re) c =
      on_some-Offers (Matches p re) (analyze p re) (analyze-Offers p re c)
  analyze-Offers p (quest re) c =
      combine-alternate p (Matches p re) (λ s. s ≡ []) (analyze p re) (some empty_string_info)
        (analyze-Offers p re c) empty_string-TellsAll
  analyze-Offers p (repeat zero max re) c = any_match-TellsAll (Matches p (repeat zero max re))
  analyze-Offers p (repeat (suc min) max re) c =
      Offers-weaken (Matches p (repeat (suc min) max re)) (Matches p (plus re)) _
        (λ s (n, low, high, k). at_least n min s (Matches p re) low k)
        (on_some-Offers (Matches p re) (analyze p re) (analyze-Offers p re c))
  analyze-Offers p (concat_of nil_re) c = empty_string-TellsAll
  analyze-Offers p (concat_of (cons_re re rs)) c =
      concat_rest-Offers p (Matches p re) (analyze p re) rs (list-Offers p rs c)
        (analyze-Offers p re c)
  analyze-Offers p (alternate_of nil_re) c =
      no_match-TellsAll (Matches p (alternate_of nil_re)) (λ s k. k)
  analyze-Offers p (alternate_of (cons_re re rs)) c =
      alternate_rest-Offers p (Matches p re) (analyze p re) rs (list-Offers p rs c)
        (analyze-Offers p re c)

  list-Offers : (p : Platform) (rs : Regexps) → IsCyclic p → ListOffers p rs
  list-Offers p nil_re c = tt
  list-Offers p (cons_re re rs) c = (analyze-Offers p re c, list-Offers p rs c)

asked :
    (p : Platform) (re : Regexp) (P : Str → Type 0) (o : Option RegexpInfo) (q : Query)
    (s before after : Str)
    → analyze p re ≡ o
    → Offers P o
    → regexp_query p re ≡ some q
    → P s
    → matches (has_trigram (before ++ (s ++ after))) q ≡ true
unfolding regexp_query
asked p re P none q s before after e h run m =
    let no : regexp_query p re ≡ none = rw (e, regexp_query) refl in ground (arith, no, run)
asked p re P (some i) q s before after e (w, h) run m =
    let end : RegexpInfo = add_exact (simplify true i) in
    let yes : regexp_query p re ≡ some end.query = rw (e, regexp_query) refl in
    let same : q ≡ end.query = ground (arith, yes, run) in
    rw same (
      (add_exact-Tells (simplify true i) s (simplify-IsFormed true i w)
          (simplify-Tells true i s w (h s m))).keeps
        before after)

-- Where `SimpleFold` is cyclic and no two sets of an alternative share an array, the query for a
-- regular expression matches the trigrams of every text that holds a match of it.
pub regexp_query-keeps :
    (p : Platform) (re : Regexp) (q : Query) (before s after : Str)
    → IsCyclic p
    → regexp_query p re ≡ some q
    → Matches p re s
    → matches (has_trigram (before ++ (s ++ after))) q ≡ true
regexp_query-keeps p re q before s after c run m =
    asked p re (Matches p re) (analyze p re) q s before after refl (analyze-Offers p re c) run m
