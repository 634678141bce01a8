-- ===== src/Index/Analyze/Texts.antt =====
-- The texts that match a regular expression, as `regexp/syntax` documents it. A text is UTF-8, and
-- the bounds of lines, texts and words are taken to match wherever they stand.
use codesearch.Common.{
  ℕ, zero, suc, ◌+◌, ◌≤◌, ◌≡◌, ◌≢◌, ◌⊎◌, true, false, Option, none, some, List, [], ◌∷◌, ◌++◌,
}
use codesearch.Common.{length}
use codesearch.Common.Strings.{Str}
use codesearch.Index.Analyze.{
  Platform, Regexp, Regexps, RuneClass, RuneRange, one_rune, rune_pairs, no_match, empty_match,
  begin_line, end_line, begin_text, end_text, word_boundary, no_word_boundary, any_char_not_nl,
  any_char, literal, char_class, capture, star, plus, quest, repeat, concat_of, alternate_of,
  nil_re, cons_re, runes_bytes, rune_bytes,
}

abbrev pub iterate : (ℕ → ℕ) → ℕ → ℕ → ℕ
iterate f zero x = x
iterate f (suc n) x = iterate f n (f x)

-- The rune is reached by `SimpleFold`.
abbrev pub FoldsTo : Platform → ℕ → ℕ → Type 0
FoldsTo p r r' = (k : ℕ) × (iterate p.simple_fold k r ≡ r')

-- `SimpleFold` returns to each rune, within the steps that are given for it.
pub record IsCyclic (p : Platform) : Type 0 where
  pub returns : (r : ℕ) → iterate p.simple_fold (p.fold_steps r) (p.simple_fold r) ≡ r

abbrev pub Folded : Platform → List ℕ → Str → Type 0
Folded p [] s = s ≡ []
Folded p (r ∷ rs) s =
    (r' : ℕ) × (v : Str) × (s ≡ rune_bytes r' ++ v) × FoldsTo p r r' × Folded p rs v

abbrev pub InRanges : List RuneRange → ℕ → Type 0
InRanges [] r = ⊥
InRanges (x ∷ xs) r = ((x.lo ≤ r) × (r ≤ x.lo + x.span)) ⊎ InRanges xs r

abbrev pub InClass : RuneClass → ℕ → Type 0
InClass (one_rune x) r = r ≡ x
InClass (rune_pairs xs) r = InRanges xs r

abbrev pub ClassText : RuneClass → Str → Type 0
ClassText c s = (r : ℕ) × InClass c r × (s ≡ rune_bytes r)

-- One character, of at least a byte.
abbrev pub CharText : Str → Type 0
CharText s = (c : ℕ) × (t : Str) × (s ≡ c ∷ t) × (length t ≤ 3)

-- So many texts in a row.
abbrev pub Power : (Str → Type 0) → ℕ → Str → Type 0
Power P zero s = s ≡ []
Power P (suc n) s = (u v : Str) × (s ≡ u ++ v) × P u × Power P n v

abbrev pub AtMost : ℕ → Option ℕ → Type 0
AtMost n none = Unit
AtMost n (some max) = n ≤ max

abbrev mutual
  pub Matches : Platform → Regexp → Str → Type 0
  Matches p no_match s = ⊥
  Matches p empty_match s = s ≡ []
  Matches p begin_line s = s ≡ []
  Matches p end_line s = s ≡ []
  Matches p begin_text s = s ≡ []
  Matches p end_text s = s ≡ []
  Matches p word_boundary s = s ≡ []
  Matches p no_word_boundary s = s ≡ []
  Matches p any_char_not_nl s = CharText s × (s ≢ 10 ∷ [])
  Matches p any_char s = CharText s
  Matches p (literal false rs) s = s ≡ runes_bytes rs
  Matches p (literal true rs) s = Folded p rs s
  Matches p (char_class c) s = ClassText c s
  Matches p (capture re) s = Matches p re s
  Matches p (star re) s = (n : ℕ) × Power (Matches p re) n s
  Matches p (plus re) s = (n : ℕ) × Power (Matches p re) (suc n) s
  Matches p (quest re) s = Matches p re s ⊎ (s ≡ [])
  Matches p (repeat min max re) s = (n : ℕ) × (min ≤ n) × AtMost n max × Power (Matches p re) n s
  Matches p (concat_of rs) s = MatchesAll p rs s
  Matches p (alternate_of rs) s = MatchesAny p rs s

  pub MatchesAll : Platform → Regexps → Str → Type 0
  MatchesAll p nil_re s = s ≡ []
  MatchesAll p (cons_re re rs) s = (u v : Str) × (s ≡ u ++ v) × Matches p re u × MatchesAll p rs v

  pub MatchesAny : Platform → Regexps → Str → Type 0
  MatchesAny p nil_re s = ⊥
  MatchesAny p (cons_re re rs) s = Matches p re s ⊎ MatchesAny p rs s
