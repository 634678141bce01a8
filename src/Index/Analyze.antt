-- ===== src/Index/Analyze.antt =====
-- `analyze` of index/regexp.go: what is known of the texts that match a regular expression.
--
-- The sets share storage only in one place. `union` appends to its receiver, and `alternate` calls
-- it twice on `x.exact`: with room behind `x.exact` the two results would overwrite each other. The
-- capacity of an array that holds exact strings is kept, the growth of arrays is a parameter, and
-- the model stops with `none` where that happens.
pub mod Sets
pub mod Simplify
pub mod Combine
pub mod Walk
pub mod Cover
pub mod Keep
pub mod Join
pub mod Concat
pub mod Either
pub mod Texts
pub mod Cases
pub mod Folding
pub mod Repeated
pub mod Sound
pub mod Bounds
pub mod Total
mod Runs
use codesearch.Common.{
  ℕ, zero, suc, ◌+◌, ◌-◌, ◌*◌, ◌/◌, ◌%◌, ◌^◌, Bool, true, false, not, ◌&&◌, ◌||◌,
}
use codesearch.Common.{Option, none, some, List, [], ◌∷◌, ◌++◌, map, ltb, leb, ◌==◌, if◌then◌else◌}
use codesearch.Common.{length, take, drop}
use codesearch.Common.Strings.{Str, str_lt, str_eq}
use codesearch.Index.StringSet.{clean_by, compact, cross_all, min_len}
use codesearch.Index.Query.{Query, all_query, none_query, query_and, query_or, and_trigrams}

-- A range of runes, by its first and the distance to its last.
pub record RuneRange : Type 0 where
  pub lo : ℕ
  pub span : ℕ

-- `Rune` of a class: one rune, or pairs.
pub data RuneClass : Type 0 where
  one_rune : ℕ → RuneClass
  rune_pairs : List RuneRange → RuneClass

-- `syntax.Regexp`; a literal says whether it folds case.
mutual
  pub data Regexp : Type 0 where
    no_match empty_match begin_line end_line begin_text end_text : Regexp
    word_boundary no_word_boundary any_char_not_nl any_char : Regexp
    literal : Bool → List ℕ → Regexp
    char_class : RuneClass → Regexp
    capture star plus quest : Regexp → Regexp
    repeat : ℕ → Option ℕ → Regexp → Regexp
    concat_of alternate_of : Regexps → Regexp

  pub data Regexps : Type 0 where
    nil_re : Regexps
    cons_re : Regexp → Regexps → Regexps

-- `string(r)`: UTF-8, and U+FFFD for what is no rune.
unfoldable pub rune_bytes : ℕ → Str
rune_bytes r =
    if ltb r 0x80
    then r ∷ []
    else if ltb r 0x800
    then (0xc0 + r / 2 ^ 6) ∷ (0x80 + r % 2 ^ 6) ∷ []
    else if ltb 0x10ffff r || (leb 0xd800 r && ltb r 0xe000)
    then 0xef ∷ 0xbf ∷ 0xbd ∷ []
    else if ltb r 0x10000
    then (0xe0 + r / 2 ^ 12) ∷ (0x80 + r / 2 ^ 6 % 2 ^ 6) ∷ (0x80 + r % 2 ^ 6) ∷ []
    else (0xf0 + r / 2 ^ 18)
      ∷ (0x80 + r / 2 ^ 12 % 2 ^ 6)
      ∷ (0x80 + r / 2 ^ 6 % 2 ^ 6)
      ∷ (0x80 + r % 2 ^ 6)
      ∷ []

-- `string(re.Rune)`
unfoldable pub runes_bytes : List ℕ → Str
unfolding rune_bytes
runes_bytes [] = []
runes_bytes (r ∷ rs) = rune_bytes r ++ runes_bytes rs

-- `regexpInfo`, with `nil` for `exact` as `none`; `cap` is the capacity of the array of `exact`.
pub record RegexpInfo : Type 0 where
  pub can_empty : Bool
  pub exact : Option (List Str)
  pub cap : ℕ
  pub prefix : List Str
  pub suffix : List Str
  pub query : Query

abbrev pub max_exact : ℕ
max_exact = 7

abbrev pub max_set : ℕ
max_set = 20

abbrev pub any_match_info : RegexpInfo
any_match_info = record {
  can_empty = true;
  exact = none;
  cap = 0;
  prefix = [] ∷ [];
  suffix = [] ∷ [];
  query = all_query;
}

abbrev pub any_char_info : RegexpInfo
any_char_info = record {
  can_empty = false;
  exact = none;
  cap = 0;
  prefix = [] ∷ [];
  suffix = [] ∷ [];
  query = all_query;
}

abbrev pub no_match_info : RegexpInfo
no_match_info = record {
  can_empty = false;
  exact = none;
  cap = 0;
  prefix = [];
  suffix = [];
  query = none_query;
}

-- A set of one string that is written out, and all is known.
abbrev pub exactly : Bool → List Str → ℕ → RegexpInfo
exactly can_empty set cap = record {
  can_empty = can_empty;
  exact = some set;
  cap = cap;
  prefix = [];
  suffix = [];
  query = all_query;
}

abbrev pub empty_string_info : RegexpInfo
empty_string_info = exactly true ([] ∷ []) 1

-- `have` and `copy`.
abbrev pub have : Option (List Str) → Bool
have none = false
have (some s) = true

abbrev pub strings_of : Option (List Str) → List Str
strings_of none = []
strings_of (some s) = s

-- What the code relies on: the growth of an array by `append` from a capacity and the length that
-- is needed, and `unicode.SimpleFold` with a number of steps that return to the rune.
pub record Platform : Type 0 where
  pub grow : ℕ → ℕ → ℕ
  pub simple_fold : ℕ → ℕ
  pub fold_steps : ℕ → ℕ
