-- ===== src/Expr/Parse.antt =====
-- `Parse` of expr/expr.go: the expression is split at its blanks, codes are taken off the front of
-- a part, and each part is parsed and cleaned.
use codesearch.Common.{ℕ, zero, suc, ◌+◌, ◌-◌, Bool, true, false, ◌&&◌, ◌||◌, if◌then◌else◌}
use codesearch.Common.{Option, none, some, List, [], ◌∷◌, ◌++◌, ltb, ◌==◌, length, drop, take}
use codesearch.Common.Strings.{Str, str_eq}
use codesearch.Expr.{
  rune_len, Move, to, ends, fails, is_prefixed, escape, move_by, consume_char_class, consume_paren,
}

-- `syntax.Op`, as far as the code tests it.
pub data RegexpOp : Type 0 where
  empty_match no_match capture concat : RegexpOp
  other : ℕ → RegexpOp

-- `syntax.Regexp`: its operator and `Sub`; what else it holds is a number.
mutual
  pub data Regexp : Type 0 where
    regexp : RegexpOp → ℕ → Regexps → Regexp

  pub data Regexps : Type 0 where
    nil : Regexps
    cons : Regexp → Regexps → Regexps

abbrev pub is_empty_match : Regexp → Bool
is_empty_match (regexp empty_match info subs) = true
is_empty_match (regexp no_match info subs) = false
is_empty_match (regexp capture info subs) = false
is_empty_match (regexp concat info subs) = false
is_empty_match (regexp (other n) info subs) = false

abbrev pub is_nothing : Regexp → Bool
is_nothing (regexp no_match info subs) = true
is_nothing (regexp empty_match info subs) = true
is_nothing (regexp capture info subs) = false
is_nothing (regexp concat info subs) = false
is_nothing (regexp (other n) info subs) = false

-- The loop that keeps what is no empty match.
unfoldable pub drop_empty : Regexps → Regexps
drop_empty nil = nil
drop_empty (cons re res) = if is_empty_match re then drop_empty res else cons re (drop_empty res)

abbrev pub kept_concat : ℕ → Regexps → Regexps → Regexp
kept_concat info subs nil = regexp empty_match info subs
kept_concat info subs (cons re res) = regexp concat info (cons re res)

-- A capture holds one expression; without one `re.Sub[0]` panics, and here it stays.
abbrev pub captured : ℕ → Regexps → Regexp
captured info nil = regexp capture info nil
captured info (cons re res) = re

unfoldable mutual
  unfolding drop_empty

  pub clean_regexp : Regexp → Regexp
  clean_regexp (regexp capture info subs) = captured info (clean_subs subs)
  clean_regexp (regexp concat info subs) =
      kept_concat info (clean_subs subs) (drop_empty (clean_subs subs))
  clean_regexp (regexp empty_match info subs) = regexp empty_match info (clean_subs subs)
  clean_regexp (regexp no_match info subs) = regexp no_match info (clean_subs subs)
  clean_regexp (regexp (other n) info subs) = regexp (other n) info (clean_subs subs)

  pub clean_subs : Regexps → Regexps
  clean_subs nil = nil
  clean_subs (cons re res) = cons (clean_regexp re) (clean_subs res)

pub data Code : Type 0 where
  snippet match file language : Code

pub record Part : Type 0 where
  pub negated : Bool
  pub code : Code
  pub expression : Str

-- The variables of `Parse`.
pub record Scanner : Type 0 where
  pub start : ℕ
  pub pos : ℕ
  pub cur : Option Part
  pub parts : List Part

-- What a round, or `Parse`, comes to.
pub data Outcome (A : Type 0) : Type 0 where
  ok : A → Outcome A
  failed : Outcome A
  panicked : Outcome A
  exhausted : Outcome A

-- `expr[start:pos]`
unfoldable pub slice : Str → ℕ → ℕ → Option Str
slice expr start pos =
    if ltb pos start || ltb (length expr) pos
    then none
    else some (take (pos - start) (drop start expr))

abbrev pub is_snippet : Code → Bool
is_snippet snippet = true
is_snippet match = false
is_snippet file = false
is_snippet language = false

abbrev pub new_part : Part
new_part = record { negated = false; code = snippet; expression = [] }

abbrev pub part_of : Option Part → Part
part_of none = new_part
part_of (some p) = p

-- `cur.Negated = v[0] == '-'`, and the code that goes with it; `-` is 45.
abbrev pub signed : Part → Str → Part
signed p v =
    if is_snippet p.code
    then (if is_prefixed 45 v
        then record p { negated = true; code = match }
        else record p { negated = false })
    else p

abbrev pub unsigned : Part → Str → Str
unsigned p v = if is_snippet p.code && is_prefixed 45 v then drop 1 v else v

module _ (rune_size : Str → ℕ) (parse_regexp : Str → Option Regexp)
    (print_regexp : Regexp → Str) where
  -- `placeValue`, which is called with a string that is not empty.
  unfoldable pub place_value : Scanner → Str → Outcome Scanner
  unfolding clean_regexp
  place_value s v =
      let p = part_of s.cur in
      elim (parse_regexp (unsigned p v)) [
        | none ↦ failed
        | some re ↦
            if is_nothing (clean_regexp re)
            then failed
            else ok (record s {
              parts =
                  s.parts
                  ++ (record (signed p v) { expression = print_regexp (clean_regexp re) } ∷ []);
              cur = none;
            })
      ]

  unfoldable pub place_slice : Str → Scanner → Outcome Scanner
  unfolding place_value slice
  place_slice expr s = elim (slice expr s.start s.pos) [
    | none ↦ panicked
    | some v ↦ place_value s v
  ]

  -- The case `+`.
  unfoldable pub plus_round : Scanner → Scanner
  plus_round s =
      if s.start == s.pos
      then record s {
        cur = some (record { negated = false; code = match; expression = [] });
        start = s.pos + 1;
        pos = s.pos + 1;
      }
      else record s { pos = s.pos + 1 }

  abbrev pub begin_part : Scanner → Bool → Code → Scanner
  begin_part s neg code = record s {
    cur = some (record { negated = neg; code = code; expression = [] });
    start = s.pos + 1;
    pos = s.pos + 1;
  }

  -- `switch code { … }` in the case `:`; "f", "file" and "lang" are codes.
  unfoldable pub code_round : Scanner → Str → Bool → Scanner
  code_round s code neg =
      if str_eq code (102 ∷ []) || str_eq code (102 ∷ 105 ∷ 108 ∷ 101 ∷ [])
      then begin_part s neg file
      else if str_eq code (108 ∷ 97 ∷ 110 ∷ 103 ∷ [])
      then begin_part s neg language
      else record s { pos = s.pos + 1 }

  unfoldable pub colon_round : Str → Scanner → Outcome Scanner
  unfolding slice code_round
  colon_round expr s = elim (slice expr s.start s.pos) [
    | none ↦ panicked
    | some text ↦
        let neg = is_prefixed 45 text in ok (code_round s (if neg then drop 1 text else text) neg)
  ]

  abbrev pub is_some : Option Part → Bool
  is_some none = false
  is_some (some p) = true

  abbrev pub next_word : Outcome Scanner → Outcome Scanner
  next_word (ok s) = ok (record s { pos = s.pos + 1; start = s.pos + 1 })
  next_word failed = failed
  next_word panicked = panicked
  next_word exhausted = exhausted

  -- The case of a blank.
  unfoldable pub blank_round : Str → Scanner → Outcome Scanner
  unfolding place_slice
  blank_round expr s =
      if s.start == s.pos
      then (if is_some s.cur then failed else next_word (ok s))
      else next_word (place_slice expr s)

  abbrev pub moved : Scanner → Move → Outcome Scanner
  moved s (to p) = ok (record s { pos = p })
  moved s (ends p) = ok (record s { pos = p })
  moved s fails = failed

  -- The `switch` over the byte `c` at `pos`, with what stands behind it. `+` is 43 and a blank 32.
  unfoldable pub parse_round : Str → Scanner → ℕ → Str → Outcome Scanner
  unfolding plus_round colon_round blank_round escape consume_char_class consume_paren rune_len
  parse_round expr s c rest =
      if c == 43
      then ok (plus_round s)
      else if c == 58
      then colon_round expr s
      else if c == 32
      then blank_round expr s
      else if c == 92
      then moved s (escape rune_size (s.pos + 1) rest)
      else if c == 91
      then moved s (move_by s.pos (consume_char_class (c ∷ rest)))
      else if c == 40
      then moved s (move_by s.pos (consume_paren rune_size 101 (c ∷ rest)))
      else ok (record s { pos = s.pos + rune_len c })

  unfoldable pub parse_loop : ℕ → Str → Scanner → Outcome Scanner
  unfolding parse_round
  parse_loop zero expr s = exhausted
  parse_loop (suc fuel) expr s = elim (drop s.pos expr) [
    | [] ↦ ok s
    | c ∷ rest ↦ elim (parse_round expr s c rest) [
      | ok s' ↦ parse_loop fuel expr s'
      | failed ↦ failed
      | panicked ↦ panicked
      | exhausted ↦ exhausted
    ]
  ]

  abbrev pub some_parts : List Part → Outcome (List Part)
  some_parts [] = failed
  some_parts (p ∷ ps) = ok (p ∷ ps)

  -- Behind the loop: the last part, and the error for no part at all.
  unfoldable pub end_parse : Str → Scanner → Outcome (List Part)
  unfolding place_slice
  end_parse expr s = elim (if s.start == s.pos then ok s else place_slice expr s) [
    | ok s' ↦ some_parts s'.parts
    | failed ↦ failed
    | panicked ↦ panicked
    | exhausted ↦ exhausted
  ]

  -- Each round moves on by a byte at least, so as many rounds as bytes are enough.
  unfoldable pub parse : Str → Outcome (List Part)
  unfolding parse_loop end_parse
  parse expr =
      elim (parse_loop (suc (length expr)) expr
        (record { start = 0; pos = 0; cur = none; parts = [] })) [
          | ok s ↦ end_parse expr s
          | failed ↦ failed
          | panicked ↦ panicked
          | exhausted ↦ exhausted
        ]
