-- ===== src/Expr/Runs.antt =====
-- Runs of the parser of expressions, and its theorems at concrete inputs.
use codesearch.Common.{ℕ, ◌≡◌, refl, arith, true, false, Option, some}
use codesearch.Common.{[], ◌∷◌}
use codesearch.Common.Strings.{Str, str_eq}
use codesearch.Expr.{width, consume_char_class, consume_paren}
use codesearch.Expr.Widths.{Fits, consume_paren-Fits}
use codesearch.Expr.Parse.{
  empty_match, capture, concat, other, Regexp, regexp, nil, cons, clean_regexp, parse, ok, panicked,
  match, file,
}
use codesearch.Expr.Bounds.{IsWhole, single_bytes-IsWhole}
use codesearch.Expr.Clean.{IsClean, clean_regexp-IsClean}

-- A size for each rune, and a parser that reads anything.
abbrev one_byte : Str → ℕ
one_byte [] = 0
one_byte (c ∷ s) = 1

abbrev read_any : Str → Option Regexp
read_any [] = some (regexp empty_match 0 nil)
read_any (c ∷ s) = some (regexp (other 1) c nil)

abbrev print_any : Regexp → Str
print_any (regexp op info subs) = info ∷ []

-- "f:a -b"
abbrev two_parts : Str
two_parts = 102 ∷ 58 ∷ 97 ∷ 32 ∷ 45 ∷ 98 ∷ []

two_parts-IsWhole : IsWhole two_parts
two_parts-IsWhole = single_bytes-IsWhole two_parts (omega arith)

parse_run :
    parse one_byte read_any print_any two_parts
    ≡ ok (
        record { negated = false; code = file; expression = 97 ∷ [] }
        ∷ record { negated = true; code = match; expression = 98 ∷ [] }
        ∷ [])
unfolding parse str_eq
parse_run = refl

-- "([)])"
consume_paren-Fits_example :
    Fits (40 ∷ 91 ∷ 41 ∷ 93 ∷ 41 ∷ []) (consume_paren one_byte 101 (40 ∷ 91 ∷ 41 ∷ 93 ∷ 41 ∷ []))
consume_paren-Fits_example = consume_paren-Fits one_byte 101 (40 ∷ 91 ∷ 41 ∷ 93 ∷ 41 ∷ [])

paren_run : consume_paren one_byte 101 (40 ∷ 91 ∷ 41 ∷ 93 ∷ 41 ∷ []) ≡ width 5
unfolding consume_paren
paren_run = refl

clean_regexp-IsClean_example : IsClean (
    clean_regexp
      (regexp concat 0 (cons (regexp capture 1 (cons (regexp empty_match 2 nil) nil)) nil)))
clean_regexp-IsClean_example =
    clean_regexp-IsClean
      (regexp concat 0 (cons (regexp capture 1 (cons (regexp empty_match 2 nil) nil)) nil))

-- The width of "[[:alpha:] ]" is that of "[[:alpha:]": the name's bracket ends the class.
class_run :
    consume_char_class (91 ∷ 91 ∷ 58 ∷ 97 ∷ 108 ∷ 112 ∷ 104 ∷ 97 ∷ 58 ∷ 93 ∷ 32 ∷ 93 ∷ [])
    ≡ width 10
unfolding consume_char_class
class_run = refl

-- A rune that is cut off at the end: its length leads out of the expression.
cut_run : parse one_byte read_any print_any (97 ∷ 195 ∷ []) ≡ panicked
unfolding parse
cut_run = refl
