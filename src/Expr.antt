-- ===== src/Expr.antt =====
-- The parser of search expressions, expr/expr.go: its scanners and the split into parts. Of Go's
-- libraries, the size of a rune, the parser of regular expressions and their printer are
-- parameters.
pub mod Widths
pub mod Parse
pub mod Bounds
pub mod Clean
pub mod Runs
use codesearch.Common.{ℕ, zero, suc, ◌+◌, ◌-◌, Bool, true, false, ◌&&◌, ◌||◌, if◌then◌else◌}
use codesearch.Common.{Option, none, some, List, [], ◌∷◌, ◌++◌, ltb, ◌==◌, length, drop, take}
use codesearch.Common.Strings.{Str, str_eq}

-- `[16]byte{…}[b>>4]`
unfoldable pub rune_len : ℕ → ℕ
rune_len b = if ltb b 192 then 1 else if ltb b 224 then 2 else if ltb b 240 then 3 else 4

-- A width that a scanner returns, -1, or the end of the fuel.
pub data Scan : Type 0 where
  width : ℕ → Scan
  unmatched : Scan
  out_of_fuel : Scan

-- One round of a scanner's loop: to another position, to its result, or to -1.
pub data Move : Type 0 where
  to : ℕ → Move
  ends : ℕ → Move
  fails : Move

-- `for pos < len(expr) { switch expr[pos] { … } }; return -1`, where a round looks at what stands
-- at `pos`, its first byte apart.
unfoldable pub scan_loop : (ℕ → ℕ → Str → Move) → ℕ → Str → ℕ → Scan
scan_loop round zero expr pos = out_of_fuel
scan_loop round (suc fuel) expr pos = elim (drop pos expr) [
  | [] ↦ unmatched
  | c ∷ rest ↦ elim (round pos c rest) [
    | to p ↦ scan_loop round fuel expr p
    | ends p ↦ width p
    | fails ↦ unmatched
  ]
]

-- A round moves on by a byte at least, so as many rounds as bytes are enough.
abbrev pub scan : (ℕ → ℕ → Str → Move) → Str → ℕ → Scan
scan round expr pos = scan_loop round (suc (length expr)) expr pos

-- Behind a backslash, `if pos < len(expr) { pos += runeLen(expr[pos]) }`.
abbrev pub skip_rune : ℕ → Str → ℕ
skip_rune pos [] = pos
skip_rune pos (c ∷ rest) = pos + rune_len c

-- `strings.IndexByte`
unfoldable pub index_byte : ℕ → Str → Option ℕ
index_byte b [] = none
index_byte b (c ∷ s) =
    if c == b then some 0 else elim (index_byte b s) [ none ↦ none | some i ↦ some (suc i) ]

abbrev pub is_prefixed : ℕ → Str → Bool
is_prefixed b [] = false
is_prefixed b (c ∷ s) = c == b

-- The case `[` inside of a class, behind the bracket.
unfoldable pub named_class : ℕ → Str → Move
unfolding index_byte
named_class pos rest =
    if is_prefixed 58 rest
    then elim (index_byte 93 (drop 1 rest)) [ none ↦ fails | some i ↦ to (pos + 1 + i) ]
    else to pos

-- `\` is 92, `[` 91, `]` 93, `^` 94, `:` 58.
unfoldable pub class_round : ℕ → ℕ → Str → Move
unfolding named_class rune_len
class_round pos c rest =
    if c == 92
    then to (skip_rune (pos + 1) rest)
    else if c == 91
    then named_class (pos + 1) rest
    else if c == 93
    then ends (pos + 1)
    else to (pos + rune_len c)

-- `if pos < len(expr) && expr[pos] == b { pos++ }`
abbrev pub skip_byte : ℕ → Str → ℕ → ℕ
skip_byte b expr pos = if is_prefixed b (drop pos expr) then pos + 1 else pos

unfoldable pub consume_char_class : Str → Scan
unfolding scan_loop class_round
consume_char_class expr = scan class_round expr (skip_byte 93 expr (skip_byte 94 expr 1))

-- `strings.Index(s, "\\E")`
unfoldable pub index_end : Str → Option ℕ
index_end [] = none
index_end (c ∷ s) =
    if c == 92 && is_prefixed 69 s
    then some 0
    else elim (index_end s) [ none ↦ none | some i ↦ some (suc i) ]

unfoldable pub consume_qe : Str → Scan
unfolding index_end
consume_qe expr = elim (index_end (drop 1 expr)) [ none ↦ unmatched | some i ↦ width (1 + i + 2) ]

-- `if width < 0 { return width }; pos += width`
abbrev pub move_by : ℕ → Scan → Move
move_by pos (width n) = to (pos + n)
move_by pos unmatched = fails
move_by pos out_of_fuel = fails

module _ (rune_size : Str → ℕ) where
  -- The case `\`, behind it: `rune_size` is the size that `utf8.DecodeRuneInString` returns, and
  -- `Q` is 81.
  unfoldable pub escape : ℕ → Str → Move
  unfolding consume_qe
  escape pos rest =
      if is_prefixed 81 rest then move_by pos (consume_qe rest) else to (pos + rune_size rest)

  -- `(` is 40, `)` 41. `inner` is the recursive call.
  unfoldable pub paren_round : (Str → Scan) → ℕ → ℕ → Str → Move
  unfolding escape consume_char_class rune_len
  paren_round inner pos c rest =
      if c == 41
      then ends (pos + 1)
      else if c == 92
      then escape (pos + 1) rest
      else if c == 91
      then move_by pos (consume_char_class (c ∷ rest))
      else elim (c == 40) [ true ↦ move_by pos (inner (c ∷ rest)) | false ↦ to (pos + rune_len c) ]

  -- The depths that are left stand for `depth > 100`.
  unfoldable pub consume_paren : ℕ → Str → Scan
  unfolding scan_loop paren_round
  consume_paren zero expr = unmatched
  consume_paren (suc depths) expr = scan (paren_round (consume_paren depths)) expr 1

-- `"` is 34.
unfoldable pub string_round : ℕ → ℕ → Str → Move
unfolding rune_len
string_round pos c rest =
    if c == 34
    then ends (pos + 1)
    else if c == 92
    then to (skip_rune (pos + 1) rest)
    else to (pos + rune_len c)

unfoldable pub consume_string : Str → Scan
unfolding scan_loop string_round
consume_string expr = scan string_round expr 1
