-- ===== src/Expr/Widths.antt =====
-- The scanners end, and a width that they return is within the expression.
use codesearch.Common.{ℕ, zero, suc, ◌+◌, ◌-◌, ◌≤◌, ◌<◌, ◌≡◌, refl, arith, ap}
use codesearch.Common.{true, Bool-cases, Option-cases}
use codesearch.Common.{some, List, [], ◌∷◌, ◌==◌, length, drop, inl, inr, ◌⊎◌}
use codesearch.Common.Strings.{Str}
use codesearch.Expr.{
  rune_len, Scan, width, unmatched, out_of_fuel, Move, to, ends, fails, scan_loop, skip_rune,
  index_byte, is_prefixed, named_class, class_round, consume_char_class, index_end, consume_qe,
  move_by, escape, paren_round, consume_paren, string_round, consume_string,
}

-- What a scanner may come to: -1, or a width that is positive and within the expression.
abbrev pub Fits : Str → Scan → Type 0
Fits expr (width n) = (0 < n) × (n ≤ length expr)
Fits expr unmatched = Unit {0}
Fits expr out_of_fuel = ⊥

-- A round that moves on, and that ends within what stands behind its position.
abbrev pub Moves : ℕ → ℕ → Move → Type 0
Moves pos left (to p) = pos < p
Moves pos left (ends p) = (pos < p) × (p ≤ pos + left)
Moves pos left fails = Unit {0}

pub length-drop : {A : Type 0} (n : ℕ) (xs : List A) → length (drop n xs) ≡ length xs - n
length-drop zero xs = omega arith
length-drop (suc n) [] = omega arith
length-drop (suc n) (x ∷ xs) = omega (arith, length-drop n xs)

pub List-cases : {A : Type 0} (xs : List A) → (xs ≡ []) ⊎ ((x : A) × (ys : List A) × (xs ≡ x ∷ ys))
List-cases [] = inl refl
List-cases (x ∷ xs) = inr (x, xs, refl)

module _ (round : ℕ → ℕ → Str → Move)
    (moves : (pos c : ℕ) (rest : Str) → Moves pos (suc (length rest)) (round pos c rest)) where
  after_round :
      (fuel : ℕ) (expr : Str) (pos left : ℕ) (m : Move)
      → Moves pos left m
      → pos + left ≡ length expr
      → ((p : ℕ) → pos < p → Fits expr (scan_loop round fuel expr p))
      → Fits expr
          (elim m [ to p ↦ scan_loop round fuel expr p | ends p ↦ width p | fails ↦ unmatched ])
  after_round fuel expr pos left (to p) h e ih = ih p h
  after_round fuel expr pos left (ends p) h e ih = omega (arith, h.0, h.1)
  after_round fuel expr pos left fails h e ih = tt

  scan_loop-Fits :
      (fuel : ℕ) (expr : Str) (pos : ℕ)
      → length expr ≤ pos + fuel
      → Fits expr (scan_loop round (suc fuel) expr pos)
  unfolding scan_loop
  scan_loop-Fits zero expr pos h = elim (List-cases (drop pos expr)) [
    | inl e ↦ rw (e, scan_loop) tt
    | inr (c, rest, e) ↦ absurd (omega (arith, length-drop pos expr, ap length e))
  ]
  scan_loop-Fits (suc fuel) expr pos h = elim (List-cases (drop pos expr)) [
    | inl e ↦ rw (e, scan_loop) tt
    | inr (c, rest, e) ↦
        let size : pos + suc (length rest) ≡ length expr =
          omega (arith, length-drop pos expr, ap length e) in
        rw (e, scan_loop)
          (after_round (suc fuel) expr pos (suc (length rest)) (round pos c rest) (moves pos c rest)
            size (λ p q. scan_loop-Fits fuel expr p (omega arith)))
  ]

pub rune_len-positive : (b : ℕ) → 0 < rune_len b
unfolding rune_len
rune_len-positive b = ground arith

skip_rune-le : (pos : ℕ) (rest : Str) → pos ≤ skip_rune pos rest
skip_rune-le pos [] = omega arith
skip_rune-le pos (c ∷ rest) = omega arith

named_class-Moves : (pos c left : ℕ) (rest : Str) → c < pos → Moves c left (named_class pos rest)
unfolding named_class
named_class-Moves pos c left rest h = elim (Bool-cases (is_prefixed 58 rest)) [
  | inr e ↦ rw (e, named_class) h
  | inl e ↦ elim (Option-cases (index_byte 93 (drop 1 rest))) [
    | inl f ↦ rw (e, f, named_class) tt
    | inr (i, f) ↦ rw (e, f, named_class) (omega arith)
  ]
]

class_round-Moves :
    (pos c : ℕ) (rest : Str) → Moves pos (suc (length rest)) (class_round pos c rest)
unfolding class_round
class_round-Moves pos c rest = elim (Bool-cases (c == 92)) [
  | inl e ↦ rw e (omega (arith, skip_rune-le (pos + 1) rest))
  | inr e ↦ elim (Bool-cases (c == 91)) [
    | inl f ↦ rw (e, f) (named_class-Moves (pos + 1) pos (suc (length rest)) rest (omega arith))
    | inr f ↦ elim (Bool-cases (c == 93)) [
      | inl g ↦ rw (e, f, g) (omega arith)
      | inr g ↦ rw (e, f, g) (omega (arith, rune_len-positive c))
    ]
  ]
]

string_round-Moves :
    (pos c : ℕ) (rest : Str) → Moves pos (suc (length rest)) (string_round pos c rest)
unfolding string_round
string_round-Moves pos c rest = elim (Bool-cases (c == 34)) [
  | inl e ↦ rw e (omega arith)
  | inr e ↦ elim (Bool-cases (c == 92)) [
    | inl f ↦ rw (e, f) (omega (arith, skip_rune-le (pos + 1) rest))
    | inr f ↦ rw (e, f) (omega (arith, rune_len-positive c))
  ]
]

pub consume_char_class-Fits : (expr : Str) → Fits expr (consume_char_class expr)
unfolding consume_char_class
consume_char_class-Fits expr =
    scan_loop-Fits class_round class_round-Moves (length expr) expr _ (omega arith)

pub consume_string-Fits : (expr : Str) → Fits expr (consume_string expr)
unfolding consume_string
consume_string-Fits expr =
    scan_loop-Fits string_round string_round-Moves (length expr) expr 1 (omega arith)

is_prefixed-size : (b : ℕ) (s : Str) → is_prefixed b s ≡ true → 0 < length s
is_prefixed-size b [] h = ground arith
is_prefixed-size b (c ∷ s) h = omega arith

index_end-lt : (s : Str) (i : ℕ) → index_end s ≡ some i → i + 2 ≤ length s
unfolding index_end
index_end-lt [] i h = ground arith
index_end-lt (c ∷ s) i h = elim (Option-cases (index_end s)) [
  | inl e ↦ ground (arith, is_prefixed-size 69 s)
  | inr (j, e) ↦ ground (arith, is_prefixed-size 69 s, index_end-lt s j e)
]

pub consume_qe-Fits : (expr : Str) → Fits expr (consume_qe expr)
unfolding consume_qe
consume_qe-Fits expr = elim (Option-cases (index_end (drop 1 expr))) [
  | inl e ↦ rw (e, consume_qe) tt
  | inr (i, e) ↦
      rw (e, consume_qe) (omega (arith, index_end-lt (drop 1 expr) i e, length-drop 1 expr))
]

move_by-Moves :
    (pos c left : ℕ) (expr : Str) (w : Scan) → Fits expr w → c ≤ pos → Moves c left (move_by pos w)
move_by-Moves pos c left expr (width n) h p = omega (arith, h.0)
move_by-Moves pos c left expr unmatched h p = tt
move_by-Moves pos c left expr out_of_fuel h p = elim h [ ]

module _ (rune_size : Str → ℕ) where
  escape-Moves : (pos c left : ℕ) (rest : Str) → c < pos → Moves c left (escape rune_size pos rest)
  unfolding escape
  escape-Moves pos c left rest h = elim (Bool-cases (is_prefixed 81 rest)) [
    | inl e ↦
        rw (e, escape)
          (move_by-Moves pos c left rest (consume_qe rest) (consume_qe-Fits rest) (omega arith))
    | inr e ↦ rw (e, escape) (omega arith)
  ]

  paren_round-Moves :
      (inner : Str → Scan)
      → ((s : Str) → Fits s (inner s))
      → (pos c : ℕ) (rest : Str)
      → Moves pos (suc (length rest)) (paren_round rune_size inner pos c rest)
  unfolding paren_round
  paren_round-Moves inner fits pos c rest = elim (Bool-cases (c == 41)) [
    | inl e ↦ rw e (omega arith)
    | inr e ↦ elim (Bool-cases (c == 92)) [
      | inl f ↦ rw (e, f) (escape-Moves (pos + 1) pos (suc (length rest)) rest (omega arith))
      | inr f ↦ elim (Bool-cases (c == 91)) [
        | inl g ↦
            rw (e, f, g)
              (move_by-Moves pos pos (suc (length rest)) (c ∷ rest) (consume_char_class (c ∷ rest))
                (consume_char_class-Fits (c ∷ rest)) (omega arith))
        | inr g ↦ elim (Bool-cases (c == 40)) [
          | inl k ↦
              rw (e, f, g, k)
                (move_by-Moves pos pos (suc (length rest)) (c ∷ rest) (inner (c ∷ rest))
                  (fits (c ∷ rest)) (omega arith))
          | inr k ↦ rw (e, f, g, k) (omega (arith, rune_len-positive c))
        ]
      ]
    ]
  ]

  -- Whatever the sizes of runes are, the scan of a group ends, and a width that it returns is
  -- positive and within the expression.
  pub consume_paren-Fits :
      (depths : ℕ) (expr : Str) → Fits expr (consume_paren rune_size depths expr)
  unfolding consume_paren
  consume_paren-Fits zero expr = tt
  consume_paren-Fits (suc depths) expr =
      scan_loop-Fits (paren_round rune_size (consume_paren rune_size depths))
        (paren_round-Moves (consume_paren rune_size depths) (consume_paren-Fits depths))
        (length expr) expr 1 (omega arith)
