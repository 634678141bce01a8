-- ===== src/Expr/Bounds.antt =====
-- `Parse` ends, and where every rune is whole it slices within the expression.
use codesearch.Common.{ℕ, zero, suc, ◌+◌, ◌≤◌, ◌<◌, ◌≡◌, arith}
use codesearch.Common.{Option, [], ◌∷◌, length, drop, All}
use codesearch.Common.Strings.{Str}
use codesearch.Expr.{rune_len}
use codesearch.Expr.Parse.{Regexp, Scanner, Outcome, ok, failed, panicked, exhausted}

-- Every byte starts a rune that ends within the expression, as in UTF-8.
abbrev pub IsWhole : Str → Type 0
IsWhole expr = (pos c : ℕ) (rest : Str) → drop pos expr ≡ c ∷ rest → pos + rune_len c ≤ length expr

-- Expressions without a byte that begins a longer rune.
pub single_bytes-IsWhole : (expr : Str) → All (λ b. b < 192) expr → IsWhole expr
unfolding rune_len
single_bytes-IsWhole [] h zero c rest e = ground arith
single_bytes-IsWhole [] h (suc pos) c rest e = ground arith
single_bytes-IsWhole (b ∷ expr) h zero c rest e = ground arith
single_bytes-IsWhole (b ∷ expr) h (suc pos) c rest e =
    omega (arith, single_bytes-IsWhole expr h.1 pos c rest e)

-- A round ends, without a panic, behind its position; what starts a part stands before that.
abbrev Advances : Str → ℕ → Outcome Scanner → Type 0
Advances expr pos (ok s) = (pos < s.pos) × (s.start ≤ s.pos) × (IsWhole expr → s.pos ≤ length expr)
Advances expr pos failed = Unit {0}
Advances expr pos panicked = ⊥
Advances expr pos exhausted = ⊥

module _ (rune_size : Str → ℕ) (parse_regexp : Str → Option Regexp) (print_regexp : Regexp → Str)
    (sizes : (s : Str) → rune_size s ≤ length s) where
  -- A part that is placed leaves the positions as they are.
  abbrev Placed : Scanner → Outcome Scanner → Type 0
  Placed s (ok s') = (s'.start ≡ s.start) × (s'.pos ≡ s.pos)
  Placed s failed = Unit {0}
  Placed s panicked = ⊥
  Placed s exhausted = ⊥

  -- What the loop comes to: an end, and no panic.
  abbrev Ended : Str → Outcome Scanner → Type 0
  Ended expr (ok s) = (s.start ≤ s.pos) × (IsWhole expr → s.pos ≤ length expr)
  Ended expr failed = Unit {0}
  Ended expr panicked = ⊥
  Ended expr exhausted = ⊥

  abbrev Final : {A : Type 0} → Str → Outcome A → Type 0
  Final expr (ok a) = Unit {0}
  Final expr failed = Unit {0}
  Final expr panicked = IsWhole expr → ⊥
  Final expr exhausted = ⊥
