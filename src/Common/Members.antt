-- ===== src/Common/Members.antt =====
-- Membership of numbers in lists, as a test, and ascending lists.
use Prim.Native.Nat.{ℕ, ◌<◌}
use mathlib.Core.Path.{◌≡◌, refl}
use mathlib.Core.Logic.{inl, inr}
use mathlib.Core.Bool.{Bool, true, false}
use mathlib.Core.List.{List, [], ◌∷◌}
use native.Mathlib.Omega.{arith}
use codesearch.Common.Tests.{◌==◌, if◌then◌else◌}
use codesearch.Common.Lists.{In, All}

-- Membership as a test.
unfoldable pub member : ℕ → List ℕ → Bool
member x [] = false
member x (y ∷ ys) = if x == y then true else member x ys

pub member→In : (x : ℕ) (xs : List ℕ) → member x xs ≡ true → In x xs
unfolding member
member→In x [] h = ground arith
member→In x (y ∷ ys) h = ground (arith, member→In x ys)

pub In→member : (x : ℕ) (xs : List ℕ) → In x xs → member x xs ≡ true
unfolding member
In→member x [] h = elim h [ ]
In→member x (y ∷ ys) (inl e) = ground arith
In→member x (y ∷ ys) (inr h) = ground (arith, In→member x ys h)

-- Ascending, with no value twice.
abbrev pub IsAscending : List ℕ → Type 0
IsAscending [] = Unit {0}
IsAscending (x ∷ xs) = All (λ y. x < y) xs × IsAscending xs

pub member_above : (x : ℕ) (ys : List ℕ) → All (λ y. x < y) ys → member x ys ≡ false
unfolding member
member_above x [] h = refl
member_above x (y ∷ ys) h = ground (arith, member_above x ys h.1)

pub All-lt_trans : (a b : ℕ) (ys : List ℕ) → a < b → All (λ y. b < y) ys → All (λ y. a < y) ys
All-lt_trans a b [] h k = tt
All-lt_trans a b (y ∷ ys) h k = (omega arith, All-lt_trans a b ys h k.1)
