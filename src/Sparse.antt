-- ===== src/Sparse.antt =====
-- The sparse set of sparse/set.go: `dense` lists the members in the order of insertion, and
-- `sparse` says where in `dense` a value would stand. `Reset` leaves `sparse` as it is.
pub mod Bounds
pub mod Counts
pub mod Laws
pub mod Histories
mod Runs
use codesearch.Common.{ℕ, ◌+◌, ◌%◌, ◌^◌, ◌<◌, ◌≡◌, Bool, true, false, ◌&&◌, Option, none, some}
use codesearch.Common.{List, [], ◌∷◌, ◌++◌, length, get_elem?, set, replicate, All}
use codesearch.Common.{ltb, ◌==◌, if◌then◌else◌}

pub record Set : Type 0 where
  pub dense : List ℕ
  pub sparse : List ℕ

-- `make([]uint32, max)` is `max` zeros.
unfoldable pub new_set : ℕ → Set
new_set max = record { dense = []; sparse = replicate max 0 }

-- `Init` allocates `sparse` and leaves `dense` alone.
unfoldable pub init : Set → ℕ → Set
init s max = record s { sparse = replicate max 0 }

unfoldable pub reset : Set → Set
reset s = record s { dense = [] }

-- `s.dense[v] == x`, read only after `v < len(s.dense)`.
abbrev pub is_at : List ℕ → ℕ → ℕ → Bool
is_at dense v x = elim (get_elem? dense v) [ none ↦ false | some y ↦ y == x ]

-- `v < uint32(len(s.dense)) && s.dense[v] == x`
abbrev pub holds_at : Set → ℕ → ℕ → Bool
holds_at s v x = ltb v (length s.dense % 2 ^ 32) && is_at s.dense v x

-- `none` is the panic of an index out of range.
unfoldable pub add : Set → ℕ → Option Set
add s x = elim (get_elem? s.sparse x) [
  | none ↦ none
  | some v ↦
      if holds_at s v x
      then some s
      else some (record {
        dense = s.dense ++ (x ∷ []);
        sparse = set s.sparse x (length s.dense % 2 ^ 32);
      })
]

unfoldable pub has : Set → ℕ → Option Bool
has s x = elim (get_elem? s.sparse x) [ none ↦ none | some v ↦ some (holds_at s v x) ]

-- The exported readers `Dense` and `Len`.
abbrev pub dense_of : Set → List ℕ
dense_of s = s.dense

abbrev pub len : Set → ℕ
len s = length s.dense

-- What every reachable set satisfies: the members are in range, and `sparse` locates each.
pub record IsValid (s : Set) : Type 0 where
  pub small : length s.sparse < 2 ^ 32
  pub in_range : All (λ x. x < length s.sparse) s.dense
  pub located : (i x : ℕ) → get_elem? s.dense i ≡ some x → get_elem? s.sparse x ≡ some i
