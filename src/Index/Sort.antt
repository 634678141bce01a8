-- ===== src/Index/Sort.antt =====
-- `sortPost` of index/write.go: a radix sort in two rounds of twelve bits. An index out of range is
-- `none`.
pub mod Pass
pub mod Order
mod Runs
use codesearch.Common.{ℕ, ◌+◌, ◌/◌, ◌%◌, ◌^◌, Option, none, some, List, [], ◌∷◌, set, get_elem?}
use codesearch.Common.{length, replicate}

abbrev pub sort_k : ℕ
sort_k = 12

-- `uintptr(p>>shift) & (1<<sortK - 1)`
unfoldable pub digit : ℕ → ℕ → ℕ
digit shift p = p / 2 ^ shift % 2 ^ sort_k

-- `sortN[r]++`
abbrev pub bump : List ℕ → ℕ → Option (List ℕ)
bump counts r = elim (get_elem? counts r) [ none ↦ none | some o ↦ some (set counts r (o + 1)) ]

unfoldable pub count_digits : ℕ → List ℕ → List ℕ → Option (List ℕ)
count_digits shift counts [] = some counts
count_digits shift counts (p ∷ post) = elim (bump counts (digit shift p)) [
  | none ↦ none
  | some counts' ↦ count_digits shift counts' post
]

-- The loop that replaces each count by the sum of those before it.
unfoldable pub running_sums : ℕ → List ℕ → List ℕ
running_sums tot [] = []
running_sums tot (count ∷ counts) = tot ∷ running_sums (tot + count) counts

-- `tmp[o] = p`
abbrev pub put_at : List ℕ → ℕ → ℕ → Option (List ℕ)
put_at tmp o p = elim (get_elem? tmp o) [ none ↦ none | some old ↦ some (set tmp o p) ]

unfoldable pub place : ℕ → List ℕ → List ℕ → List ℕ → Option (List ℕ)
place shift sort_n [] tmp = some tmp
place shift sort_n (p ∷ post) tmp = elim (get_elem? sort_n (digit shift p)) [
  | none ↦ none
  | some o ↦ elim (put_at tmp o p) [
    | none ↦ none
    | some tmp' ↦ place shift (set sort_n (digit shift p) (o + 1)) post tmp'
  ]
]

-- One round, from `post` into `tmp`.
unfoldable pub radix_round : ℕ → List ℕ → List ℕ → Option (List ℕ)
unfolding count_digits running_sums place
radix_round shift post tmp = elim (count_digits shift (replicate (2 ^ sort_k) 0) post) [
  | none ↦ none
  | some counts ↦ place shift (running_sums 0 counts) post tmp
]

-- The second round writes into the array that was sorted from.
unfoldable pub sort_post : List ℕ → Option (List ℕ)
unfolding radix_round
sort_post post = elim (radix_round 32 post (replicate (length post) 0)) [
  | none ↦ none
  | some sorted ↦ radix_round (32 + sort_k) sorted post
]
