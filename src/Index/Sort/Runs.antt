-- ===== src/Index/Sort/Runs.antt =====
-- The sort on three entries.
use codesearch.Common.{ℕ, ◌+◌, ◌*◌, ◌%◌, ◌^◌, ◌≤◌, ◌≡◌, arith, some, List, [], ◌∷◌, inl, inr}
use codesearch.Index.Sort.{sort_post}
use codesearch.Index.Sort.Order.{
  IsSorting, Pairwise, sort_post-IsSorting, nil-Pairwise, append-Pairwise,
}

abbrev ByFile : ℕ → ℕ → Type 0
ByFile a b = a % 2 ^ 32 ≤ b % 2 ^ 32

two_entries-Pairwise : Pairwise ByFile (5 * 2 ^ 32 ∷ (3 * 2 ^ 32 + 1) ∷ [])
two_entries-Pairwise =
    append-Pairwise ByFile (5 * 2 ^ 32 ∷ []) (3 * 2 ^ 32 + 1)
      (append-Pairwise ByFile [] (5 * 2 ^ 32) (nil-Pairwise ByFile) (λ a h. absurd h))
      (λ a h. elim h [ inl e ↦ rw e (omega arith) | inr n ↦ absurd n ])

sort_post-IsSorting_example :
    (out : List ℕ) × (sort_post (5 * 2 ^ 32 ∷ (3 * 2 ^ 32 + 1) ∷ []) ≡ some out)
    × IsSorting ByFile (5 * 2 ^ 32 ∷ (3 * 2 ^ 32 + 1) ∷ []) out
sort_post-IsSorting_example =
    sort_post-IsSorting ByFile (5 * 2 ^ 32 ∷ (3 * 2 ^ 32 + 1) ∷ []) (omega arith, (omega arith, tt))
      two_entries-Pairwise
