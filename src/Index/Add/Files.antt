-- ===== src/Index/Add/Files.antt =====
-- `Add` reads a file in pieces; what it comes to depends on the bytes alone.
use codesearch.Common.{ℕ, ◌≡◌}
use codesearch.Common.{Bool, true, false}
use codesearch.Common.{Option, none, some, List, [], ◌∷◌, ◌++◌, leb, length, member}
use codesearch.Sparse.{Set}
use codesearch.Sparse.Counts.{distinct}
use codesearch.Index.Add.{
  Progress, Reason, Scanned, reading, skipped, Reader, chunk, at_end, failing, silent,
  too_many_trigrams, max_text_trigrams,
}
use codesearch.Index.Add.Text.{trigram_codes}

-- The bytes of a file that is read to its end.
unfoldable pub content : Reader → Option (List ℕ)
content at_end = some []
content failing = none
content silent = none
content (chunk c cs r) = elim (content r) [ none ↦ none | some s ↦ some ((c ∷ cs) ++ s) ]

-- What `Add` makes of a file with the content `s`: one that is no text is skipped, one that has too
-- many trigrams is skipped for that, and any other is indexed under exactly its trigrams.
abbrev pub Indexed : List ℕ → Bool → Bool → Scanned → Type 0
Indexed s true true o =
    (t : Progress) × (o ≡ reading t)
    × (t.n ≡ length s)
    × ((x : ℕ) → member x t.set.dense ≡ member x (trigram_codes s))
Indexed s true false o = (set : Set) × (o ≡ skipped too_many_trigrams set)
Indexed s false few o = (r : Reason) × (set : Set) × (o ≡ skipped r set)

-- The distinct trigrams of a text are not too many.
abbrev pub is_indexable : List ℕ → Bool
is_indexable s = leb (length (distinct (trigram_codes s))) max_text_trigrams
