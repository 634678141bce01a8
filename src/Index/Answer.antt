-- ===== src/Index/Answer.antt =====
-- `postingQuery` of index/read.go: the file ids that a query matches. `none` is a call of `corrupt`
-- or a panic. A nil list and an empty one are told apart where the source tests for nil: in
-- `restrict` and in the variable `list`.
pub mod Spec
pub mod Trigrams
pub mod Exact
use codesearch.Common.{ℕ, zero, suc, ◌+◌, ◌*◌, ◌^◌, Bool, true, false}
use codesearch.Common.{Option, none, some, List, [], ◌∷◌, ◌++◌, if◌then◌else◌}
use codesearch.Common.Int.{ℤ, pos, negsuc}
use codesearch.Common.Strings.{Str}
use codesearch.Index.Posting.Union.{merge_or}
use codesearch.Index.Read.{Index, ◌>>=◌, posting_list, posting_and, posting_or}
use codesearch.Index.Query.{q_all, q_none, q_and, q_or, Query, query, Queries, nil, cons}

-- `uint32(t[0])<<16 | uint32(t[1])<<8 | uint32(t[2])`; a shorter string panics.
unfoldable pub trigram_code : Str → Option ℕ
trigram_code (a ∷ b ∷ c ∷ _) = some (a * 2 ^ 16 + b * 2 ^ 8 + c)
trigram_code _ = none

unfoldable pub count_up : ℕ → ℕ → List ℕ
count_up from zero = []
count_up from (suc n) = from ∷ count_up (suc from) n

-- `list[i] = uint32(i)` for every name; `make` panics on a negative length.
unfoldable pub all_files : Index → Option (List ℕ)
unfolding count_up
all_files ix = elim (ix.num_name) [ pos n ↦ some (count_up 0 n) | negsuc n ↦ none ]

-- The variable `list` behind the loop over the trigrams of an AND, or the early `return nil`.
pub data Flow : Type 0 where
  stop : Flow
  go_on : Option (List ℕ) → Flow

abbrev pub is_empty : List ℕ → Bool
is_empty [] = true
is_empty (x ∷ xs) = false

abbrev pub list_of : Option (List ℕ) → List ℕ
list_of none = []
list_of (some l) = l

abbrev pub or_else : Option (List ℕ) → Option (List ℕ) → Option (List ℕ)
or_else none restrict = restrict
or_else (some l) restrict = some l

unfoldable pub and_step : Index → Option (List ℕ) → Option (List ℕ) → ℕ → Option (List ℕ)
and_step ix restrict none tri = posting_list ix tri restrict
and_step ix restrict (some l) tri = posting_and ix l tri restrict

unfoldable pub or_step : Index → Option (List ℕ) → Option (List ℕ) → ℕ → Option (List ℕ)
or_step ix restrict none tri = posting_list ix tri restrict
or_step ix restrict (some l) tri = posting_or ix l tri restrict

-- `for _, t := range q.Trigram` of an AND.
unfoldable pub and_trigram_loop : Index → Option (List ℕ) → Option (List ℕ) → List Str → Option Flow
and_trigram_loop ix restrict list [] = some (go_on list)
and_trigram_loop ix restrict list (t ∷ ts) = do
  tri ← trigram_code t
  l ← and_step ix restrict list tri
  (let rest = and_trigram_loop ix restrict (some l) ts in if is_empty l then some stop else rest)

-- `for _, t := range q.Trigram` of an OR.
unfoldable pub or_trigram_loop :
    Index → Option (List ℕ) → Option (List ℕ) → List Str → Option (Option (List ℕ))
or_trigram_loop ix restrict list [] = some list
or_trigram_loop ix restrict list (t ∷ ts) = do
  tri ← trigram_code t
  l ← or_step ix restrict list tri
  or_trigram_loop ix restrict (some l) ts

unfoldable mutual
  pub posting_query : Index → Query → Option (List ℕ) → Option (List ℕ)
  posting_query ix (query q_none ts qs) restrict = some []
  posting_query ix (query q_all ts qs) restrict = elim restrict [
    | some l ↦ some l
    | none ↦ all_files ix
  ]
  posting_query ix (query q_and ts qs) restrict = do
    flow ← and_trigram_loop ix restrict none ts
    (elim flow [ stop ↦ some [] | go_on list ↦ and_sub_loop ix qs restrict list ])
  posting_query ix (query q_or ts qs) restrict = do
    list ← or_trigram_loop ix restrict none ts
    or_sub_loop ix qs restrict list

  -- `for _, sub := range q.Sub` of an AND: a nil `list` becomes `restrict`.
  pub and_sub_loop : Index → Queries → Option (List ℕ) → Option (List ℕ) → Option (List ℕ)
  and_sub_loop ix nil restrict list = some (list_of list)
  and_sub_loop ix (cons q qs) restrict list = do
    l ← posting_query ix q (or_else list restrict)
    (let rest = and_sub_loop ix qs restrict (some l) in if is_empty l then some [] else rest)

  -- `for _, sub := range q.Sub` of an OR.
  pub or_sub_loop : Index → Queries → Option (List ℕ) → Option (List ℕ) → Option (List ℕ)
  or_sub_loop ix nil restrict list = some (list_of list)
  or_sub_loop ix (cons q qs) restrict list = do
    l ← posting_query ix q restrict
    or_sub_loop ix qs restrict (some (merge_or (list_of list) l))
