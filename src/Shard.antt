-- ===== src/Shard.antt =====
-- The posting lists of an index2 shard and their queries, index2/read.go. The bitmaps of the
-- roaring library are a parameter, and the accessors of the flatbuffer are fields of a record.
-- `none` is a panic, or an error where the source returns one. A nil pointer is `none` inside
-- `some`. No bitmap is changed in place while another variable refers to it, so they are values.
pub mod Find
pub mod Write
pub mod Collect
pub mod Loops
pub mod Exact
pub mod Runs
use codesearch.Common.{ℕ, zero, suc, ◌+◌, ◌*◌, ◌/◌, Bool, true, false, ◌≡◌, not, ◌&&◌, ◌||◌}
use codesearch.Common.{Option, none, some, List, [], ◌∷◌, if◌then◌else◌, ltb, ◌==◌, length, drop}
use codesearch.Common.Strings.{Str}
use codesearch.Index.Read.{◌>>=◌}
use codesearch.Index.Query.{q_all, q_none, q_and, q_or, Query, query, Queries, nil, cons}
use codesearch.Index.Answer.{trigram_code}

-- The methods of `roaring.Bitmap` that the queries call, each as a function to its result.
pub record Bitmaps (B : Type 0) : Type 0 where
  pub new_bitmap : B
  pub from_buffer : B → List ℕ → Option B
  pub bit_and : B → B → B
  pub bit_or : B → B → B
  pub and_not : B → B → B
  pub xor : B → B → B
  pub is_empty : B → Bool

-- `TrigramsBytes()`, and `DocsBytes()` of the list `j` where `Lists(&pl, j)` is true.
pub record PostingLists : Type 0 where
  pub trigrams_bytes : List ℕ
  pub lists : ℕ → Option (List ℕ)

pub data Flow (B : Type 0) : Type 0 where
  returns : B → Flow B
  continues : Option B → Flow B

module _ {B : Type 0} (rb : Bitmaps B) (p : PostingLists) where
  unfoldable pub load : ℕ → B → Option B
  load h bitmap = do docs ← p.lists h; rb.from_buffer bitmap docs

  -- Each round shortens the range, so one for each trigram is enough.
  unfoldable pub find_loop : ℕ → ℕ → ℕ → ℕ → B → Option B
  find_loop zero lower upper trigram bitmap = some bitmap
  find_loop (suc fuel) lower upper trigram bitmap = elim (ltb lower upper) [
    | false ↦ some bitmap
    | true ↦ elim (trigram_code (drop ((lower + upper) / 2 * 3) p.trigrams_bytes)) [
      | none ↦ none
      | some v ↦ elim (v == trigram) [
        | true ↦ load ((lower + upper) / 2) bitmap
        | false ↦ elim (ltb v trigram) [
          | true ↦ find_loop fuel ((lower + upper) / 2 + 1) upper trigram bitmap
          | false ↦ find_loop fuel lower ((lower + upper) / 2) trigram bitmap
        ]
      ]
    ]
  ]

  -- `none` is the error, too, which the callers turn into a panic.
  unfoldable pub find_trigram : ℕ → B → Option B
  unfolding find_loop
  find_trigram trigram bitmap =
      find_loop (length p.trigrams_bytes / 3) 0 (length p.trigrams_bytes / 3) trigram bitmap

  -- `l := roaring.New()` and `p.FindTrigram(…, l)`
  unfoldable pub find : List ℕ → Option B
  find t = do tri ← trigram_code t; find_trigram tri (rb.new_bitmap)

  abbrev restrict_to : Option B → B → B
  restrict_to none l = l
  restrict_to (some filter) l = rb.bit_and l filter

  unfoldable pub and_trigram_loop : Option B → List Str → Option (Flow B)
  and_trigram_loop filter [] = some (continues filter)
  and_trigram_loop filter (t ∷ ts) = do
    l ← find t
    (let rest = and_trigram_loop (some (restrict_to filter l)) ts in
        if rb.is_empty (restrict_to filter l) then some (returns (restrict_to filter l)) else rest)

  -- `if list == nil { list = l } else { list.Or(l) }`; a nil `l` panics in `Or`.
  unfoldable pub or_into : Option B → Option B → Option (Option B)
  or_into none l = some l
  or_into (some list) none = none
  or_into (some list) (some l) = some (some (rb.bit_or list l))

  -- The loop over the trigrams of an OR without a filter.
  unfoldable pub or_trigram_loop : Option B → List Str → Option (Option B)
  or_trigram_loop list [] = some list
  or_trigram_loop list (t ∷ ts) = do
    l ← find t
    list' ← or_into list (some l)
    or_trigram_loop list' ts

  -- The loop over the trigrams of an OR behind a filter: what is left of `notFound`, and `none`
  -- inside `some` for the early return of the filter.
  unfoldable pub not_found_trigrams : B → List Str → Option (Option B)
  not_found_trigrams not_found [] = some (some not_found)
  not_found_trigrams not_found (t ∷ ts) = do
    l ← find t
    (let rest = not_found_trigrams (rb.and_not not_found l) ts in
        if rb.is_empty (rb.and_not not_found l) then some none else rest)

  -- Behind the subqueries of an OR with a filter.
  unfoldable pub found_of : B → List Str → Option B → Option (Option B)
  found_of filter ts none = some (some filter)
  found_of filter ts (some not_found) = do
    left ← not_found_trigrams not_found ts
    (elim left [ none ↦ some (some filter) | some nf ↦ some (some (rb.xor nf filter)) ])

  unfoldable mutual
    pub posting_query : Query → Option B → Option (Option B)
    posting_query (query q_none ts qs) filter = some (some (rb.new_bitmap))
    -- The bitmap that a nil filter is replaced by is a variable of the inner block.
    posting_query (query q_all ts qs) filter = some filter
    posting_query (query q_and ts qs) filter = do
      flow ← and_trigram_loop filter ts
      (elim flow [ returns l ↦ some (some l) | continues f ↦ and_sub_loop qs f ])
    posting_query (query q_or ts qs) none = do list ← or_sub_loop qs none; or_trigram_loop list ts
    posting_query (query q_or ts qs) (some filter) = do
      left ← not_found_subs qs filter filter
      found_of filter ts left

    -- `filter.IsEmpty()` of a nil filter panics.
    pub and_sub_loop : Queries → Option B → Option (Option B)
    and_sub_loop nil filter = some filter
    and_sub_loop (cons q qs) filter = do
      result ← posting_query q filter
      f ← result
      (let rest = and_sub_loop qs (some f) in if rb.is_empty f then some (some f) else rest)

    pub or_sub_loop : Queries → Option B → Option (Option B)
    or_sub_loop nil list = some list
    or_sub_loop (cons q qs) list = do
      l ← posting_query q none
      list' ← or_into list l
      or_sub_loop qs list'

    pub not_found_subs : Queries → B → B → Option (Option B)
    not_found_subs nil filter not_found = some (some not_found)
    not_found_subs (cons q qs) filter not_found = do
      result ← posting_query q (some filter)
      l ← result
      (let rest = not_found_subs qs filter (rb.and_not not_found l) in
          if rb.is_empty (rb.and_not not_found l) then some none else rest)
