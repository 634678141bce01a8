-- ===== src/Shard/Collect.antt =====
-- The posting lists that `addTrigrams` of index2/write.go collects: a sparse set of trigrams with
-- a bitmap of documents beside each member.
pub mod Cells
pub mod Sound
use codesearch.Common.{ℕ, zero, suc, ◌+◌, ◌%◌, ◌^◌, ◌≤◌, ◌<◌, ◌≡◌, ◌≢◌, refl, arith, ◌∙◌, ap, sym}
use codesearch.Common.{
  Bool, true, false, ◌&&◌, ◌||◌, not, if◌then◌else◌, ltb, leb, ◌==◌, Bool-cases,
}
use codesearch.Common.{Option, none, some, List, [], ◌∷◌, ◌++◌, inl, inr, ◌⊎◌, Option-cases, tests}
use codesearch.Common.{length, get_elem?, set, All, member, length-append, length-set}
use codesearch.Common.{
  get_elem?-append_left, get_elem?-append_last, get_elem?-set_self, get_elem?-set_ne,
  get_elem?_bound, get_elem?-lt, All-append,
}
use codesearch.Sparse.Bounds.{Distinct-bound, Distinct-of_positions}
use codesearch.Index.Read.{◌>>=◌}

-- `roaring.New()` and `Add`.
pub record DocSets (B : Type 0) : Type 0 where
  pub new_set : B
  pub add_doc : B → ℕ → B

-- `none` is nil, the array that is not made yet; its 2 ^ 24 cells are a function.
pub record TrigramLists (B : Type 0) : Type 0 where
  pub sparse_trigrams : Option (ℕ → ℕ)
  pub dense_trigrams : List ℕ
  pub lists : List B

abbrev pub cells : Option (ℕ → ℕ) → ℕ → ℕ
cells none t = 0
cells (some f) t = f t

abbrev pub store : (ℕ → ℕ) → ℕ → ℕ → ℕ → ℕ
store f t n u = if u == t then n else f u

abbrev pub holds_code : List ℕ → ℕ → ℕ → Bool
holds_code dense j t = elim (get_elem? dense j) [ none ↦ false | some u ↦ u == t ]

module _ {B : Type 0} (sets : DocSets B) (doc : ℕ) where
  -- `i.lists[idx].Add(doc)`; `none` is an index out of range.
  unfoldable pub add_at : List B → ℕ → Option (List B)
  add_at lists j = do b ← get_elem? lists j; some (set lists j (sets.add_doc b doc))

  unfoldable pub add_trigram : TrigramLists B → ℕ → Option (TrigramLists B)
  unfolding add_at
  add_trigram st t =
      let f = cells st.sparse_trigrams in
      let n = length st.dense_trigrams % 2 ^ 32 in
      if leb (2 ^ 24) t
      then none
      else if holds_code st.dense_trigrams (f t) t && ltb (f t) n
      then (do
        lists ← add_at st.lists (f t)
        some (record {
          sparse_trigrams = some f;
          dense_trigrams = st.dense_trigrams;
          lists = lists;
        }))
      else (do
        lists ← add_at (st.lists ++ (sets.new_set ∷ [])) n
        some (record {
          sparse_trigrams = some (store f t n);
          dense_trigrams = st.dense_trigrams ++ (t ∷ []);
          lists = lists;
        }))

  -- The loop over the trigrams of a document, `i.trigram.Dense()`.
  unfoldable pub add_loop : TrigramLists B → List ℕ → Option (TrigramLists B)
  add_loop st [] = some st
  add_loop st (t ∷ ts) = do st' ← add_trigram st t; add_loop st' ts

  unfoldable pub add_trigrams : TrigramLists B → List ℕ → Option (TrigramLists B)
  unfolding add_loop
  add_trigrams st ts = add_loop (record st { sparse_trigrams = some (cells st.sparse_trigrams) }) ts

module _ {B : Type 0} (sets : DocSets B) (holds : B → ℕ → Bool) where
  pub record SetLaws : Type 0 where
    pub new_law : (i : ℕ) → holds (sets.new_set) i ≡ false
    pub add_law : (b : B) (d i : ℕ) → holds (sets.add_doc b d) i ≡ (holds b i || i == d)

  -- Each trigram stands once, where its cell says, with a list beside it.
  pub record IsSound (st : TrigramLists B) : Type 0 where
    pub same : length st.lists ≡ length st.dense_trigrams
    pub small : All (λ t. t < 2 ^ 24) st.dense_trigrams
    pub located :
        (j t : ℕ) → get_elem? st.dense_trigrams j ≡ some t → cells st.sparse_trigrams t ≡ j

  abbrev pub listed_in : Option B → Bool → ℕ → Bool
  listed_in none c i = false
  listed_in (some b) c i = c && holds b i

  -- The reference: whether the list of a trigram has a document.
  abbrev pub posted : TrigramLists B → ℕ → ℕ → Bool
  posted st t i =
      let j = cells st.sparse_trigrams t in
      listed_in (get_elem? st.lists j) (holds_code st.dense_trigrams j t) i
