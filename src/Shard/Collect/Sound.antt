-- ===== src/Shard/Collect/Sound.antt =====
-- `addTrigrams` keeps its state sound and adds the document to the lists of its trigrams.
use codesearch.Common.{ℕ, zero, suc, ◌%◌, ◌^◌, ◌≤◌, ◌<◌, ◌≡◌, refl, arith, ◌∙◌, ap, sym}
use codesearch.Common.{Bool, true, false, ◌&&◌, ◌||◌, ltb, leb, ◌==◌, Bool-cases}
use codesearch.Common.{Option, some, List, [], ◌∷◌, ◌++◌, inl, inr, ◌⊎◌}
use codesearch.Common.{length, get_elem?, set, All, member, length-append, length-set}
use codesearch.Common.{get_elem?-append_last, get_elem?_bound, get_elem?-lt, All-append}
use codesearch.Sparse.Bounds.{Distinct-bound, Distinct-of_positions}
use codesearch.Index.Read.{◌>>=◌}
use codesearch.Shard.Collect.{
  DocSets, TrigramLists, cells, store, holds_code, add_at, add_trigram, add_loop, add_trigrams,
  SetLaws, IsSound, posted,
}
use codesearch.Shard.Collect.Cells.{holds_code-get_elem?, hit_members, new_members}

module _ {B : Type 0} (sets : DocSets B) (holds : B → ℕ → Bool) (laws : SetLaws sets holds) where
  few : (st : TrigramLists B) → IsSound sets holds st → length st.dense_trigrams ≤ 2 ^ 24
  few st v =
      Distinct-bound (2 ^ 24) st.dense_trigrams
        (Distinct-of_positions st.dense_trigrams
          (λ i j x p q. sym (v.located i x p) ∙ v.located j x q))
        v.small

  -- What adding a document to the list of a trigram does.
  abbrev pub Adds : ℕ → TrigramLists B → (ℕ → Bool) → Option (TrigramLists B) → Type 0
  Adds doc st q call =
      (st' : TrigramLists B) × (call ≡ some st')
      × IsSound sets holds st'
      × ((u i : ℕ) → posted sets holds st' u i ≡ (posted sets holds st u i || (q u && i == doc)))

  hit_step :
      (doc t : ℕ) (st : TrigramLists B)
      → IsSound sets holds st
      → holds_code st.dense_trigrams (cells st.sparse_trigrams t) t ≡ true
      → Adds doc st
          (λ u. u == t)
          (do
            lists ← add_at sets doc st.lists (cells st.sparse_trigrams t)
            some (record {
              sparse_trigrams = some (cells st.sparse_trigrams);
              dense_trigrams = st.dense_trigrams;
              lists = lists;
            }))
  unfolding add_at
  hit_step doc t st v hit =
      let f = cells st.sparse_trigrams in
      let at = holds_code-get_elem? st.dense_trigrams (f t) t hit in
      let inside : f t < length st.lists =
        rw (v.same) (get_elem?_bound st.dense_trigrams (f t) at) in
      let (b, read) = get_elem?-lt st.lists (f t) inside in
      let lists' = set st.lists (f t) (sets.add_doc b doc) in
      (
        record { sparse_trigrams = some f; dense_trigrams = st.dense_trigrams; lists = lists' },
        rw read refl,
        record {
          same = length-set st.lists (f t) (sets.add_doc b doc) ∙ v.same;
          small = v.small;
          located = v.located;
        },
        λ u i. hit_members sets holds laws f st.dense_trigrams st.lists doc t u i b read inside hit,
      )

  set-append_last : (xs : List B) (a b : B) → set (xs ++ (a ∷ [])) (length xs) b ≡ xs ++ (b ∷ [])
  set-append_last [] a b = refl
  set-append_last (x ∷ xs) a b = ap (λ ys. x ∷ ys) (set-append_last xs a b)

  add_at_last :
      (doc n : ℕ) (lists : List B)
      → length lists ≡ n
      → add_at sets doc (lists ++ (sets.new_set ∷ [])) n
        ≡ some (lists ++ (sets.add_doc (sets.new_set) doc ∷ []))
  unfolding add_at
  add_at_last doc n lists l = rw (← l) (
      rw (get_elem?-append_last lists (sets.new_set))
        (ap some (set-append_last lists (sets.new_set) (sets.add_doc (sets.new_set) doc))))

  append_cases :
      (xs : List ℕ) (x j u : ℕ)
      → get_elem? (xs ++ (x ∷ [])) j ≡ some u
      → (get_elem? xs j ≡ some u) ⊎ ((j ≡ length xs) × (x ≡ u))
  append_cases [] x zero u e = inr (refl, ground arith)
  append_cases [] x (suc j) u e = ground arith
  append_cases (y ∷ xs) x zero u e = inl e
  append_cases (y ∷ xs) x (suc j) u e = elim (append_cases xs x j u e) [
    | inl k ↦ inl k
    | inr k ↦ inr (ap suc k.0, k.1)
  ]

  store-located :
      (f : ℕ → ℕ) (dense : List ℕ) (t n j u : ℕ)
      → length dense ≡ n
      → ((j u : ℕ) → get_elem? dense j ≡ some u → f u ≡ j)
      → holds_code dense (f t) t ≡ false
      → get_elem? (dense ++ (t ∷ [])) j ≡ some u
      → store f t n u ≡ j
  store-located f dense t n j u d located miss e = elim (append_cases dense t j u e) [
    | inl k ↦ elim (Bool-cases (u == t)) [
      | inl h ↦
          let same : u ≡ t = ground arith in
          let at : get_elem? dense (f t) ≡ some t = rw (← same) (rw (located j u k) k) in
          let there : holds_code dense (f t) t ≡ true = rw (at, holds_code) (ground arith) in
          absurd (ground arith)
      | inr h ↦ rw h (located j u k)
    ]
    | inr k ↦
        let itself : (u == t) ≡ true = ground (arith, k.1) in rw itself (omega (arith, k.0, d))
  ]

  miss_step :
      (doc t n : ℕ) (st : TrigramLists B)
      → IsSound sets holds st
      → t < 2 ^ 24
      → length st.dense_trigrams ≡ n
      → holds_code st.dense_trigrams (cells st.sparse_trigrams t) t ≡ false
      → Adds doc st
          (λ u. u == t)
          (do
            lists ← add_at sets doc (st.lists ++ (sets.new_set ∷ [])) n
            some (record {
              sparse_trigrams = some (store (cells st.sparse_trigrams) t n);
              dense_trigrams = st.dense_trigrams ++ (t ∷ []);
              lists = lists;
            }))
  miss_step doc t n st v small d miss =
      let f = cells st.sparse_trigrams in
      let b = sets.add_doc (sets.new_set) doc in
      let l : length st.lists ≡ n = v.same ∙ d in
      (
        record {
          sparse_trigrams = some (store f t n);
          dense_trigrams = st.dense_trigrams ++ (t ∷ []);
          lists = st.lists ++ (b ∷ []);
        },
        rw (add_at_last doc n st.lists l) refl,
        record {
          same = omega (
            arith,
            length-append st.lists (b ∷ []),
            length-append st.dense_trigrams (t ∷ []),
            v.same,
          );
          small = All-append (λ t. t < 2 ^ 24) st.dense_trigrams (t ∷ []) v.small (small, tt);
          located = λ j u e. store-located f st.dense_trigrams t n j u d v.located miss e;
        },
        λ u i.
            new_members sets holds laws f st.dense_trigrams st.lists doc t u i n b d l
              (λ i. ground (arith, laws.add_law (sets.new_set) doc i, laws.new_law i)) miss,
      )

  add_step :
      (doc t : ℕ) (st : TrigramLists B)
      → IsSound sets holds st
      → t < 2 ^ 24
      → Adds doc st (λ u. u == t) (add_trigram sets doc st t)
  unfolding add_trigram
  add_step doc t st v small =
      let f = cells st.sparse_trigrams in
      let wrap : length st.dense_trigrams ≡ length st.dense_trigrams % 2 ^ 32 =
        omega (arith, few st v) in
      let in_range : leb (2 ^ 24) t ≡ false = ground arith in
      elim (Bool-cases (holds_code st.dense_trigrams (f t) t)) [
        | inl hit ↦
            let at = holds_code-get_elem? st.dense_trigrams (f t) t hit in
            let inside : ltb (f t) (length st.dense_trigrams % 2 ^ 32) ≡ true =
              rw (← wrap) (ground (arith, get_elem?_bound st.dense_trigrams (f t) at)) in
            rw (in_range, hit, inside, add_trigram) (hit_step doc t st v hit)
        | inr miss ↦
            rw (in_range, miss, add_trigram)
              (miss_step doc t (length st.dense_trigrams % 2 ^ 32) st v small wrap miss)
      ]

  add_loop_lem :
      (doc : ℕ) (ts : List ℕ) (st : TrigramLists B)
      → IsSound sets holds st
      → All (λ t. t < 2 ^ 24) ts
      → Adds doc st (λ u. member u ts) (add_loop sets doc st ts)
  unfolding add_loop member
  add_loop_lem doc [] st v h = (st, refl, v, λ u i. ground arith)
  add_loop_lem doc (t ∷ ts) st v h =
      let (st₁, step, v₁, here) = add_step doc t st v h.0 in
      let (st₂, rest, v₂, later) = add_loop_lem doc ts st₁ v₁ h.1 in
      (st₂, rw step rest, v₂, λ u i. ground (arith, here u i, later u i))

  -- From a sound state, with trigrams below 2 ^ 24, `addTrigrams` ends without a panic in a sound
  -- state, where the lists of exactly these trigrams have the document besides what they had.
  pub add_trigrams-Adds :
      (doc : ℕ) (ts : List ℕ) (st : TrigramLists B)
      → IsSound sets holds st
      → All (λ t. t < 2 ^ 24) ts
      → Adds doc st (λ u. member u ts) (add_trigrams sets doc st ts)
  unfolding add_trigrams
  add_trigrams-Adds doc ts st v h =
      add_loop_lem doc ts (record st { sparse_trigrams = some (cells st.sparse_trigrams) })
        (record { same = v.same; small = v.small; located = v.located }) h
