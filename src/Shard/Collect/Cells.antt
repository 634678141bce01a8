-- ===== src/Shard/Collect/Cells.antt =====
-- What one step of `addTrigrams` changes in the list of each trigram.
use codesearch.Common.{ℕ, zero, suc, ◌≤◌, ◌<◌, ◌≡◌, refl, arith, ◌∙◌, ap, sym}
use codesearch.Common.{Bool, true, false, ◌&&◌, ◌||◌, ltb, ◌==◌, Bool-cases}
use codesearch.Common.{Option, none, some, List, [], ◌∷◌, ◌++◌, inl, inr, tests}
use codesearch.Common.{length, get_elem?, set}
use codesearch.Common.{
  get_elem?-append_left, get_elem?-append_last, get_elem?-set_self, get_elem?-set_ne,
}
use codesearch.Shard.Collect.{DocSets, store, holds_code, SetLaws, listed_in}

holds_code_beyond :
    (dense : List ℕ) (t u j : ℕ)
    → (t == u) ≡ false
    → length dense ≤ j
    → holds_code (dense ++ (t ∷ [])) j u ≡ false
holds_code_beyond [] t u zero h p = h
holds_code_beyond [] t u (suc j) h p = refl
holds_code_beyond (x ∷ dense) t u zero h p = absurd (omega arith)
holds_code_beyond (x ∷ dense) t u (suc j) h p = holds_code_beyond dense t u j h (omega arith)

get_elem?_beyond : {A : Type 0} (xs : List A) (j : ℕ) → length xs ≤ j → get_elem? xs j ≡ none
get_elem?_beyond [] j p = refl
get_elem?_beyond (x ∷ xs) zero p = absurd (omega arith)
get_elem?_beyond (x ∷ xs) (suc j) p = get_elem?_beyond xs j (omega arith)

pub holds_code-get_elem? :
    (dense : List ℕ) (j t : ℕ) → holds_code dense j t ≡ true → get_elem? dense j ≡ some t
holds_code-get_elem? [] j t h = ground arith
holds_code-get_elem? (x ∷ dense) zero t h = ap some (ground arith)
holds_code-get_elem? (x ∷ dense) (suc j) t h = holds_code-get_elem? dense j t h

module _ {B : Type 0} (sets : DocSets B) (holds : B → ℕ → Bool) (laws : SetLaws sets holds) where
  listed_in-false : (o : Option B) (i : ℕ) → listed_in sets holds o false i ≡ false
  listed_in-false none i = refl
  listed_in-false (some b) i = refl

  other_code :
      (dense : List ℕ) (j t u : ℕ)
      → get_elem? dense j ≡ some t
      → (u == t) ≡ false
      → holds_code dense j u ≡ false
  other_code dense j t u at e = rw (at, holds_code) (ground arith)

  pub hit_members :
      (f : ℕ → ℕ) (dense : List ℕ) (lists : List B) (doc t u i : ℕ) (b : B)
      → get_elem? lists (f t) ≡ some b
      → f t < length lists
      → holds_code dense (f t) t ≡ true
      → listed_in sets holds
          (get_elem? (set lists (f t) (sets.add_doc b doc)) (f u))
          (holds_code dense (f u) u)
          i
        ≡ (listed_in sets holds (get_elem? lists (f u)) (holds_code dense (f u) u) i
            || (u == t && i == doc))
  hit_members f dense lists doc t u i b read inside hit = elim (Bool-cases (u == t)) [
    | inl e ↦
        let same : u ≡ t = ground arith in
        rw same (
          rw (get_elem?-set_self lists (f t) (sets.add_doc b doc) inside, read, hit)
            (ground (arith, laws.add_law b doc i)))
    | inr e ↦ elim (Bool-cases (f u == f t)) [
      | inl k ↦
          let eq : f u ≡ f t = ground arith in
          let at = holds_code-get_elem? dense (f t) t hit in
          let no : holds_code dense (f u) u ≡ false = rw eq (other_code dense (f t) t u at e) in
          rw (no, e)
            (listed_in-false (get_elem? (set lists (f t) (sets.add_doc b doc)) (f u)) i
              ∙ sym (ap (λ x. x || false) (listed_in-false (get_elem? lists (f u)) i)))
      | inr k ↦
          rw (get_elem?-set_ne lists (f t) (f u) (sets.add_doc b doc) (λ q. ground arith), e)
            (ground arith)
    ]
  ]

  pub new_members :
      (f : ℕ → ℕ) (dense : List ℕ) (lists : List B) (doc t u i n : ℕ) (b : B)
      → length dense ≡ n
      → length lists ≡ n
      → ((i : ℕ) → holds b i ≡ (i == doc))
      → holds_code dense (f t) t ≡ false
      → listed_in sets holds
          (get_elem? (lists ++ (b ∷ [])) (store f t n u))
          (holds_code (dense ++ (t ∷ [])) (store f t n u) u)
          i
        ≡ (listed_in sets holds (get_elem? lists (f u)) (holds_code dense (f u) u) i
            || (u == t && i == doc))
  new_members f dense lists doc t u i n b d l law miss = elim (Bool-cases (u == t)) [
    | inl e ↦
        let same : u ≡ t = ground arith in
        let itself : (t == t) ≡ true = ground arith in
        let last : get_elem? (dense ++ (t ∷ [])) n ≡ some t =
          rw (← d) (get_elem?-append_last dense t) in
        let code : holds_code (dense ++ (t ∷ [])) n t ≡ true = rw (last, holds_code) itself in
        let list : get_elem? (lists ++ (b ∷ [])) n ≡ some b =
          rw (← l) (get_elem?-append_last lists b) in
        rw same (
          rw itself (
            rw (list, code, miss)
              (rw (listed_in-false (get_elem? lists (f t)) i) (ground (arith, law i)))))
    | inr e ↦ elim (Bool-cases (ltb (f u) n)) [
      | inl k ↦
          let code : holds_code (dense ++ (t ∷ [])) (f u) u ≡ holds_code dense (f u) u =
            rw (get_elem?-append_left dense (t ∷ []) (f u) (omega tests), holds_code) refl in
          rw (e, get_elem?-append_left lists (b ∷ []) (f u) (omega tests), code) (ground arith)
      | inr k ↦
          let no = holds_code_beyond dense t u (f u) (ground arith) (omega tests) in
          let out = get_elem?_beyond lists (f u) (omega tests) in
          rw (e, no, out) (listed_in-false (get_elem? (lists ++ (b ∷ [])) (f u)) i)
    ]
  ]
