-- ===== src/Index/Read/Table.antt =====
-- The posting list index: the entries that the writers append, and their search by `findList`.
use codesearch.Common.{
  ℕ, zero, suc, ◌+◌, ◌*◌, ◌/◌, ◌%◌, ◌^◌, ◌≤◌, ◌<◌, ◌≡◌, refl, arith, ◌∙◌, ap, sym, ◌-◌,
}
use codesearch.Common.{some, List, [], ◌∷◌, ◌++◌, inl, inr, Bool-cases}
use codesearch.Common.{leb, ◌==◌, if◌then◌else◌, length, drop, All}
use codesearch.Index.Search.{IsFirst, IsMonotone, search-IsFirst}
use codesearch.Index.Read.{
  Index, slice, be_uint32, trigram_of, at_least, entry_match, entry_found, find_list,
  post_entry_size,
}

-- `writeUint32` and `writeTrigram` of bufWriter.
unfoldable pub write_uint32 : ℕ → List ℕ
write_uint32 x = x / 2 ^ 24 % 256 ∷ x / 2 ^ 16 % 256 ∷ x / 2 ^ 8 % 256 ∷ x % 256 ∷ []

unfoldable pub write_trigram : ℕ → List ℕ
write_trigram t = t / 2 ^ 16 % 256 ∷ t / 2 ^ 8 % 256 ∷ t % 256 ∷ []

pub record Entry : Type 0 where
  pub trigram : ℕ
  pub count : ℕ
  pub offset : ℕ

-- An index entry as `mergePost` and `endTrigram` write it.
unfoldable pub write_entry : Entry → List ℕ
unfolding write_trigram write_uint32
write_entry e = write_trigram e.trigram ++ (write_uint32 e.count ++ write_uint32 e.offset)

unfoldable pub write_entries : List Entry → List ℕ
unfolding write_entry
write_entries [] = []
write_entries (e ∷ es) = write_entry e ++ write_entries es

pub record IsEntry (e : Entry) : Type 0 where
  pub trigram : e.trigram < 2 ^ 24
  pub count : e.count < 2 ^ 32
  pub offset : e.offset < 2 ^ 32

-- Trigrams in ascending order, each in range.
abbrev pub IsTable : List Entry → Type 0
IsTable [] = Unit {0}
IsTable (e ∷ es) = IsEntry e × All (λ d. e.trigram < d.trigram) es × IsTable es

-- The reference: what the table says of a trigram, and (0, 0) of one that it does not hold.
unfoldable pub lookup : ℕ → List Entry → ℕ × ℕ
lookup t [] = (0, 0)
lookup t (e ∷ es) = if e.trigram == t then (e.count, e.offset) else lookup t es

head_trigram : List Entry → ℕ
head_trigram [] = 0
head_trigram (e ∷ es) = e.trigram

drop-write_entries :
    (i : ℕ) (es : List Entry)
    → drop (i * post_entry_size) (write_entries es) ≡ write_entries (drop i es)
unfolding write_entries
drop-write_entries zero es = refl
drop-write_entries (suc i) [] = let e : suc i * 11 ≡ suc (i * 11 + 10) = omega arith in rw e
drop-write_entries (suc i) (e ∷ es) =
    let shift : suc i * 11
        ≡ suc (suc (suc (suc (suc (suc (suc (suc (suc (suc (suc (i * 11))))))))))) =
      omega arith in
    rw shift (drop-write_entries i es)

trigram_of-write_entries :
    (es : List Entry) → IsTable es → trigram_of (write_entries es) ≡ head_trigram es
unfolding write_entries trigram_of head_trigram
trigram_of-write_entries [] h = refl
trigram_of-write_entries (e ∷ es) h = omega (arith, h.0.trigram)

drop-IsTable : (i : ℕ) (es : List Entry) → IsTable es → IsTable (drop i es)
drop-IsTable zero es h = h
drop-IsTable (suc i) [] h = tt
drop-IsTable (suc i) (e ∷ es) h = drop-IsTable i es h.2

head_above :
    (t j : ℕ) (es : List Entry)
    → All (λ d. t < d.trigram) es
    → j < length es
    → t < head_trigram (drop j es)
unfolding head_trigram
head_above t j [] h p = absurd (omega arith)
head_above t zero (e ∷ es) h p = h.0
head_above t (suc j) (e ∷ es) h p = head_above t j es h.1 (omega arith)

head_mono :
    (i j : ℕ) (es : List Entry)
    → IsTable es
    → i ≤ j
    → j < length es
    → head_trigram (drop i es) ≤ head_trigram (drop j es)
unfolding head_trigram
head_mono i j [] h p q = absurd (omega arith)
head_mono zero zero (e ∷ es) h p q = omega arith
head_mono zero (suc j) (e ∷ es) h p q = omega (arith, head_above e.trigram j es h.1 (omega arith))
head_mono (suc i) zero (e ∷ es) h p q = absurd (omega arith)
head_mono (suc i) (suc j) (e ∷ es) h p q = head_mono i j es h.2 (omega arith) (omega arith)

-- Entries with smaller trigrams do not matter to a lookup.
lookup-drop :
    (t i : ℕ) (es : List Entry)
    → i ≤ length es
    → ((k : ℕ) → k < i → head_trigram (drop k es) < t)
    → lookup t (drop i es) ≡ lookup t es
unfolding lookup head_trigram
lookup-drop t zero es p h = refl
lookup-drop t (suc i) [] p h = absurd (omega arith)
lookup-drop t (suc i) (e ∷ es) p h =
    ground
      (arith, h 0 (omega arith), lookup-drop t i es (omega arith) (λ k lt. h (suc k) (omega arith)))

lookup_above : (t : ℕ) (es : List Entry) → All (λ d. t < d.trigram) es → lookup t es ≡ (0, 0)
unfolding lookup
lookup_above t [] h = refl
lookup_above t (e ∷ es) h = ground (arith, lookup_above t es h.1)

be_uint32-count :
    (e : Entry) (es : List Entry)
    → IsEntry e
    → be_uint32 (drop 3 (write_entries (e ∷ es))) ≡ some e.count
unfolding be_uint32 write_entries
be_uint32-count e es h = ap some (omega (arith, h.count))

be_uint32-offset :
    (e : Entry) (es : List Entry)
    → IsEntry e
    → be_uint32 (drop 7 (write_entries (e ∷ es))) ≡ some e.offset
unfolding be_uint32 write_entries
be_uint32-offset e es h = ap some (omega (arith, h.offset))

above_trans :
    (t u : ℕ) (es : List Entry) → t < u → All (λ d. u < d.trigram) es → All (λ d. t < d.trigram) es
above_trans t u [] h k = tt
above_trans t u (e ∷ es) h k = (omega arith, above_trans t u es h k.1)

first_match :
    (t : ℕ) (e : Entry) (es : List Entry)
    → IsTable (e ∷ es)
    → t ≤ head_trigram (e ∷ es)
    → (if head_trigram (e ∷ es) == t then some (e.count, e.offset) else some (0, 0))
      ≡ some (lookup t (e ∷ es))
unfolding head_trigram lookup
first_match t e es h p = elim (Bool-cases (e.trigram == t)) [
  | inl a ↦ rw a
  | inr a ↦ rw a (rw (lookup_above t es (above_trans t e.trigram es (ground arith) h.1)))
]

entry_match-write_entries :
    (t : ℕ) (es : List Entry)
    → IsTable es
    → 0 < length es
    → t ≤ head_trigram es
    → entry_match t (write_entries es) ≡ some (lookup t es)
unfolding entry_match
entry_match-write_entries t [] h p q = absurd (omega arith)
entry_match-write_entries t (e ∷ es) h p q =
    rw (trigram_of-write_entries (e ∷ es) h, be_uint32-count e es h.0, be_uint32-offset e es h.0)
      (first_match t e es h q)

length-drop : (n : ℕ) (es : List Entry) → length (drop n es) ≡ length es - n
length-drop zero es = omega arith
length-drop (suc n) [] = omega arith
length-drop (suc n) (e ∷ es) = omega (arith, length-drop n es)

lookup_none : (t : ℕ) (es : List Entry) → length es ≡ 0 → lookup t es ≡ (0, 0)
unfolding lookup
lookup_none t [] h = refl
lookup_none t (e ∷ es) h = absurd (omega arith)

module _ (t : ℕ) (es : List Entry) (table : IsTable es) where
  trigram_at :
      (i : ℕ)
      → trigram_of (drop (i * post_entry_size) (write_entries es)) ≡ head_trigram (drop i es)
  trigram_at i =
      ap trigram_of (drop-write_entries i es)
      ∙ trigram_of-write_entries (drop i es) (drop-IsTable i es table)

  test_at : (i : ℕ) → at_least t (write_entries es) i ≡ leb t (head_trigram (drop i es))
  test_at i = ap (leb t) (trigram_at i)

  at_least-IsMonotone : IsMonotone (length es) (at_least t (write_entries es))
  at_least-IsMonotone i j p q e = ground (arith, test_at i, test_at j, head_mono i j es table p q)

  entry_found-lookup :
      (r : ℕ)
      → IsFirst (length es) (at_least t (write_entries es)) r
      → entry_found t (length es) (write_entries es) r ≡ some (lookup t es)
  unfolding entry_found
  entry_found-lookup r first = elim (Bool-cases (leb (length es) r)) [
    | inl e ↦
        rw e
          (ap some (sym (lookup_none t (drop r es) (ground (arith, length-drop r es))) ∙ skipped))
    | inr e ↦
        let fits : r < length es = ground arith in
        rw e (
          ap (entry_match t) (drop-write_entries r es)
          ∙ entry_match-write_entries t (drop r es) (drop-IsTable r es table)
              (omega (arith, length-drop r es)) (ground (arith, test_at r, first.here fits))
          ∙ ap some skipped)
  ]
    where
      skipped : lookup t (drop r es) ≡ lookup t es
      skipped = lookup-drop t r es first.bound (λ k lt. ground (arith, test_at k, first.below k lt))

-- Where the posting list index holds a table of ascending trigrams, as it is written, `findList`
-- returns the count and the offset that the table gives a trigram, or (0, 0).
pub find_list-lookup :
    (ix : Index) (es : List Entry) (t : ℕ)
    → IsTable es
    → ix.num_post ≡ length es
    → slice ix ix.post_index (some (post_entry_size * ix.num_post)) ≡ some (write_entries es)
    → find_list ix t ≡ some (lookup t es)
unfolding find_list
find_list-lookup ix es t table n h =
    rw (h, find_list)
      (rw n (
        entry_found-lookup t es table _
          (search-IsFirst (length es) _ (at_least-IsMonotone t es table))))
