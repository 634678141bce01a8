-- ===== src/Shard/Find.antt =====
-- `FindTrigram` against a search through the list of trigrams from its front.
use codesearch.Common.{ℕ, zero, suc, ◌+◌, ◌*◌, ◌/◌, ◌^◌, ◌≤◌, ◌<◌, ◌≡◌, ◌≢◌, refl, arith, ap}
use codesearch.Common.{false, Option, none, some, List, [], ◌∷◌, ◌++◌, inl, inr}
use codesearch.Common.{Bool-cases, if◌then◌else◌, ltb, ◌==◌, length, drop, All, IsAscending, tests}
use codesearch.Index.Read.Table.{write_trigram}
use codesearch.Index.Answer.{trigram_code}
use codesearch.Shard.{Bitmaps, PostingLists, load, find_loop, find_trigram}

-- Three bytes for each trigram, the highest first.
unfoldable pub write_trigrams : List ℕ → List ℕ
unfolding write_trigram
write_trigrams [] = []
write_trigrams (c ∷ cs) = write_trigram c ++ write_trigrams cs

-- The posting lists are those of ascending trigrams.
pub record IsSorted (p : PostingLists) (cs : List ℕ) : Type 0 where
  pub bytes : p.trigrams_bytes ≡ write_trigrams cs
  pub ascending : IsAscending cs
  pub small : All (λ c. c < 2 ^ 24) cs

-- The reference: the position of a trigram.
unfoldable pub index_of : ℕ → List ℕ → Option ℕ
index_of t [] = none
index_of t (c ∷ cs) =
    if c == t then some 0 else elim (index_of t cs) [ none ↦ none | some i ↦ some (suc i) ]

nth : List ℕ → ℕ → ℕ
nth [] i = 0
nth (c ∷ cs) zero = c
nth (c ∷ cs) (suc i) = nth cs i

nth_above : (x : ℕ) (cs : List ℕ) (i : ℕ) → All (λ c. x < c) cs → i < length cs → x < nth cs i
unfolding nth
nth_above x [] i a h = absurd (omega arith)
nth_above x (c ∷ cs) zero a h = a.0
nth_above x (c ∷ cs) (suc i) a h = nth_above x cs i a.1 (omega arith)

nth_mono : (cs : List ℕ) (i j : ℕ) → IsAscending cs → i < j → j < length cs → nth cs i < nth cs j
unfolding nth
nth_mono [] i j s p h = absurd (omega arith)
nth_mono (c ∷ cs) i zero s p h = absurd (omega arith)
nth_mono (c ∷ cs) zero (suc j) s p h = nth_above c cs j s.0 (omega arith)
nth_mono (c ∷ cs) (suc i) (suc j) s p h = nth_mono cs i j s.1 (omega arith) (omega arith)

index_of-nth :
    (cs : List ℕ) (i : ℕ) → IsAscending cs → i < length cs → index_of (nth cs i) cs ≡ some i
unfolding nth index_of
index_of-nth [] i s h = absurd (omega arith)
index_of-nth (c ∷ cs) zero s h = ground arith
index_of-nth (c ∷ cs) (suc i) s h =
    let above = nth_above c cs i s.0 (omega arith) in
    let other : (c == nth cs i) ≡ false = ground arith in
    rw other (rw (index_of-nth cs i s.1 (omega arith)) refl)

index_of-none :
    (t : ℕ) (cs : List ℕ) → ((i : ℕ) → i < length cs → nth cs i ≢ t) → index_of t cs ≡ none
unfolding nth index_of
index_of-none t [] h = refl
index_of-none t (c ∷ cs) h =
    let first : c ≢ t = h 0 (omega arith) in
    let other : (c == t) ≡ false = ground arith in
    rw other (rw (index_of-none t cs (λ i p. h (suc i) (omega arith))) refl)

trigram_code-write_trigrams :
    (cs : List ℕ) (i : ℕ)
    → All (λ c. c < 2 ^ 24) cs
    → i < length cs
    → trigram_code (drop (i * 3) (write_trigrams cs)) ≡ some (nth cs i)
unfolding nth write_trigrams trigram_code
trigram_code-write_trigrams [] i b h = absurd (omega arith)
trigram_code-write_trigrams (c ∷ cs) zero b h = ap some (omega (arith, b.0))
trigram_code-write_trigrams (c ∷ cs) (suc i) b h =
    let shift : suc i * 3 ≡ suc (suc (suc (i * 3))) = omega arith in
    rw shift (trigram_code-write_trigrams cs i b.1 (omega arith))

length-write_trigrams : (cs : List ℕ) → length (write_trigrams cs) ≡ length cs * 3
unfolding write_trigrams
length-write_trigrams [] = refl
length-write_trigrams (c ∷ cs) = omega (arith, length-write_trigrams cs)

module _ {B : Type 0} (rb : Bitmaps B) (p : PostingLists) (cs : List ℕ)
    (sorted : IsSorted p cs) where
  -- What the search comes to: the bitmap as it was, or the one that the list is read into.
  abbrev pub outcome : B → Option ℕ → Option B
  outcome bitmap none = some bitmap
  outcome bitmap (some i) = load rb p i bitmap

  none_left :
      (lower upper t : ℕ) (bitmap : B)
      → upper ≤ lower
      → ((k : ℕ) → k < lower → nth cs k < t)
      → ((k : ℕ) → upper ≤ k → k < length cs → t < nth cs k)
      → some bitmap ≡ outcome bitmap (index_of t cs)
  none_left lower upper t bitmap a low high =
      let none_at : (k : ℕ) → k < length cs → nth cs k ≢ t = λ k h e.
        elim (Bool-cases (ltb k lower)) [
          | inl q ↦ absurd (omega (tests, low k (omega tests)))
          | inr q ↦ absurd (omega (tests, high k (omega tests) h))
        ] in
      rw (index_of-none t cs none_at) refl

  below_mid : (h t : ℕ) → h < length cs → nth cs h < t → (k : ℕ) → k < h + 1 → nth cs k < t
  below_mid h t b v k q = elim (Bool-cases (ltb k h)) [
    | inl e ↦ omega (tests, nth_mono cs k h (sorted.ascending) (omega tests) b)
    | inr e ↦ let same : k ≡ h = omega tests in rw same v
  ]

  above_mid :
      (h t : ℕ) → h < length cs → t < nth cs h → (k : ℕ) → h ≤ k → k < length cs → t < nth cs k
  above_mid h t b v k q r = elim (Bool-cases (ltb h k)) [
    | inl e ↦ omega (tests, nth_mono cs h k (sorted.ascending) (omega tests) r)
    | inr e ↦ let same : k ≡ h = omega tests in rw same v
  ]

  find_loop-index_of :
      (fuel lower upper t : ℕ) (bitmap : B)
      → lower ≤ upper
      → upper ≤ length cs
      → upper ≤ lower + fuel
      → ((k : ℕ) → k < lower → nth cs k < t)
      → ((k : ℕ) → upper ≤ k → k < length cs → t < nth cs k)
      → find_loop rb p fuel lower upper t bitmap ≡ outcome bitmap (index_of t cs)
  unfolding find_loop
  find_loop-index_of zero lower upper t bitmap a b c low high =
      none_left lower upper t bitmap (omega arith) low high
  find_loop-index_of (suc fuel) lower upper t bitmap a b c low high =
      elim (Bool-cases (ltb lower upper)) [
        | inr done ↦ rw (done, find_loop) (none_left lower upper t bitmap (omega tests) low high)
        | inl more ↦
            let h : ℕ = (lower + upper) / 2 in
            let inside : h < length cs = omega tests in
            let read : trigram_code (drop (h * 3) p.trigrams_bytes) ≡ some (nth cs h) =
              rw (sorted.bytes) (trigram_code-write_trigrams cs h (sorted.small) inside) in
            rw (more, find_loop)
              (rw read (elim (Bool-cases (nth cs h == t)) [
                | inl hit ↦
                    let same : t ≡ nth cs h = ground arith in
                    rw hit (rw same (rw (index_of-nth cs h (sorted.ascending) inside) refl))
                | inr miss ↦ rw miss (elim (Bool-cases (ltb (nth cs h) t)) [
                  | inl less ↦ rw less (
                      find_loop-index_of fuel (h + 1) upper t bitmap (omega tests) b (omega tests)
                        (below_mid h t inside (omega tests)) high)
                  | inr more ↦ rw more (
                      find_loop-index_of fuel lower h t bitmap (omega tests) (omega tests)
                        (omega tests) low (above_mid h t inside (ground arith)))
                ])
              ]))
      ]

  -- On posting lists of ascending trigrams the binary search ends within its bound and comes to
  -- what the position of the trigram says.
  pub find_trigram-index_of :
      (t : ℕ) (bitmap : B) → find_trigram rb p t bitmap ≡ outcome bitmap (index_of t cs)
  unfolding find_trigram
  find_trigram-index_of t bitmap =
      let size : length p.trigrams_bytes / 3 ≡ length cs =
        rw (sorted.bytes) (omega (arith, length-write_trigrams cs)) in
      rw size (
        find_loop-index_of (length cs) 0 (length cs) t bitmap (omega arith) (omega arith)
          (omega arith) (λ k h. absurd (omega arith)) (λ k h q. absurd (omega arith)))
