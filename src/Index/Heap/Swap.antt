-- ===== src/Index/Heap/Swap.antt =====
-- Exchanging two chunks, and the order of a heap but for one place.
use codesearch.Common.{ℕ, zero, suc, ◌+◌, ◌-◌, ◌/◌, ◌≤◌, ◌<◌, ◌≡◌, ◌≢◌, refl, arith, ◌∙◌, ap, sym}
use codesearch.Common.{Bool-cases, inl, inr, some}
use codesearch.Common.{List, [], ◌∷◌, ◌==◌, length, get_elem?, set, All, All-In, In-of_get_elem?}
use codesearch.Common.{length-set, get_elem?-set_self, get_elem?-set_ne, get_elem?-lt}
use codesearch.Index.Heap.{PostChunk, entry_of, entry_at, swap}

abbrev pub parent : ℕ → ℕ
parent x = (x - 1) / 2

-- No value is below the one above it.
abbrev pub IsOrderedBelow : ℕ → (ℕ → ℕ) → Type 0
IsOrderedBelow n k = (x : ℕ) → 0 < x → x < n → k (parent x) ≤ k x

-- The order but for the children of `i`, which are not below the parent of `i`.
pub record HasHole (n : ℕ) (k : ℕ → ℕ) (i : ℕ) : Type 0 where
  pub others : (x : ℕ) → 0 < x → x < n → parent x ≢ i → k (parent x) ≤ k x
  pub below : (x : ℕ) → 0 < x → x < n → parent x ≡ i → 0 < i → k (parent i) ≤ k x

-- The values of `k'` are those of `k`, with two exchanged.
pub record Swapped (k k' : ℕ → ℕ) (i j : ℕ) : Type 0 where
  pub left : k' i ≡ k j
  pub right : k' j ≡ k i
  pub same : (x : ℕ) → x ≢ i → x ≢ j → k' x ≡ k x

pub hole_down :
    (n : ℕ) (k k' : ℕ → ℕ) (i j : ℕ)
    → HasHole n k i
    → Swapped k k' i j
    → 0 < j
    → j < n
    → parent j ≡ i
    → ((x : ℕ) → 0 < x → x < n → parent x ≡ i → k j ≤ k x)
    → k j ≤ k i
    → HasHole n k' j
hole_down n k k' i j hole sw pos low up least turn = record {
  others = λ x p l ne. elim (Bool-cases (x == i)) [
    | inl e ↦
        let xi : x ≡ i = ground arith in
        let b = hole.below j pos low up (omega (arith, xi, p)) in
        rw xi
          (rw sw.left (rw (sw.same (parent i) (omega (arith, xi, p)) (omega (arith, xi, p, up))) b))
    | inr e ↦ elim (Bool-cases (parent x == i)) [
      | inl f ↦
          let pi : parent x ≡ i = ground arith in
          rw pi (
            rw sw.left (elim (Bool-cases (x == j)) [
              | inl g ↦ let xj : x ≡ j = ground arith in rw xj (rw sw.right turn)
              | inr g ↦ rw (sw.same x (ground arith) (ground arith)) (least x p l pi)
            ]))
      | inr f ↦
          let h = hole.others x p l (ground arith) in
          elim (Bool-cases (x == j)) [
            | inl g ↦ let xj : x ≡ j = ground arith in absurd (ground (arith, f, xj, up))
            | inr g ↦
                rw (sw.same (parent x) (ground arith) ne, sw.same x (ground arith) (ground arith)) h
          ]
    ]
  ];
  below = λ x p l e pj. rw up (
      rw sw.left (
        rw (sw.same x (omega (arith, e, up, p)) (omega (arith, e, p)))
          (let h = hole.others x p l (omega (arith, e, up, p)) in rw⁻¹ e h)));
}

swap-eq :
    (ch : List PostChunk) (i j : ℕ) (a b : PostChunk)
    → get_elem? ch i ≡ some a
    → get_elem? ch j ≡ some b
    → swap ch i j ≡ set (set ch i b) j a
unfolding swap
swap-eq ch i j a b ha hb = rw (ha, hb, swap) refl

pub length-swap :
    (ch : List PostChunk) (i j : ℕ)
    → i < length ch
    → j < length ch
    → length (swap ch i j) ≡ length ch
length-swap ch i j hi hj =
    let (a, ha) = get_elem?-lt ch i hi in
    let (b, hb) = get_elem?-lt ch j hj in
    rw (swap-eq ch i j a b ha hb) (length-set (set ch i b) j a ∙ length-set ch i b)

pub swap-Swapped :
    (ch : List PostChunk) (i j : ℕ)
    → i < length ch
    → j < length ch
    → i ≢ j
    → Swapped (entry_at ch) (entry_at (swap ch i j)) i j
swap-Swapped ch i j hi hj ne =
    let (a, ha) = get_elem?-lt ch i hi in
    let (b, hb) = get_elem?-lt ch j hj in
    let e = swap-eq ch i j a b ha hb in
    record {
      left =
          ap (λ c. entry_at c i) e
          ∙ ap entry_of (
              get_elem?-set_ne (set ch i b) j i a (λ q. ne (sym q))
              ∙ get_elem?-set_self ch i b hi
              ∙ sym hb);
      right =
          ap (λ c. entry_at c j) e
          ∙ ap entry_of
              (get_elem?-set_self (set ch i b) j a (omega (arith, hj, length-set ch i b)) ∙ sym ha);
      same = λ x ni nj.
          ap (λ c. entry_at c x) e
          ∙ ap entry_of (
              get_elem?-set_ne (set ch i b) j x a (λ q. nj (sym q))
              ∙ get_elem?-set_ne ch i x b (λ q. ni (sym q)));
    }

-- The sum of a number for each chunk.
unfoldable pub total : (PostChunk → ℕ) → List PostChunk → ℕ
total f [] = 0
total f (c ∷ cs) = f c + total f cs

total-set :
    (f : PostChunk → ℕ) (ch : List PostChunk) (i : ℕ) (a b : PostChunk)
    → get_elem? ch i ≡ some a
    → total f (set ch i b) + f a ≡ total f ch + f b
unfolding total
total-set f [] i a b h = ground arith
total-set f (c ∷ cs) zero a b h = let same : c ≡ a = ground arith in rw same (omega arith)
total-set f (c ∷ cs) (suc i) a b h = omega (arith, total-set f cs i a b h)

pub total-swap :
    (f : PostChunk → ℕ) (ch : List PostChunk) (i j : ℕ)
    → i < length ch
    → j < length ch
    → i ≢ j
    → total f (swap ch i j) ≡ total f ch
total-swap f ch i j hi hj ne =
    let (a, ha) = get_elem?-lt ch i hi in
    let (b, hb) = get_elem?-lt ch j hj in
    let first = total-set f ch i a b ha in
    let second = total-set f (set ch i b) j b a (get_elem?-set_ne ch i j b ne ∙ hb) in
    rw (swap-eq ch i j a b ha hb) (omega (arith, first, second))

All-set :
    (P : PostChunk → Type 0) (ch : List PostChunk) (i : ℕ) (b : PostChunk)
    → All P ch
    → P b
    → All P (set ch i b)
All-set P [] i b h p = tt
All-set P (c ∷ cs) zero b h p = (p, h.1)
All-set P (c ∷ cs) (suc i) b h p = (h.0, All-set P cs i b h.1 p)

pub All-swap :
    (P : PostChunk → Type 0) (ch : List PostChunk) (i j : ℕ)
    → i < length ch
    → j < length ch
    → All P ch
    → All P (swap ch i j)
All-swap P ch i j hi hj h =
    let (a, ha) = get_elem?-lt ch i hi in
    let (b, hb) = get_elem?-lt ch j hj in
    rw (swap-eq ch i j a b ha hb) (
      All-set P (set ch i b) j a (All-set P ch i b h (All-In P ch h b (In-of_get_elem? ch j b hb)))
        (All-In P ch h a (In-of_get_elem? ch i a ha)))
