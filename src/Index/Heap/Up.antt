-- ===== src/Index/Heap/Up.antt =====
-- The sift towards the root, and `push`.
use codesearch.Common.{ℕ, zero, suc, ◌-◌, ◌/◌, ◌≤◌, ◌<◌, ◌≡◌, ◌≢◌, refl, arith, sym, subst}
use codesearch.Common.{Bool-cases, inl, inr}
use codesearch.Common.{List, ltb, ◌==◌, length, ltb-false}
use codesearch.Index.Heap.{PostChunk, entry_at, swap, sift_up}
use codesearch.Index.Heap.Swap.{parent, Swapped, swap-Swapped, length-swap}
use codesearch.Index.Heap.Sift.{IsSifted, swap-IsSifted}

-- The order but for `j` and what is above it; the children of `j` are not below its parent.
pub record HasLeaf (n : ℕ) (k : ℕ → ℕ) (j : ℕ) : Type 0 where
  pub others : (x : ℕ) → 0 < x → x < n → x ≢ j → k (parent x) ≤ k x
  pub below : (x : ℕ) → 0 < x → x < n → parent x ≡ j → 0 < j → k (parent j) ≤ k x

leaf_up :
    (n : ℕ) (k k' : ℕ → ℕ) (i j : ℕ)
    → HasLeaf n k j
    → Swapped k k' i j
    → 0 < j
    → j < n
    → parent j ≡ i
    → k j ≤ k i
    → HasLeaf n k' i
leaf_up n k k' i j leaf sw pos low up turn = record {
  others = λ x p l ne. elim (Bool-cases (x == j)) [
    | inl e ↦ let xj : x ≡ j = ground arith in rw xj (rw up (rw (sw.left, sw.right) turn))
    | inr e ↦
        let xj : x ≢ j = ground arith in
        let h = leaf.others x p l xj in
        elim (Bool-cases (parent x == i)) [
          | inl f ↦
              let q : parent x ≡ i = ground arith in
              let h' : k i ≤ k x = subst (λ y. k y ≤ k x) q h in
              rw q (rw (sw.left, sw.same x ne xj) (omega (arith, h', turn)))
          | inr f ↦ elim (Bool-cases (parent x == j)) [
            | inl g ↦
                let q : parent x ≡ j = ground arith in
                let b : k (parent j) ≤ k x = leaf.below x p l q pos in
                let b' : k i ≤ k x = subst (λ y. k y ≤ k x) up b in
                rw q (rw (sw.right, sw.same x ne xj) b')
            | inr g ↦ rw (sw.same (parent x) (ground arith) (ground arith), sw.same x ne xj) h
          ]
        ]
  ];
  below = λ x p l q inner.
      let above : k (parent i) ≤ k i =
        leaf.others i inner (omega (arith, up, low)) (omega (arith, up, inner)) in
      rw (sw.same (parent i) (omega (arith, inner)) (omega (arith, up, inner)))
        (elim (Bool-cases (x == j)) [
          | inl e ↦ let xj : x ≡ j = ground arith in rw xj (rw sw.right above)
          | inr e ↦
              let xj : x ≢ j = ground arith in
              let h : k i ≤ k x = subst (λ y. k y ≤ k x) q (leaf.others x p l xj) in
              rw (sw.same x (omega (arith, p, q)) xj) (omega (arith, h, above))
        ]);
}

risen :
    (ch : List PostChunk) (j : ℕ)
    → HasLeaf (length ch) (entry_at ch) j
    → (0 < j → entry_at ch (parent j) ≤ entry_at ch j)
    → IsSifted ch ch
risen ch j leaf fine = record {
  size = refl;
  same = λ f. refl;
  heap = λ x p l. elim (Bool-cases (x == j)) [
    | inl e ↦
        let q : x ≡ j = ground arith in
        subst (λ y. entry_at ch (parent y) ≤ entry_at ch y) (sym q) (fine (omega (arith, p, q)))
    | inr e ↦ leaf.others x p l (ground arith)
  ];
  keeps = λ P h. h;
}

swapped_up :
    (ch : List PostChunk) (i j : ℕ)
    → HasLeaf (length ch) (entry_at ch) j
    → 0 < j
    → j < length ch
    → parent j ≡ i
    → entry_at ch j ≤ entry_at ch i
    → HasLeaf (length (swap ch i j)) (entry_at (swap ch i j)) i
swapped_up ch i j leaf pos low up turn =
    let inside : i < length ch = omega (arith, pos, up, low) in
    rw (length-swap ch i j inside low) (
      leaf_up (length ch) (entry_at ch) (entry_at (swap ch i j)) i j leaf
        (swap-Swapped ch i j inside low (λ q. absurd (omega (arith, q, pos, up)))) pos low up turn)

pub sift_up-IsSifted :
    (rounds : ℕ) (ch : List PostChunk) (j : ℕ)
    → j < rounds
    → j < length ch
    → HasLeaf (length ch) (entry_at ch) j
    → IsSifted ch (sift_up rounds ch j)
unfolding sift_up
sift_up-IsSifted zero ch j enough low leaf = elim enough [ ]
sift_up-IsSifted (suc rounds) ch j enough low leaf = elim (Bool-cases ((j - 1) / 2 == j)) [
  | inl e ↦ rw (e, sift_up) (risen ch j leaf (λ p. absurd (ground (arith, p, e))))
  | inr e ↦ elim (Bool-cases (ltb (entry_at ch (parent j)) (entry_at ch j))) [
    | inl g ↦ rw (e, g, sift_up) (risen ch j leaf (λ p. ground (arith, g)))
    | inr g ↦
        let pos : 0 < j = ground (arith, e) in
        let inside : parent j < length ch = omega (arith, low, pos) in
        let swapped = swapped_up ch (parent j) j leaf pos low refl (ltb-false _ _ g) in
        rw (e, g, sift_up)
          (swap-IsSifted ch _ (parent j) j inside low (λ q. absurd (omega (arith, q, pos)))
            (sift_up-IsSifted rounds (swap ch (parent j) j) (parent j) (omega (arith, pos, enough))
              (omega (arith, length-swap ch (parent j) j inside low, inside)) swapped))
  ]
]
