-- ===== src/Index/Heap/Sift.antt =====
-- The sift away from the root restores the order of the heap and keeps its chunks.
use codesearch.Common.{
  ℕ, zero, suc, ◌+◌, ◌*◌, ◌≤◌, ◌<◌, ◌≡◌, ◌≢◌, ◌⊎◌, refl, arith, ◌∙◌, sym, subst,
}
use codesearch.Common.{Bool-cases, inl, inr}
use codesearch.Common.{List, ltb, leb, ◌==◌, length, ltb-false, All}
use codesearch.Index.Heap.{PostChunk, entry_at, swap, lower_child, sift_down}
use codesearch.Index.Heap.Swap.{
  All-swap, HasHole, IsOrderedBelow, hole_down, length-swap, parent, swap-Swapped, total,
  total-swap,
}

-- `j` is the child of `i` that has the least entry.
record IsLeast (ch : List PostChunk) (i j : ℕ) : Type 0 where
  pos : 0 < j
  low : j < length ch
  up : parent j ≡ i
  least : (x : ℕ) → 0 < x → x < length ch → parent x ≡ i → entry_at ch j ≤ entry_at ch x

only_child-IsLeast :
    (ch : List PostChunk) (i : ℕ)
    → 2 * i + 1 < length ch
    → length ch ≤ 2 * i + 1 + 1
    → IsLeast ch i (2 * i + 1)
only_child-IsLeast ch i h few = record {
  pos = omega arith;
  low = h;
  up = omega arith;
  least = λ x p l q. let xi : x ≡ 2 * i + 1 = omega (arith, few, p, l, q) in rw xi (omega arith);
}

child_is : (i x : ℕ) → 0 < x → parent x ≡ i → (x ≡ 2 * i + 1) ⊎ (x ≡ 2 * i + 1 + 1)
child_is i x p q = elim (Bool-cases (x == 2 * i + 1)) [
  | inl e ↦ inl (ground arith)
  | inr e ↦ inr (ground (arith, e, p, q))
]

first_child-IsLeast :
    (ch : List PostChunk) (i : ℕ)
    → 2 * i + 1 < length ch
    → entry_at ch (2 * i + 1) ≤ entry_at ch (2 * i + 1 + 1)
    → IsLeast ch i (2 * i + 1)
first_child-IsLeast ch i h le = record {
  pos = omega arith;
  low = h;
  up = omega arith;
  least = λ x p l q. elim (child_is i x p q) [ inl e ↦ rw e (omega arith) | inr e ↦ rw e le ];
}

second_child-IsLeast :
    (ch : List PostChunk) (i : ℕ)
    → 2 * i + 1 + 1 < length ch
    → entry_at ch (2 * i + 1 + 1) ≤ entry_at ch (2 * i + 1)
    → IsLeast ch i (2 * i + 1 + 1)
second_child-IsLeast ch i h le = record {
  pos = omega arith;
  low = h;
  up = omega arith;
  least = λ x p l q. elim (child_is i x p q) [ inl e ↦ rw e le | inr e ↦ rw e (omega arith) ];
}

lower_child-IsLeast :
    (ch : List PostChunk) (i : ℕ) → 2 * i + 1 < length ch → IsLeast ch i (lower_child ch i)
unfolding lower_child
lower_child-IsLeast ch i h = elim (Bool-cases (ltb (2 * i + 1 + 1) (length ch))) [
  | inr e ↦ rw (e, lower_child) (only_child-IsLeast ch i h (ground (arith, e)))
  | inl e ↦ elim (Bool-cases (leb (entry_at ch (2 * i + 1 + 1)) (entry_at ch (2 * i + 1)))) [
    | inl g ↦
        rw (e, g, lower_child) (second_child-IsLeast ch i (ground (arith, e)) (ground (arith, g)))
    | inr g ↦ rw (e, g, lower_child) (first_child-IsLeast ch i h (ground (arith, g)))
  ]
]

-- What a sift comes to: the same chunks, in the order of a heap.
pub record IsSifted (ch ch' : List PostChunk) : Type 1 where
  pub size : length ch' ≡ length ch
  pub same : (f : PostChunk → ℕ) → total f ch' ≡ total f ch
  pub heap : IsOrderedBelow (length ch') (entry_at ch')
  pub keeps : (P : PostChunk → Type 0) → All P ch → All P ch'

HasHole-IsSifted :
    (ch : List PostChunk) (i : ℕ)
    → HasHole (length ch) (entry_at ch) i
    → ((x : ℕ) → 0 < x → x < length ch → parent x ≡ i → entry_at ch i ≤ entry_at ch x)
    → IsSifted ch ch
HasHole-IsSifted ch i hole fine = record {
  size = refl;
  same = λ f. refl;
  heap = λ x p l. elim (Bool-cases (parent x == i)) [
    | inl e ↦
        let q : parent x ≡ i = ground arith in
        subst (λ y. entry_at ch y ≤ entry_at ch x) (sym q) (fine x p l q)
    | inr e ↦ hole.others x p l (ground arith)
  ];
  keeps = λ P h. h;
}

pub swap-IsSifted :
    (ch ch' : List PostChunk) (i j : ℕ)
    → i < length ch
    → j < length ch
    → i ≢ j
    → IsSifted (swap ch i j) ch'
    → IsSifted ch ch'
swap-IsSifted ch ch' i j hi hj ne s = record {
  size = s.size ∙ length-swap ch i j hi hj;
  same = λ f. s.same f ∙ total-swap f ch i j hi hj ne;
  heap = s.heap;
  keeps = λ P h. s.keeps P (All-swap P ch i j hi hj h);
}

swapped_down :
    (ch : List PostChunk) (i j : ℕ)
    → IsLeast ch i j
    → HasHole (length ch) (entry_at ch) i
    → entry_at ch j ≤ entry_at ch i
    → HasHole (length (swap ch i j)) (entry_at (swap ch i j)) j
swapped_down ch i j c hole turn =
    let above : i < j = omega (arith, c.pos, c.up) in
    let inside : i < length ch = omega (arith, above, c.low) in
    rw (length-swap ch i j inside c.low) (
      hole_down (length ch) (entry_at ch) (entry_at (swap ch i j)) i j hole
        (swap-Swapped ch i j inside c.low (λ q. absurd (omega (arith, q, above)))) c.pos c.low c.up
        c.least turn)

pub sift_down-IsSifted :
    (rounds : ℕ) (ch : List PostChunk) (i : ℕ)
    → length ch ≤ i + rounds
    → HasHole (length ch) (entry_at ch) i
    → IsSifted ch (sift_down rounds ch i)
unfolding sift_down
sift_down-IsSifted zero ch i enough hole =
    HasHole-IsSifted ch i hole (λ x p l q. absurd (omega (arith, enough, p, l, q)))
sift_down-IsSifted (suc rounds) ch i enough hole = elim (Bool-cases (leb (length ch) (2 * i + 1))) [
  | inl e ↦
      rw (e, sift_down)
        (HasHole-IsSifted ch i hole (λ x p l q. absurd (ground (arith, e, p, l, q))))
  | inr e ↦
      let j = lower_child ch i in
      let c : IsLeast ch i j = lower_child-IsLeast ch i (ground (arith, e)) in
      elim (Bool-cases (ltb (entry_at ch i) (entry_at ch j))) [
        | inl g ↦
            rw (e, g, sift_down)
              (HasHole-IsSifted ch i hole (λ x p l q. ground (arith, c.least x p l q, g)))
        | inr g ↦
            let above : i < j = omega (arith, c.pos, c.up) in
            let inside : i < length ch = omega (arith, above, c.low) in
            let swapped = swapped_down ch i j c hole (ltb-false _ _ g) in
            rw (e, g, sift_down)
              (swap-IsSifted ch _ i j inside c.low (λ q. absurd (omega (arith, q, above)))
                (sift_down-IsSifted rounds (swap ch i j) j
                  (omega (arith, length-swap ch i j inside c.low, above, enough)) swapped))
      ]
]
