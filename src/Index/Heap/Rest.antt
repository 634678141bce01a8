-- ===== src/Index/Heap/Rest.antt =====
-- What is left of a heap behind `pop` or a new root.
use codesearch.Common.{ℕ, zero, suc, ◌+◌, ◌≤◌, ◌<◌, ◌≡◌, refl, arith, ap}
use codesearch.Common.{Bool-cases, inl, inr, some, All}
use codesearch.Common.{List, [], ◌∷◌, ltb, length, get_elem?, take}
use codesearch.Common.{All-In, In-of_get_elem?, get_elem?-lt}
use codesearch.Index.Heap.{PostChunk, entry_at, sift_down, pop}
use codesearch.Index.Heap.Swap.{parent, IsOrderedBelow, HasHole, total}
use codesearch.Index.Heap.Sift.{sift_down-IsSifted}

abbrev pub IsHeap : List PostChunk → Type 0
IsHeap h = IsOrderedBelow (length h) (entry_at h)

-- A heap behind a change, with what each chunk of another list counts.
pub record IsRest (cs h : List PostChunk) : Type 1 where
  pub heap : IsHeap h
  pub same : (f : PostChunk → ℕ) → total f h ≡ total f cs
  pub keeps : (P : PostChunk → Type 0) → All P cs → All P h

other_root :
    (c d : PostChunk) (cs : List PostChunk)
    → IsHeap (c ∷ cs)
    → HasHole (length (d ∷ cs)) (entry_at (d ∷ cs)) 0
other_root c d cs heap = record {
  others = λ x p l ne. inner x (parent x) p (ground arith) (heap x p l);
  below = λ x p l q none_above. absurd (omega (arith, none_above));
}
  where
    inner :
        (x y : ℕ)
        → 0 < x
        → 0 < y
        → entry_at (c ∷ cs) y ≤ entry_at (c ∷ cs) x
        → entry_at (d ∷ cs) y ≤ entry_at (d ∷ cs) x
    inner zero y p q h = elim p [ ]
    inner (suc x) zero p q h = elim q [ ]
    inner (suc x) (suc y) p q h = h

pub replace_root :
    (c d : PostChunk) (cs : List PostChunk)
    → IsHeap (c ∷ cs)
    → IsRest (d ∷ cs) (sift_down (suc (length cs)) (d ∷ cs) 0)
replace_root c d cs heap =
    let s =
      sift_down-IsSifted (suc (length cs)) (d ∷ cs) 0 (omega arith) (other_root c d cs heap) in
    record { heap = s.heap; same = s.same; keeps = s.keeps }

length-take : (n : ℕ) (l : List PostChunk) → n ≤ length l → length (take n l) ≡ n
length-take zero l h = refl
length-take (suc n) [] h = elim h [ ]
length-take (suc n) (x ∷ l) h = ap suc (length-take n l (omega arith))

get_elem?-take : (n i : ℕ) (l : List PostChunk) → i < n → get_elem? (take n l) i ≡ get_elem? l i
get_elem?-take zero i l h = elim h [ ]
get_elem?-take (suc n) i [] h = refl
get_elem?-take (suc n) zero (x ∷ l) h = refl
get_elem?-take (suc n) (suc i) (x ∷ l) h = get_elem?-take n i l (omega arith)

total-take :
    (f : PostChunk → ℕ) (n : ℕ) (l : List PostChunk) (a : PostChunk)
    → length l ≡ suc n
    → get_elem? l n ≡ some a
    → total f (take n l) + f a ≡ total f l
unfolding total
total-take f n [] a h e = ground arith
total-take f zero (x ∷ []) a h e = let same : x ≡ a = ground arith in rw same (omega arith)
total-take f zero (x ∷ y ∷ l) a h e = absurd (omega (arith, h))
total-take f (suc n) (x ∷ l) a h e = omega (arith, total-take f n l a (omega (arith, h)) e)

All-take : (P : PostChunk → Type 0) (n : ℕ) (l : List PostChunk) → All P l → All P (take n l)
All-take P zero l h = tt
All-take P (suc n) [] h = tt
All-take P (suc n) (x ∷ l) h = (h.0, All-take P n l h.1)

length-ends :
    (c : PostChunk) (cs : List PostChunk)
    → (a : PostChunk) × (get_elem? (c ∷ cs) (length cs) ≡ some a)
length-ends c cs = get_elem?-lt (c ∷ cs) (length cs) (omega arith)

end_moved :
    (c a : PostChunk) (cs : List PostChunk)
    → get_elem? (c ∷ cs) (length cs) ≡ some a
    → get_elem? (a ∷ cs) (length cs) ≡ some a
end_moved c a [] e = refl
end_moved c a (d ∷ cs) e = e

pub one-IsHeap : (h : List PostChunk) → length h ≤ 1 → IsHeap h
one-IsHeap h few x p l = absurd (omega (arith, few, p, l))

-- The chunks behind the root, with the last one in its place.
shortened :
    (c a : PostChunk) (cs : List PostChunk)
    → IsHeap (c ∷ cs)
    → HasHole (length cs) (entry_at (take (length cs) (a ∷ cs))) 0
shortened c a cs heap = record {
  others = λ x p l ne.
      let h = (other_root c a cs heap).others x p (omega (arith, l)) ne in
      rw
        (
          get_elem?-take (length cs) (parent x) (a ∷ cs) (omega (arith, p, l)),
          get_elem?-take (length cs) x (a ∷ cs) l,
        )
        h;
  below = λ x p l q none_above. absurd (omega (arith, none_above));
}

All-shortened :
    (P : PostChunk → Type 0) (c a : PostChunk) (cs : List PostChunk)
    → get_elem? (c ∷ cs) (length cs) ≡ some a
    → All P cs
    → All P (take (length cs) (a ∷ cs))
All-shortened P c a [] e h = tt
All-shortened P c a (d ∷ ds) e h = (
  All-In P (d ∷ ds) h a (In-of_get_elem? (d ∷ ds) (length ds) a e),
  All-take P (length ds) (d ∷ ds) h,
)

popped :
    (c a : PostChunk) (cs h : List PostChunk)
    → get_elem? (c ∷ cs) (length cs) ≡ some a
    → IsHeap h
    → ((f : PostChunk → ℕ) → total f h ≡ total f (take (length cs) (a ∷ cs)))
    → ((P : PostChunk → Type 0) → All P (take (length cs) (a ∷ cs)) → All P h)
    → IsRest cs h
unfolding total
popped c a cs h e heap same keeps = record {
  heap = heap;
  same = λ f.
      let t = total-take f (length cs) (a ∷ cs) a refl (end_moved c a cs e) in
      omega (arith, t, same f);
  keeps = λ P k. keeps P (All-shortened P c a cs e k);
}

pub pop-IsRest :
    (c : PostChunk) (cs : List PostChunk)
    → IsHeap (c ∷ cs)
    → (h : List PostChunk) × (pop (c ∷ cs) ≡ some (c, h)) × IsRest cs h
unfolding pop
pop-IsRest c cs heap =
    let (a, e) = length-ends c cs in
    let ch = take (length cs) (a ∷ cs) in
    let size = length-take (length cs) (a ∷ cs) (omega arith) in
    elim (Bool-cases (ltb 1 (length cs))) [
      | inr g ↦ (
        ch,
        rw (e, g, pop) refl,
        popped c a cs ch e (one-IsHeap ch (ground (arith, size, g))) (λ f. refl) (λ P k. k),
      )
      | inl g ↦
          let s =
            sift_down-IsSifted (length ch) ch 0 (omega arith) (rw size (shortened c a cs heap)) in
          (sift_down (length ch) ch 0, rw (e, g, pop) refl, popped c a cs _ e s.heap s.same s.keeps)
    ]
