-- ===== src/Index/Heap/Push.antt =====
-- Adding a chunk to the heap.
use codesearch.Common.{ℕ, ◌+◌, ◌<◌, ◌≡◌, refl, arith, ◌∙◌}
use codesearch.Common.{Bool-cases, inl, inr}
use codesearch.Common.{List, [], ◌∷◌, ◌++◌, leb, length}
use codesearch.Common.{All-append, length-append, get_elem?-append_left, IsAscending}
use codesearch.Index.Heap.{PostChunk, entry_at, push, add_mem}
use codesearch.Index.Heap.Swap.{parent, total}
use codesearch.Index.Heap.Sift.{IsSifted}
use codesearch.Index.Heap.Up.{HasLeaf, sift_up-IsSifted}
use codesearch.Index.Heap.Rest.{IsHeap, one-IsHeap}
use codesearch.Index.Heap.Queue.{count, left, IsQueue}

one_more :
    (h : List PostChunk) (c : PostChunk)
    → IsHeap h
    → HasLeaf (length (h ++ (c ∷ []))) (entry_at (h ++ (c ∷ []))) (length h)
one_more h c heap =
    let size = length-append h (c ∷ []) in
    record {
      others = λ x p l ne.
          let low : x < length h = omega (arith, size, l, ne) in
          rw
            (
              get_elem?-append_left h (c ∷ []) (parent x) (omega (arith, low)),
              get_elem?-append_left h (c ∷ []) x low,
            )
            (heap x p low);
      below = λ x p l q pos. absurd (omega (arith, size, l, q, pos));
    }

push-IsSifted :
    (h : List PostChunk) (c : PostChunk) → IsHeap h → IsSifted (h ++ (c ∷ [])) (push h c)
unfolding push
push-IsSifted h c heap =
    let ch = h ++ (c ∷ []) in
    let size : length ch ≡ length h + 1 = length-append h (c ∷ []) in
    elim (Bool-cases (leb 2 (length ch))) [
      | inl e ↦
          rw (e, push)
            (sift_up-IsSifted (length ch) ch (length h) (omega (arith, size)) (omega (arith, size))
              (one_more h c heap))
      | inr e ↦
          rw (e, push)
            record {
              size = refl;
              same = λ f. refl;
              heap = one-IsHeap ch (ground arith);
              keeps = λ P k. k;
            }
    ]

total-append :
    (f : PostChunk → ℕ) (h : List PostChunk) (c : PostChunk)
    → total f (h ++ (c ∷ [])) ≡ total f h + f c
unfolding total
total-append f [] c = omega arith
total-append f (d ∷ h) c = omega (arith, total-append f h c)

-- A chunk that ascends can be added, and only its entries come to what is left.
pub add_mem-IsQueue :
    (h : List PostChunk) (m : List ℕ)
    → IsQueue h
    → IsAscending m
    → IsQueue (add_mem h m) × ((x : ℕ) → left x (add_mem h m) ≡ left x h + count x m)
unfolding add_mem left count
add_mem-IsQueue h [] queue asc = (queue, λ x. omega arith)
add_mem-IsQueue h (y ∷ ys) queue asc =
    let c : PostChunk = record { e = y; m = ys } in
    let s = push-IsSifted h c queue.heap in
    (
      record {
        heap = s.heap;
        chunks =
            s.keeps (λ c. IsAscending (c.e ∷ c.m))
              (All-append (λ c. IsAscending (c.e ∷ c.m)) h (c ∷ []) queue.chunks (asc, tt));
      },
      λ x. s.same (λ c. count x (c.e ∷ c.m)) ∙ total-append (λ c. count x (c.e ∷ c.m)) h c,
    )
