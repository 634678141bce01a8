-- ===== src/Index/Heap/Runs.antt =====
-- The heap of two chunks.
use codesearch.Common.{ℕ, ◌+◌, ◌≡◌, refl, arith, some, List, [], ◌∷◌}
use codesearch.Index.Heap.{PostChunk, add_mem, next_entry}
use codesearch.Index.Heap.Queue.{IsQueue, Taken, left, count, next_entry-Taken}
use codesearch.Index.Heap.Push.{add_mem-IsQueue}

abbrev two_chunks : List PostChunk
two_chunks = record { e = 2; m = 7 ∷ [] } ∷ record { e = 5; m = [] } ∷ []

two_chunks-IsQueue : IsQueue two_chunks
two_chunks-IsQueue = record {
  heap = λ x p l. let one : x ≡ 1 = omega (arith, p, l) in rw one (omega arith);
  chunks = (((omega arith, tt), (tt, tt)), ((tt, tt), tt));
}

next_two :
    next_entry two_chunks ≡ some (2, record { e = 5; m = [] } ∷ record { e = 7; m = [] } ∷ [])
unfolding next_entry
next_two = refl

next_entry-Taken_example : Taken two_chunks (next_entry two_chunks)
next_entry-Taken_example = next_entry-Taken two_chunks two_chunks-IsQueue (omega arith)

add_mem-IsQueue_example :
    IsQueue (add_mem two_chunks (1 ∷ []))
    × ((x : ℕ) → left x (add_mem two_chunks (1 ∷ [])) ≡ left x two_chunks + count x (1 ∷ []))
add_mem-IsQueue_example = add_mem-IsQueue two_chunks (1 ∷ []) two_chunks-IsQueue (tt, tt)
