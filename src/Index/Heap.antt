-- ===== src/Index/Heap.antt =====
-- `postHeap` of index/write.go: the chunks of sorted entries in a binary heap by their next entry.
-- The indices that are read and swapped are in range by the guards; a round of a sift moves the
-- index down or up, so as many rounds as there are chunks are enough.
pub mod Swap
pub mod Sift
pub mod Up
pub mod Rest
pub mod Queue
pub mod Push
mod Runs
use codesearch.Common.{ℕ, zero, suc, ◌+◌, ◌-◌, ◌*◌, ◌/◌, ◌^◌, Bool, true, false, not, ◌&&◌, ◌||◌}
use codesearch.Common.{Option, none, some, List, [], ◌∷◌, ◌++◌, ltb, leb, ◌==◌, if◌then◌else◌}
use codesearch.Common.{length, get_elem?, set, take}
use codesearch.Index.Add.{make_post_entry}

-- The next entry, and those behind it.
pub record PostChunk : Type 0 where
  pub e : ℕ
  pub m : List ℕ

abbrev pub entry_of : Option PostChunk → ℕ
entry_of none = 0
entry_of (some c) = c.e

-- `ch[i].e`
abbrev pub entry_at : List PostChunk → ℕ → ℕ
entry_at ch i = entry_of (get_elem? ch i)

-- `ch[i], ch[j] = ch[j], ch[i]`
unfoldable pub swap : List PostChunk → ℕ → ℕ → List PostChunk
swap ch i j = elim (get_elem? ch i) [
  | none ↦ ch
  | some a ↦ elim (get_elem? ch j) [ none ↦ ch | some b ↦ set (set ch i b) j a ]
]

-- The child that `siftDown` compares with: the second one if it is not above the first.
unfoldable pub lower_child : List PostChunk → ℕ → ℕ
lower_child ch i =
    let j1 = 2 * i + 1 in
    if ltb (j1 + 1) (length ch) && leb (entry_at ch (j1 + 1)) (entry_at ch j1) then j1 + 1 else j1

unfoldable pub sift_down : ℕ → List PostChunk → ℕ → List PostChunk
unfolding lower_child swap
sift_down zero ch i = ch
sift_down (suc rounds) ch i =
    let j = lower_child ch i in
    let rest = sift_down rounds (swap ch i j) j in
    if leb (length ch) (2 * i + 1)
    then ch
    else if ltb (entry_at ch i) (entry_at ch j)
    then ch
    else rest

unfoldable pub sift_up : ℕ → List PostChunk → ℕ → List PostChunk
unfolding swap
sift_up zero ch j = ch
sift_up (suc rounds) ch j =
    let i = (j - 1) / 2 in
    let rest = sift_up rounds (swap ch i j) i in
    if i == j || ltb (entry_at ch i) (entry_at ch j) then ch else rest

unfoldable pub push : List PostChunk → PostChunk → List PostChunk
unfolding sift_up
push h c =
    let ch = h ++ (c ∷ []) in if leb 2 (length ch) then sift_up (length ch) ch (length h) else ch

-- `add`: a chunk with no entry is left out.
unfoldable pub add_mem : List PostChunk → List ℕ → List PostChunk
unfolding push
add_mem h [] = h
add_mem h (x ∷ xs) = push h (record { e = x; m = xs })

-- `pop`, where an empty heap panics.
unfoldable pub pop : List PostChunk → Option (PostChunk × List PostChunk)
unfolding sift_down
pop [] = none
pop (c ∷ cs) = elim (get_elem? (c ∷ cs) (length cs)) [
  | none ↦ none
  | some last ↦
      let ch = take (length cs) (set (c ∷ cs) 0 last) in
      some (c, if ltb 1 (length cs) then sift_down (length ch) ch 0 else ch)
]

-- `next`: the entry, and the heap behind it.
unfoldable pub next_entry : List PostChunk → Option (ℕ × List PostChunk)
unfolding pop
next_entry [] = some (make_post_entry (2 ^ 24 - 1) 0, [])
next_entry (c ∷ cs) = elim c.m [
  | [] ↦ elim (pop (c ∷ cs)) [ none ↦ none | some (old, h) ↦ some (c.e, h) ]
  | x ∷ xs ↦ some (c.e, sift_down (suc (length cs)) (record { e = x; m = xs } ∷ cs) 0)
]
