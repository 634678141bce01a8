-- ===== src/Index/Heap/Queue.antt =====
-- `next` takes the least entry that is left, and no other.
use codesearch.Common.{ℕ, zero, suc, ◌+◌, ◌≤◌, ◌<◌, ◌≡◌, refl, arith, ap}
use codesearch.Common.{Bool-cases, inl, inr, Option, some, All}
use codesearch.Common.{List, [], ◌∷◌, ltb, ◌==◌, if◌then◌else◌, length, get_elem?}
use codesearch.Common.{All-In, In-of_get_elem?, IsAscending, get_elem?_bound}
use codesearch.Index.Heap.{PostChunk, entry_of, entry_at, sift_down, next_entry}
use codesearch.Index.Heap.Swap.{parent, IsOrderedBelow, total}
use codesearch.Index.Heap.Rest.{IsHeap, replace_root, pop-IsRest}

unfoldable pub count : ℕ → List ℕ → ℕ
count x [] = 0
count x (y ∷ l) = let rest = count x l in if y == x then rest + 1 else rest

-- How often an entry is left.
unfoldable pub left : ℕ → List PostChunk → ℕ
unfolding total count
left x h = total (λ c. count x (c.e ∷ c.m)) h

-- How many entries are left.
unfoldable pub size : List PostChunk → ℕ
unfolding total
size h = total (λ c. suc (length c.m)) h

-- What holds between two calls of `next`.
pub record IsQueue (h : List PostChunk) : Type 0 where
  pub heap : IsOrderedBelow (length h) (entry_at h)
  pub chunks : All (λ c. IsAscending (c.e ∷ c.m)) h

root_least :
    (h : List PostChunk) (n x : ℕ) → IsHeap h → x < n → x < length h → entry_at h 0 ≤ entry_at h x
root_least h zero x heap b l = elim b [ ]
root_least h (suc n) zero heap b l = omega arith
root_least h (suc n) (suc x) heap b l = omega (
  arith,
  heap (suc x) (omega arith) l,
  root_least h n (parent (suc x)) heap (omega (arith, b)) (omega (arith, l)),
)

count-above : (e x : ℕ) (l : List ℕ) → All (λ y. e < y) l → 0 < count x l → e < x
unfolding count
count-above e x [] h p = elim p [ ]
count-above e x (y ∷ l) h p = ground (arith, count-above e x l h.1, h.0, p)

find_total :
    (f : PostChunk → ℕ) (h : List PostChunk)
    → 0 < total f h
    → (i : ℕ) × (c : PostChunk) × (get_elem? h i ≡ some c) × (0 < f c)
unfolding total
find_total f [] p = elim p [ ]
find_total f (c ∷ cs) p = elim (Bool-cases (ltb 0 (f c))) [
  | inl e ↦ (0, c, refl, ground arith)
  | inr e ↦ let (i, d, at, q) = find_total f cs (ground arith) in (suc i, d, at, q)
]

IsQueue-least : (h : List PostChunk) (x : ℕ) → IsQueue h → 0 < left x h → entry_at h 0 ≤ x
unfolding left count
IsQueue-least h x queue p =
    let (i, c, at, q) = find_total (λ c. count x (c.e ∷ c.m)) h p in
    let asc = All-In (λ c. IsAscending (c.e ∷ c.m)) h queue.chunks c (In-of_get_elem? h i c at) in
    let root = root_least h (suc i) i queue.heap (omega arith) (get_elem?_bound h i at) in
    let here : entry_at h i ≡ c.e = ap entry_of at in
    ground (arith, root, here, q, count-above c.e x c.m asc.0)

-- What a call of `next` comes to: the least entry, once, and a heap of the rest.
abbrev pub Taken : List PostChunk → Option (ℕ × List PostChunk) → Type 0
Taken h o =
    (e : ℕ) × (h' : List PostChunk) × (o ≡ some (e, h'))
    × IsQueue h'
    × ((x : ℕ) → left x h ≡ left x h' + count x (e ∷ []))
    × ((x : ℕ) → 0 < left x h → e ≤ x)
    × (size h ≡ size h' + 1)

pub count-first : (x e : ℕ) (l : List ℕ) → count x (e ∷ l) ≡ count x l + count x (e ∷ [])
unfolding count
count-first x e l = ground arith

recount :
    (x e : ℕ) (l : List ℕ) (cs : List PostChunk) (s : ℕ)
    → s ≡ count x l + total (λ c. count x (c.e ∷ c.m)) cs
    → count x (e ∷ l) + total (λ c. count x (c.e ∷ c.m)) cs ≡ s + count x (e ∷ [])
recount x e l cs s h = omega (arith, h, count-first x e l)

resize : (n s t : ℕ) → s ≡ suc n + t → suc (suc n) + t ≡ s + 1
resize n s t h = omega (arith, h)

take_next :
    (e : ℕ) (m : List ℕ) (cs : List PostChunk)
    → IsQueue (record { e = e; m = m } ∷ cs)
    → Taken (record { e = e; m = m } ∷ cs) (next_entry (record { e = e; m = m } ∷ cs))
unfolding next_entry left total count size
take_next e [] cs queue =
    let c : PostChunk = record { e = e; m = [] } in
    let (h, run, rest) = pop-IsRest c cs queue.heap in
    (
      e,
      h,
      rw (run, next_entry) refl,
      record {
        heap = rest.heap;
        chunks = rest.keeps (λ c. IsAscending (c.e ∷ c.m)) queue.chunks.1;
      },
      λ x. omega (arith, rest.same (λ c. count x (c.e ∷ c.m))),
      λ x p. IsQueue-least (c ∷ cs) x queue p,
      omega (arith, rest.same (λ c. suc (length c.m))),
    )
take_next e (y ∷ ys) cs queue =
    let c : PostChunk = record { e = e; m = y ∷ ys } in
    let d : PostChunk = record { e = y; m = ys } in
    let rest = replace_root c d cs queue.heap in
    (
      e,
      sift_down (suc (length cs)) (d ∷ cs) 0,
      refl,
      record {
        heap = rest.heap;
        chunks = rest.keeps (λ c. IsAscending (c.e ∷ c.m)) (queue.chunks.0.1, queue.chunks.1);
      },
      λ x. recount x e (y ∷ ys) cs _ (rest.same (λ c. count x (c.e ∷ c.m))),
      λ x p. IsQueue-least (c ∷ cs) x queue p,
      resize (length ys) _ (total _ cs) (rest.same (λ c. suc (length c.m))),
    )

-- On chunks that ascend, in a heap that is not empty, `next` does not panic: it returns the least
-- entry that is left, takes that entry out once and no other, and keeps the heap.
pub next_entry-Taken : (h : List PostChunk) → IsQueue h → 0 < length h → Taken h (next_entry h)
next_entry-Taken [] queue p = elim p [ ]
next_entry-Taken (c ∷ cs) queue p = take_next c.e c.m cs queue
