-- ===== src/Index/Merge/Lists.antt =====
-- A posting list that is merged has the files of its trigram, in order.
use codesearch.Common.{
  ℕ, zero, suc, ◌+◌, ◌-◌, ◌*◌, ◌/◌, ◌%◌, ◌^◌, ◌≤◌, ◌<◌, ◌≡◌, ◌⊎◌, refl, arith, ◌∙◌, ap,
}
use codesearch.Common.{true, false, Bool-cases, inl, inr, Option, some}
use codesearch.Common.{List, [], ◌∷◌, ◌++◌, length, All}
use mathlib.Core.List.{append_assoc}
use codesearch.Index.Varint.{write_uvarint}
use codesearch.Index.Posting.{delta, write_ids}
use codesearch.Index.Add.{make_post_entry, entry_fileid}
use codesearch.Index.Heap.{PostChunk, next_entry}
use codesearch.Index.Heap.Queue.{IsQueue, left, count, count-first, size, next_entry-Taken}
use codesearch.Index.Merge.{Merging, in_list, written, write_list}

abbrev pub end_entry : ℕ
end_entry = (2 ^ 24 - 1) * 2 ^ 32

-- The entries of a list.
abbrev pub of_list : ℕ → List ℕ → List ℕ
of_list t [] = []
of_list t (i ∷ ids) = make_post_entry t i ∷ of_list t ids

abbrev pub IsRising : List ℕ → Type 0
IsRising [] = Unit
IsRising (i ∷ ids) = All (λ j. i ≤ j) ids × IsRising ids

-- The heap is one, with entries before the end and none below the one that was taken.
pub record IsMerging (e : ℕ) (h : List PostChunk) : Type 0 where
  pub queue : IsQueue h
  pub small : e ≤ end_entry
  pub least : (x : ℕ) → 0 < left x h → e ≤ x
  pub before : (x : ℕ) → 0 < left x h → x < end_entry

-- The next call: an entry that is not below, or the end.
abbrev Advanced : ℕ → List PostChunk → Type 0
Advanced e h =
    (e' : ℕ) × (h' : List PostChunk) × (next_entry h ≡ some (e', h'))
    × IsMerging e' h'
    × (e ≤ e')
    × ((x : ℕ) → x < end_entry → left x h ≡ left x h' + count x (e' ∷ []))
    × ((size h' < size h) ⊎ (e' ≡ end_entry))

no_more : (x : ℕ) → left x [] ≡ 0
unfolding left
no_more x = refl

not_end : (x : ℕ) → x < end_entry → count x (end_entry ∷ []) ≡ 0
unfolding count
not_end x h = ground arith

once : (x : ℕ) → count x (x ∷ []) ≡ 1
unfolding count
once x = ground arith

at_end : next_entry [] ≡ some (end_entry, [])
unfolding next_entry
at_end = refl

advance : (e : ℕ) (h : List PostChunk) → IsMerging e h → Advanced e h
advance e [] m = (
  end_entry,
  [],
  at_end,
  record {
    queue = m.queue;
    small = omega arith;
    least = λ x p. absurd (omega (arith, p, no_more x));
    before = λ x p. absurd (omega (arith, p, no_more x));
  },
  m.small,
  λ x p. omega (arith, no_more x, not_end x p),
  inr refl,
)
advance e (c ∷ cs) m =
    let (e', h', run, queue, counts, least, smaller) =
      next_entry-Taken (c ∷ cs) m.queue (omega arith) in
    let some_left : 0 < left e' (c ∷ cs) = omega (arith, counts e', once e') in
    (
      e',
      h',
      run,
      record {
        queue = queue;
        small = omega (arith, m.before e' some_left);
        least = λ x p. least x (omega (arith, counts x, p));
        before = λ x p. m.before x (omega (arith, counts x, p));
      },
      m.least e' some_left,
      λ x p. counts x,
      inl (omega (arith, smaller)),
    )

-- What writing a list comes to.
abbrev pub Listed : ℕ → Merging → Option Merging → Type 0
Listed t s o =
    (ids : List ℕ) × (s' : Merging) × (o ≡ some s')
    × (s'.out ≡ s.out ++ write_ids s.fileid ids)
    × (s'.nfile % 2 ^ 32 ≡ (s.nfile + length ids) % 2 ^ 32)
    × IsMerging s'.e s'.h
    × (in_list t s'.e ≡ false)
    × ((x : ℕ)
        → x < end_entry
        → left x s.h + count x (s.e ∷ [])
          ≡ left x s'.h + count x (s'.e ∷ []) + count x (of_list t ids))
    × IsRising ids
    × All (λ i. s.e ≤ make_post_entry t i) ids

stop :
    (t rounds : ℕ) (s : Merging)
    → IsMerging s.e s.h
    → in_list t s.e ≡ false
    → Listed t s (write_list (suc rounds) t s)
unfolding write_list write_ids count
stop t rounds s m e = (
  [],
  record s { out = s.out ++ write_uvarint 0 },
  rw (e, write_list) refl,
  refl,
  omega arith,
  m,
  e,
  λ x p. omega arith,
  tt,
  tt,
)

end_out : (t : ℕ) → in_list t end_entry ≡ false
end_out t = ground arith

All-weaken : (P Q : ℕ → Type 0) (l : List ℕ) → ((x : ℕ) → P x → Q x) → All P l → All Q l
All-weaken P Q [] f h = tt
All-weaken P Q (x ∷ l) f h = (f x h.0, All-weaken P Q l f h.1)

same_entry : (t e : ℕ) → in_list t e ≡ true → make_post_entry t (entry_fileid e) ≡ e
same_entry t e h = let here : e / 2 ^ 32 ≡ t = ground (arith, h) in omega (arith, here)

nfile_next :
    (n l r : ℕ) → r % 2 ^ 32 ≡ ((n + 1) % 2 ^ 32 + l) % 2 ^ 32 → r % 2 ^ 32 ≡ (n + suc l) % 2 ^ 32
nfile_next n l r h = omega (arith, h)

list_next :
    (t : ℕ) (s : Merging) (e' : ℕ) (h' : List PostChunk) (o : Option Merging)
    → in_list t s.e ≡ true
    → s.e ≤ e'
    → ((x : ℕ) → x < end_entry → left x s.h ≡ left x h' + count x (e' ∷ []))
    → Listed t (written s e' h') o
    → Listed t s o
unfolding write_ids
list_next t s e' h' o here le counts (ids, s', run, out, number, m, over, all, rising, above) =
    let i : ℕ = entry_fileid s.e in
    let back : make_post_entry t i ≡ s.e = same_entry t s.e here in
    (
      i ∷ ids,
      s',
      run,
      out ∙ append_assoc s.out (write_uvarint (delta s.fileid i)) (write_ids i ids),
      nfile_next s.nfile (length ids) s'.nfile number,
      m,
      over,
      λ x p.
          let after : left x h' + count x (e' ∷ [])
              ≡ left x s'.h + count x (s'.e ∷ []) + count x (of_list t ids) =
            all x p in
          let taken : count x (make_post_entry t i ∷ []) ≡ count x (s.e ∷ []) =
            ap (λ y. count x (y ∷ [])) back in
          omega
            (arith, counts x p, after, taken, count-first x (make_post_entry t i) (of_list t ids)),
      (
        All-weaken (λ j. e' ≤ make_post_entry t j) (λ j. i ≤ j) ids
            (λ j q. omega (arith, back, le, q)) above,
        rising,
      ),
      (
        omega (arith, back),
        All-weaken (λ j. e' ≤ make_post_entry t j) (λ j. s.e ≤ make_post_entry t j) ids
            (λ j q. omega (arith, le, q)) above,
      ),
    )

one_round :
    (rounds t : ℕ) (s : Merging) (e' : ℕ) (h' : List PostChunk)
    → in_list t s.e ≡ true
    → next_entry s.h ≡ some (e', h')
    → write_list (suc rounds) t s ≡ write_list rounds t (written s e' h')
unfolding write_list
one_round rounds t s e' h' e run = rw (e, run, write_list) refl

rounds_left :
    (t : ℕ) (s : Merging) (e' : ℕ) (h' : List PostChunk) (rounds : ℕ)
    → in_list t s.e ≡ true
    → (size h' < size s.h) ⊎ (e' ≡ end_entry)
    → (size s.h + 2 ≤ suc rounds) ⊎ ((s.e ≡ end_entry) × (0 < suc rounds))
    → (size h' + 2 ≤ rounds) ⊎ ((e' ≡ end_entry) × (0 < rounds))
rounds_left t s e' h' rounds e less (inr (last, enough)) =
    let over : in_list t s.e ≡ false = ap (in_list t) last ∙ end_out t in
    absurd (ground (arith, e, over))
rounds_left t s e' h' rounds e (inl less) (inl enough) = inl (omega (arith, less, enough))
rounds_left t s e' h' rounds e (inr last) (inl enough) = inr (last, omega (arith, enough))

list_all :
    (rounds t : ℕ) (s : Merging)
    → IsMerging s.e s.h
    → (size s.h + 2 ≤ rounds) ⊎ ((s.e ≡ end_entry) × (0 < rounds))
    → Listed t s (write_list rounds t s)
list_all zero t s m (inl enough) = absurd (omega (arith, enough))
list_all zero t s m (inr (last, enough)) = elim enough [ ]
list_all (suc rounds) t s m enough = elim (Bool-cases (in_list t s.e)) [
  | inr e ↦ stop t rounds s m e
  | inl e ↦
      let (e', h', run, m', le, counts, less) = advance s.e s.h m in
      let rest =
        list_all rounds t (written s e' h') m' (rounds_left t s e' h' rounds e less enough) in
      rw (one_round rounds t s e' h' e run) (list_next t s e' h' _ e le counts rest)
]

-- From a heap of entries before the end, none below the one at hand, with two rounds more than
-- entries, the loop does not panic or run out. It writes the ids of some files, in order, as a
-- posting list, counts them in 32 bits, stops at an entry of another trigram or at the end, and the entries of those files
-- with the trigram are exactly the ones that were taken from the heap, each as often.
pub write_list-Listed :
    (rounds t : ℕ) (s : Merging)
    → IsMerging s.e s.h
    → size s.h + 2 ≤ rounds
    → Listed t s (write_list rounds t s)
write_list-Listed rounds t s m enough = list_all rounds t s m (inl enough)
