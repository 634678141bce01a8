-- ===== src/Index/Renumber/Step.antt =====
-- A call of `nextId`: the number it leaves at hand, and the number of the list that it keeps.
use codesearch.Common.{ℕ, zero, suc, ◌+◌, ◌%◌, ◌^◌, ◌<◌, ◌≡◌, refl, ap, subst}
use codesearch.Common.{Bool-cases, Option-cases, inl, inr, some, List, [], ◌∷◌}
use codesearch.Common.{ltb, ◌==◌}
use codesearch.Index.Varint.{uvarint}
use codesearch.Index.Posting.{no_id}
use codesearch.Index.Renumber.{
  IdRange, PostMapReader, NextId, mapped, ended, broken, next_id, next_id_loop, step_reader,
  skip_ranges, translate,
}
use codesearch.Index.Renumber.Ids.{YieldsIds}

-- A reader behind a call of `nextId`: the number at hand, and those behind it.
abbrev pub IsAt : PostMapReader → List ℕ → Type 0
IsAt r [] = r.fileid ≡ no_id
IsAt r (x ∷ xs) = (r.fileid ≡ x) × (x < no_id) × YieldsIds (next_id r) xs

-- A call of `nextId` leaves the number of the list alone.
abbrev pub KeepsNum : ℕ → NextId → Type 0
KeepsNum n (mapped r) = r.tri_num ≡ n
KeepsNum n (ended r) = r.tri_num ≡ n
KeepsNum n broken = Unit

translate-KeepsNum :
    (r : PostMapReader) (count id : ℕ) (rest : List ℕ) (left : List IdRange)
    (again : List IdRange → NextId)
    → ((l : List IdRange) → KeepsNum r.tri_num (again l))
    → KeepsNum r.tri_num (translate r count id rest left again)
unfolding translate
translate-KeepsNum r count id rest [] again h = refl
translate-KeepsNum r count id rest (x ∷ xs) again h = elim (Bool-cases (ltb id x.lo)) [
  | inl e ↦ rw e (h (x ∷ xs))
  | inr e ↦ rw e refl
]

next_id_loop-KeepsNum :
    (count : ℕ) (r : PostMapReader) (oldid : ℕ) (d : List ℕ) (idmap : List IdRange)
    → KeepsNum r.tri_num (next_id_loop r count oldid d idmap)
unfolding next_id_loop
next_id_loop-KeepsNum zero r oldid d idmap = refl
next_id_loop-KeepsNum (suc count) r oldid d idmap = elim (Option-cases (uvarint d)) [
  | inl e ↦ rw (e, next_id_loop) tt
  | inr ((v, rest), e) ↦ elim (Bool-cases (v % 2 ^ 32 == 0)) [
    | inl z ↦ rw (e, next_id_loop) (rw z tt)
    | inr z ↦
        rw (e, next_id_loop)
          (rw z (
            translate-KeepsNum r count ((oldid + v % 2 ^ 32) % 2 ^ 32) rest
              (skip_ranges ((oldid + v % 2 ^ 32) % 2 ^ 32) idmap) _
              (λ l. next_id_loop-KeepsNum count r ((oldid + v % 2 ^ 32) % 2 ^ 32) rest l)))
  ]
]

pub next_id-KeepsNum : (r : PostMapReader) → KeepsNum r.tri_num (next_id r)
unfolding next_id
next_id-KeepsNum r = next_id_loop-KeepsNum r.count r r.oldid r.d r.idmap

called :
    (o : NextId) (xs : List ℕ) (n : ℕ)
    → YieldsIds o xs
    → KeepsNum n o
    → (r : PostMapReader) × (step_reader o ≡ some r) × IsAt r xs × (r.tri_num ≡ n)
called o [] n (r, e, f) k = (r, ap step_reader e, f, subst (KeepsNum n) e k)
called o (x ∷ xs) n (r, e, f, l, more) k =
    (r, ap step_reader e, (f, l, more), subst (KeepsNum n) e k)

pub stepped :
    (r : PostMapReader) (xs : List ℕ)
    → YieldsIds (next_id r) xs
    → (r' : PostMapReader) × (step_reader (next_id r) ≡ some r')
      × IsAt r' xs
      × (r'.tri_num ≡ r.tri_num)
stepped r xs h = called (next_id r) xs r.tri_num h (next_id-KeepsNum r)
