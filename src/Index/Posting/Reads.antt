-- ===== src/Index/Posting/Reads.antt =====
-- What the reader's calls of `next` return on the bytes that the writers produce.
use mathlib.Core.List.{append_assoc}
use codesearch.Common.{ℕ, suc, ◌+◌, ◌%◌, ◌^◌, ◌<◌, ◌≡◌, ◌≢◌, refl, arith, ◌∙◌, subst}
use codesearch.Common.{true, false, Option, none, some, List, [], ◌∷◌, ◌++◌, inl, inr, Bool-cases}
use codesearch.Common.{
  ◌==◌, if◌then◌else◌, length, All, member, IsAscending, member_above, All-lt_trans,
}
use codesearch.Index.Varint.{write_uvarint, uvarint, uvarint-write_uvarint}
use codesearch.Index.Posting.{
  delta, write_ids, PostReader, Next, found, done, corrupt, skip_below, starts_with, accept,
  next_loop, next,
}

-- The calls of `next` return the ids of the list, one after the other, and then false.
abbrev pub Yields : PostReader → List ℕ → Type 0
Yields r [] = (r' : PostReader) × (next r ≡ done r')
Yields r (x ∷ xs) = (r' : PostReader) × (next r ≡ found r') × (r'.fileid ≡ x) × Yields r' xs

-- Each id is a uint32 and differs from the one before it, so that no delta is zero.
abbrev pub Follows : ℕ → List ℕ → Type 0
Follows last [] = Unit {0}
Follows last (id ∷ ids) = (id < 2 ^ 32) × (last ≢ id) × Follows id ids

-- A reader in front of the deltas of `ids`.
abbrev pub reader_at : ℕ → List ℕ → List ℕ → Option (List ℕ) → PostReader
reader_at last ids tail restrict = record {
  count = length ids;
  fileid = last;
  bytes = some (write_ids last ids ++ tail);
  restrict = restrict;
}

-- The ids that a restriction lets through.
unfoldable pub keep : List ℕ → List ℕ → List ℕ
keep [] rs = []
keep (x ∷ xs) rs = if member x rs then x ∷ keep xs rs else keep xs rs

pub read_one :
    (last id : ℕ) (ids tail : List ℕ)
    → uvarint (write_ids last (id ∷ ids) ++ tail) ≡ some (delta last id, write_ids id ids ++ tail)
unfolding write_ids
read_one last id ids tail =
    rw (append_assoc (write_uvarint (delta last id)) (write_ids id ids) tail)
      (uvarint-write_uvarint (delta last id) (write_ids id ids ++ tail) (omega arith))

pub delta_nonzero :
    (last id : ℕ) → last < 2 ^ 32 → id < 2 ^ 32 → last ≢ id → (delta last id % 2 ^ 32 == 0) ≡ false
delta_nonzero last id p q h = ground arith

pub delta_back :
    (last id : ℕ) → last < 2 ^ 32 → id < 2 ^ 32 → (last + delta last id % 2 ^ 32) % 2 ^ 32 ≡ id
delta_back last id p q = omega arith

-- One round of `next` on the first delta.
next_round :
    (last id : ℕ) (ids tail : List ℕ) (restrict : Option (List ℕ))
    → last < 2 ^ 32
    → Follows last (id ∷ ids)
    → next_loop (suc (length ids)) last (some (write_ids last (id ∷ ids) ++ tail)) restrict
      ≡ accept
          (length ids)
          id
          (write_ids id ids ++ tail)
          restrict
          (λ left. next_loop (length ids) id (some (write_ids id ids ++ tail)) (some left))
unfolding next_loop
next_round last id ids tail restrict p f =
    round (write_ids last (id ∷ ids) ++ tail) (delta last id) (write_ids id ids ++ tail)
      (read_one last id ids tail)
    ∙ rw (delta_nonzero last id p f.0 f.1, delta_back last id p f.0)
  where
    round :
        (bytes : List ℕ) (v : ℕ) (rest : List ℕ)
        → uvarint bytes ≡ some (v, rest)
        → next_loop (suc (length ids)) last (some bytes) restrict ≡ (
            if v % 2 ^ 32 == 0
            then corrupt
            else accept (length ids) ((last + v % 2 ^ 32) % 2 ^ 32) rest restrict (λ left.
              next_loop (length ids) ((last + v % 2 ^ 32) % 2 ^ 32) (some rest) (some left)))
    round bytes v rest e = rw (e, next_loop)

accept_kept :
    (count id : ℕ) (rest rs : List ℕ) (again : List ℕ → Next)
    → starts_with id (skip_below id rs) ≡ true
    → accept count id rest (some rs) again
      ≡ found (record {
        count = count;
        fileid = id;
        bytes = some rest;
        restrict = some (skip_below id rs);
      })
unfolding accept
accept_kept count id rest rs again e = rw e

accept_dropped :
    (count id : ℕ) (rest rs : List ℕ) (again : List ℕ → Next)
    → starts_with id (skip_below id rs) ≡ false
    → accept count id rest (some rs) again ≡ again (skip_below id rs)
unfolding accept
accept_dropped count id rest rs again e = rw e

-- Advancing the restriction answers whether the id is in it, and keeps what may still come.
pub starts_with-skip_below :
    (id : ℕ) (rs : List ℕ) → IsAscending rs → starts_with id (skip_below id rs) ≡ member id rs
unfolding skip_below member
starts_with-skip_below id [] s = refl
starts_with-skip_below id (r ∷ rs) s = ground (
  arith,
  starts_with-skip_below id rs s.1,
  λ (h : id < r). member_above id rs (All-lt_trans id r rs h s.0),
)

pub member-skip_below :
    (id later : ℕ) (rs : List ℕ) → id < later → member later (skip_below id rs) ≡ member later rs
unfolding skip_below member
member-skip_below id later [] h = refl
member-skip_below id later (r ∷ rs) h = ground (arith, member-skip_below id later rs h)

pub skip_below-IsAscending :
    (id : ℕ) (rs : List ℕ) → IsAscending rs → IsAscending (skip_below id rs)
unfolding skip_below
skip_below-IsAscending id [] s = tt
skip_below-IsAscending id (r ∷ rs) s = ground (arith, skip_below-IsAscending id rs s.1)

keep-skip_below :
    (id : ℕ) (ids rs : List ℕ) → All (λ y. id < y) ids → keep ids (skip_below id rs) ≡ keep ids rs
unfolding keep
keep-skip_below id [] rs h = refl
keep-skip_below id (x ∷ ids) rs h =
    rw (member-skip_below id x rs h.0, keep-skip_below id ids rs h.1)

-- A reader shows only through what `next` returns on it.
Yields-next : (r s : PostReader) (xs : List ℕ) → next r ≡ next s → Yields s xs → Yields r xs
Yields-next r s [] e y = (y.0, e ∙ y.1)
Yields-next r s (x ∷ xs) e y = (y.0, e ∙ y.1, y.2, y.3)

next_end :
    (last : ℕ) (tail : List ℕ) (restrict : Option (List ℕ))
    → (r' : PostReader) × (next (reader_at last [] tail restrict) ≡ done r')
unfolding next write_ids write_uvarint
next_end last tail restrict = (_, refl)

-- Without a restriction the reader returns the ids that were written.
pub reader_at-Yields :
    (last : ℕ) (ids tail : List ℕ)
    → last < 2 ^ 32
    → Follows last ids
    → Yields (reader_at last ids tail none) ids
reader_at-Yields last [] tail p f = next_end last tail none
reader_at-Yields last (id ∷ ids) tail p f =
    (reader_at id ids tail none, free, refl, reader_at-Yields id ids tail f.0 f.2)
  where
    free : next (reader_at last (id ∷ ids) tail none) ≡ found (reader_at id ids tail none)
    free = unfold next accept in next_round last id ids tail none p f

-- From the bytes that the writer stored for ascending ids, each another id than the one before it,
-- and under an ascending restriction, the calls of `next` return exactly the ids that are in the
-- restriction, in order, and then false.
pub reader_at-Yields-keep :
    (last : ℕ) (ids tail rs : List ℕ)
    → last < 2 ^ 32
    → Follows last ids
    → IsAscending ids
    → IsAscending rs
    → Yields (reader_at last ids tail (some rs)) (keep ids rs)
unfolding keep next
reader_at-Yields-keep last [] tail rs p f a b = next_end last tail (some rs)
reader_at-Yields-keep last (id ∷ ids) tail rs p f a b =
    let first = next_round last id ids tail (some rs) p f in
    let left = skip_below id rs in
    let again : List ℕ → Next =
      λ rest. next_loop (length ids) id (some (write_ids id ids ++ tail)) (some rest) in
    let head = starts_with-skip_below id rs b in
    let later : Yields (reader_at id ids tail (some left)) (keep ids rs) =
      subst (Yields (reader_at id ids tail (some left))) (keep-skip_below id ids rs a.0)
        (reader_at-Yields-keep id ids tail left f.0 f.2 a.1 (skip_below-IsAscending id rs b)) in
    elim (Bool-cases (member id rs)) [
      | inl e ↦ rw e (
        reader_at id ids tail (some left),
        first ∙ accept_kept _ id _ rs again (head ∙ e),
        refl,
        later,
      )
      | inr e ↦ rw e (
          Yields-next _ (reader_at id ids tail (some left)) _
            (first ∙ accept_dropped _ id _ rs again (head ∙ e)) later)
    ]
