-- ===== src/Index/Renumber/Ids.antt =====
-- `nextId` returns the new numbers of the ids that the map has.
use codesearch.Common.{ℕ, suc, ◌+◌, ◌-◌, ◌%◌, ◌^◌, ◌≤◌, ◌<◌, ◌≡◌, ◌≢◌, ◌⊎◌, refl, arith, subst}
use codesearch.Common.{true, false, Bool-cases, inl, inr, none, some, List, [], ◌∷◌, ◌++◌}
use codesearch.Common.{ltb, leb, length}
use codesearch.Index.Posting.{no_id, write_ids}
use codesearch.Index.Posting.Reads.{read_one, delta_nonzero, delta_back}
use codesearch.Index.Renumber.{
  IdRange, PostMapReader, NextId, mapped, ended, skip_ranges, translate, next_id_loop, next_id,
}
use codesearch.Index.Renumber.Ranges.{
  IsMap, new_id, image, Rises, image-none, image-some, skip_ranges-image, skip_ranges-IsMap,
  skip_ranges-head, new_id-none, image-nil,
}

-- A call that returns true for each number, and false at the end.
abbrev pub YieldsIds : NextId → List ℕ → Type 0
YieldsIds o [] = (r : PostMapReader) × (o ≡ ended r) × (r.fileid ≡ no_id)
YieldsIds o (x ∷ xs) =
    (r : PostMapReader) × (o ≡ mapped r) × (r.fileid ≡ x) × (x < no_id) × YieldsIds (next_id r) xs

-- One round of the loop on the first delta.
id_round :
    (r : PostMapReader) (last id : ℕ) (ids tail : List ℕ) (idmap : List IdRange)
    → last < 2 ^ 32
    → id < 2 ^ 32
    → last ≢ id
    → next_id_loop r (suc (length ids)) last (write_ids last (id ∷ ids) ++ tail) idmap
      ≡ translate r
          (length ids)
          id
          (write_ids id ids ++ tail)
          (skip_ranges id idmap)
          (λ left. next_id_loop r (length ids) id (write_ids id ids ++ tail) left)
unfolding next_id_loop
id_round r last id ids tail idmap p q ne =
    rw (read_one last id ids tail, next_id_loop)
      (rw (delta_nonzero last id p q ne, delta_back last id p q) refl)

translated :
    (r : PostMapReader) (count id : ℕ) (rest : List ℕ) (x : IdRange) (xs : List IdRange)
    (again : List IdRange → NextId)
    → x.lo ≤ id
    → id < x.hi
    → x.new + (x.hi - x.lo) ≤ no_id
    → translate r count id rest (x ∷ xs) again
      ≡ mapped (record r {
        count = count;
        d = rest;
        oldid = id;
        idmap = x ∷ xs;
        fileid = x.new + (id - x.lo);
      })
unfolding translate
translated r count id rest x xs again a b c =
    let at : ltb id x.lo ≡ false = ground arith in
    let new : (x.new + id + 2 ^ 32 - x.lo) % 2 ^ 32 ≡ x.new + (id - x.lo) =
      omega (arith, a, b, c) in
    rw at (rw new refl)

-- The rest of a round, where the rounds behind it do what they should.
translate-YieldsIds :
    (r : PostMapReader) (id : ℕ) (ids rest : List ℕ) (left : List IdRange) (from : ℕ)
    → IsMap from left
    → ((x : IdRange) (xs : List IdRange) → left ≡ x ∷ xs → id < x.hi)
    → ((r' : PostMapReader)
        → YieldsIds (next_id_loop r' (length ids) id rest left) (image left ids))
    → YieldsIds
        (translate r (length ids) id rest left (λ l. next_id_loop r (length ids) id rest l))
        (image left (id ∷ ids))
translate-YieldsIds r id ids rest [] from m ends more =
    rw (image-nil (id ∷ ids)) (unfold translate in (_, refl, refl))
translate-YieldsIds r id ids rest (x ∷ xs) from (a, b, c, m) ends more =
    elim (Bool-cases (ltb id x.lo)) [
      | inl e ↦
          let under : leb x.lo id ≡ false = ground arith in
          let none_here : new_id (x ∷ xs) id ≡ none =
            unfold new_id in rw under (new_id-none xs id x.hi m (ground (arith, e, b))) in
          rw (image-none (x ∷ xs) id ids none_here) (skipped e)
      | inr e ↦
          let inside = ends x xs refl in
          let above : leb x.lo id ≡ true = ground arith in
          let under : ltb id x.hi ≡ true = ground arith in
          let some_here : new_id (x ∷ xs) id ≡ some (x.new + (id - x.lo)) =
            unfold new_id in rw (above, under) refl in
          rw (image-some (x ∷ xs) id (x.new + (id - x.lo)) ids some_here) (
            found r x xs id,
            translated r (length ids) id rest x xs _ (ground (arith, e)) inside c,
            refl,
            ground (arith, e, inside, c),
            opened (found r x xs id) (more (found r x xs id)),
          )
    ]
  where
    found : PostMapReader → IdRange → List IdRange → ℕ → PostMapReader
    found r x xs id = record r {
      count = length ids;
      d = rest;
      oldid = id;
      idmap = x ∷ xs;
      fileid = x.new + (id - x.lo);
    }

    opened :
        (r' : PostMapReader)
        → YieldsIds (next_id_loop r' r'.count r'.oldid r'.d r'.idmap) (image (x ∷ xs) ids)
        → YieldsIds (next_id r') (image (x ∷ xs) ids)
    opened r' h = unfold next_id in h

    skipped :
        ltb id x.lo ≡ true
        → YieldsIds
            (translate r (length ids) id rest (x ∷ xs) (λ l. next_id_loop r (length ids) id rest l))
            (image (x ∷ xs) ids)
    skipped e = unfold translate in rw e (more r)

next_id_loop-YieldsIds :
    (ids : List ℕ) (r : PostMapReader) (last low from : ℕ) (tail : List ℕ) (idmap : List IdRange)
    → IsMap from idmap
    → Rises low ids
    → (last ≡ no_id) ⊎ (last < low)
    → last < 2 ^ 32
    → YieldsIds
        (next_id_loop r (length ids) last (write_ids last ids ++ tail) idmap)
        (image idmap ids)
unfolding next_id_loop image
next_id_loop-YieldsIds [] r last low from tail idmap m h k p = (_, refl, refl)
next_id_loop-YieldsIds (id ∷ ids) r last low from tail idmap m (a, b, h) k p =
    let ne : last ≢ id = elim k [ inl e ↦ omega (arith, e, b) | inr l ↦ omega (arith, l, a) ] in
    let (from', m') = skip_ranges-IsMap idmap id from m in
    rw (id_round r last id ids tail idmap p (omega (arith, b)) ne) (
      subst
        (λ l.
          YieldsIds
            (translate r (length ids) id (write_ids id ids ++ tail) (skip_ranges id idmap)
              (λ left. next_id_loop r (length ids) id (write_ids id ids ++ tail) left))
            l)
        (skip_ranges-image idmap (id ∷ ids) id id from m (omega arith, b, h) (omega arith))
        (translate-YieldsIds r id ids (write_ids id ids ++ tail) (skip_ranges id idmap) from' m'
          (skip_ranges-head idmap id)
          (λ r'.
            next_id_loop-YieldsIds ids r' id (suc id) from' tail (skip_ranges id idmap) m' h
              (inr (omega arith)) (omega (arith, b)))))

-- A reader in front of a list, with the ranges of its map.
abbrev pub map_reader : PostMapReader → List ℕ → List ℕ → List IdRange → PostMapReader
map_reader r ids tail idmap = record r {
  idmap = idmap;
  count = length ids;
  d = write_ids no_id ids ++ tail;
  oldid = no_id;
}

-- In front of a written list of rising ids, and with the ranges of the map in order, the calls of
-- `nextId` return the new numbers of the ids that a range has, one after the other, and then false.
pub next_id-YieldsIds :
    (r : PostMapReader) (ids tail : List ℕ) (idmap : List IdRange)
    → IsMap 0 idmap
    → Rises 0 ids
    → YieldsIds (next_id (map_reader r ids tail idmap)) (image idmap ids)
unfolding next_id
next_id-YieldsIds r ids tail idmap m h =
    next_id_loop-YieldsIds ids (map_reader r ids tail idmap) no_id 0 0 tail idmap m h (inl refl)
      (omega arith)
