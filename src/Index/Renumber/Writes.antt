-- ===== src/Index/Renumber/Writes.antt =====
-- Two lists of one trigram are merged into one written list.
use codesearch.Common.{ℕ, zero, suc, ◌+◌, ◌<◌, ◌≡◌, refl, arith, ◌∙◌, ap, sym, subst}
use codesearch.Common.{true, false, ◌||◌, Bool-cases, inl, inr, some, List, [], ◌∷◌, In}
use codesearch.Common.{ltb, length}
use codesearch.Index.Posting.{no_id}
use codesearch.Index.Posting.Union.{merge_or}
use codesearch.Index.Renumber.{
  PostMapReader, mapped, next_id, step_reader, PostDataWriter, add_fileid,
}
use codesearch.Index.Renumber.Loops.{merge_ids, copy_ids}
use codesearch.Index.Renumber.Ids.{YieldsIds}
use codesearch.Index.Renumber.Step.{IsAt, KeepsNum, next_id-KeepsNum, stepped}

abbrev pub add_all : List ℕ → PostDataWriter → PostDataWriter
add_all [] w = w
add_all (x ∷ xs) w = add_all xs (add_fileid x w)

-- No number is in both lists.
abbrev pub IsApart : List ℕ → List ℕ → Type 0
IsApart xs ys = (z : ℕ) → In z xs → ¬ In z ys

first_taken :
    (rounds : ℕ) (r1 r2 r1' : PostMapReader) (w : PostDataWriter)
    → r1.fileid < no_id
    → r1.fileid < r2.fileid
    → step_reader (next_id r1) ≡ some r1'
    → merge_ids (suc rounds) r1 r2 w ≡ merge_ids rounds r1' r2 (add_fileid r1.fileid w)
unfolding merge_ids
first_taken rounds r1 r2 r1' w h l k =
    let less : ltb r1.fileid r2.fileid ≡ true = ground arith in
    let more : ltb r1.fileid no_id ≡ true = ground arith in rw (more, less, k, merge_ids) refl

second_taken :
    (rounds : ℕ) (r1 r2 r2' : PostMapReader) (w : PostDataWriter)
    → r2.fileid < no_id
    → r2.fileid < r1.fileid
    → step_reader (next_id r2) ≡ some r2'
    → merge_ids (suc rounds) r1 r2 w ≡ merge_ids rounds r1 r2' (add_fileid r2.fileid w)
unfolding merge_ids
second_taken rounds r1 r2 r2' w h l k =
    let less : ltb r1.fileid r2.fileid ≡ false = ground arith in
    let more : ltb r2.fileid r1.fileid ≡ true = ground arith in
    let left : (ltb r1.fileid no_id || ltb r2.fileid no_id) ≡ true = ground arith in
    rw (left, less, more, k, merge_ids) refl

take_first :
    (rounds : ℕ) (r1 r2 r1' : PostMapReader) (w : PostDataWriter) (x y : ℕ)
    → r1.fileid ≡ x
    → r2.fileid ≡ y
    → x < no_id
    → x < y
    → step_reader (next_id r1) ≡ some r1'
    → merge_ids (suc rounds) r1 r2 w ≡ merge_ids rounds r1' r2 (add_fileid x w)
take_first rounds r1 r2 r1' w x y e f h l k =
    first_taken rounds r1 r2 r1' w (omega (arith, e, h)) (omega (arith, e, f, l)) k
    ∙ ap (λ z. merge_ids rounds r1' r2 (add_fileid z w)) e

take_second :
    (rounds : ℕ) (r1 r2 r2' : PostMapReader) (w : PostDataWriter) (x y : ℕ)
    → r1.fileid ≡ x
    → r2.fileid ≡ y
    → y < no_id
    → y < x
    → step_reader (next_id r2) ≡ some r2'
    → merge_ids (suc rounds) r1 r2 w ≡ merge_ids rounds r1 r2' (add_fileid y w)
take_second rounds r1 r2 r2' w x y e f h l k =
    second_taken rounds r1 r2 r2' w (omega (arith, f, h)) (omega (arith, e, f, l)) k
    ∙ ap (λ z. merge_ids rounds r1 r2' (add_fileid z w)) f

both_ended :
    (rounds : ℕ) (r1 r2 : PostMapReader) (w : PostDataWriter)
    → r1.fileid ≡ no_id
    → r2.fileid ≡ no_id
    → merge_ids (suc rounds) r1 r2 w ≡ some (r1, r2, w)
unfolding merge_ids
both_ended rounds r1 r2 w e f =
    let more : (ltb r1.fileid no_id || ltb r2.fileid no_id) ≡ false = rw (e, f) refl in
    rw (more, merge_ids) refl

merge_or-first :
    (x y : ℕ) (xs ys : List ℕ)
    → ltb x y ≡ true
    → merge_or (x ∷ xs) (y ∷ ys) ≡ x ∷ merge_or xs (y ∷ ys)
unfolding merge_or
merge_or-first x y xs ys c = rw (c, merge_or) refl

merge_or-second :
    (x y : ℕ) (xs ys : List ℕ)
    → ltb x y ≡ false
    → ltb y x ≡ true
    → merge_or (x ∷ xs) (y ∷ ys) ≡ y ∷ merge_or (x ∷ xs) ys
unfolding merge_or
merge_or-second x y xs ys c d = rw (c, d, merge_or) refl

-- The loop on two lists returns, and has written the merged list.
abbrev pub Merges : ℕ → PostMapReader → PostMapReader → PostDataWriter → List ℕ → Type 0
Merges rounds r1 r2 w zs =
    (r1' : PostMapReader) × (r2' : PostMapReader) × (r1'.tri_num ≡ r1.tri_num)
    × (r2'.tri_num ≡ r2.tri_num)
    × (merge_ids rounds r1 r2 w ≡ some (r1', r2', add_all zs w))

-- A round on a number of the first list, or of the second.
Merges-first :
    (rounds : ℕ) (r1 r2 r1' : PostMapReader) (w : PostDataWriter) (x : ℕ) (zs us : List ℕ)
    → merge_ids (suc rounds) r1 r2 w ≡ merge_ids rounds r1' r2 (add_fileid x w)
    → r1'.tri_num ≡ r1.tri_num
    → us ≡ x ∷ zs
    → Merges rounds r1' r2 (add_fileid x w) zs
    → Merges (suc rounds) r1 r2 w us
Merges-first rounds r1 r2 r1' w x zs us e n k (r, s, p, q, f) =
    (r, s, p ∙ n, q, e ∙ f ∙ ap (λ l. some (r, s, add_all l w)) (sym k))

Merges-second :
    (rounds : ℕ) (r1 r2 r2' : PostMapReader) (w : PostDataWriter) (y : ℕ) (zs us : List ℕ)
    → merge_ids (suc rounds) r1 r2 w ≡ merge_ids rounds r1 r2' (add_fileid y w)
    → r2'.tri_num ≡ r2.tri_num
    → us ≡ y ∷ zs
    → Merges rounds r1 r2' (add_fileid y w) zs
    → Merges (suc rounds) r1 r2 w us
Merges-second rounds r1 r2 r2' w y zs us e n k (r, s, p, q, f) =
    (r, s, p, q ∙ n, e ∙ f ∙ ap (λ l. some (r, s, add_all l w)) (sym k))

pub merge_ids-Merges :
    (rounds : ℕ) (r1 r2 : PostMapReader) (w : PostDataWriter) (xs ys : List ℕ)
    → length xs + length ys < rounds
    → IsAt r1 xs
    → IsAt r2 ys
    → IsApart xs ys
    → Merges rounds r1 r2 w (merge_or xs ys)
unfolding merge_or
merge_ids-Merges zero r1 r2 w xs ys h a b apart = absurd (omega (arith, h))
merge_ids-Merges (suc n) r1 r2 w [] [] h a b apart = (r1, r2, refl, refl, both_ended n r1 r2 w a b)
merge_ids-Merges (suc n) r1 r2 w [] (y ∷ ys) h a (f, l, more) apart =
    let (r2', k, b', num) = stepped r2 ys more in
    Merges-second n r1 r2 r2' w y (merge_or [] ys) _ (take_second n r1 r2 r2' w no_id y a f l l k)
      num refl
      (merge_ids-Merges n r1 r2' (add_fileid y w) [] ys (omega (arith, h)) a b' (λ z i j. i))
merge_ids-Merges (suc n) r1 r2 w (x ∷ xs) [] h (e, l, more) b apart =
    let (r1', k, a', num) = stepped r1 xs more in
    Merges-first n r1 r2 r1' w x (merge_or xs []) _ (take_first n r1 r2 r1' w x no_id e b l l k) num
      refl (merge_ids-Merges n r1' r2 (add_fileid x w) xs [] (omega (arith, h)) a' b (λ z i j. j))
merge_ids-Merges (suc n) r1 r2 w (x ∷ xs) (y ∷ ys) h (e, l, more) (f, m, rest) apart =
    let (r1', k, a', num1) = stepped r1 xs more in
    let (r2', g, b', num2) = stepped r2 ys rest in
    elim (Bool-cases (ltb x y)) [
      | inl c ↦
          Merges-first n r1 r2 r1' w x (merge_or xs (y ∷ ys)) _
            (take_first n r1 r2 r1' w x y e f l (ground arith) k) num1 (merge_or-first x y xs ys c)
            (merge_ids-Merges n r1' r2 (add_fileid x w) xs (y ∷ ys) (omega (arith, h)) a'
              (f, m, rest) (λ z i j. apart z (inr i) j))
      | inr c ↦ elim (Bool-cases (ltb y x)) [
        | inl d ↦
            Merges-second n r1 r2 r2' w y (merge_or (x ∷ xs) ys) _
              (take_second n r1 r2 r2' w x y e f m (ground arith) g) num2
              (merge_or-second x y xs ys c d)
              (merge_ids-Merges n r1 r2' (add_fileid y w) (x ∷ xs) ys (omega (arith, h))
                (e, l, more) b' (λ z i j. apart z i (inr j)))
        | inr d ↦ let same : x ≡ y = ground arith in absurd (apart x (inl refl) (inl same))
      ]
    ]

-- The loop of one list.
pub copy_ids-add_all :
    (rounds : ℕ) (r : PostMapReader) (w : PostDataWriter) (xs : List ℕ)
    → length xs < rounds
    → YieldsIds (next_id r) xs
    → (r' : PostMapReader) × (r'.tri_num ≡ r.tri_num)
      × (copy_ids rounds r w ≡ some (r', add_all xs w))
unfolding copy_ids
copy_ids-add_all zero r w xs h y = absurd (omega (arith, h))
copy_ids-add_all (suc n) r w [] h (r', e, f) =
    (r', subst (KeepsNum r.tri_num) e (next_id-KeepsNum r), rw (e, copy_ids) refl)
copy_ids-add_all (suc n) r w (x ∷ xs) h (r', e, f, l, more) =
    let (r2, k, run) = copy_ids-add_all n r' (add_fileid x w) xs (omega (arith, h)) more in
    (
      r2,
      k ∙ subst (KeepsNum r.tri_num) e (next_id-KeepsNum r),
      found_one n r r' w e ∙ ap (λ z. copy_ids n r' (add_fileid z w)) f ∙ run,
    )
  where
    found_one :
        (n : ℕ) (r r' : PostMapReader) (w : PostDataWriter)
        → next_id r ≡ mapped r'
        → copy_ids (suc n) r w ≡ copy_ids n r' (add_fileid r'.fileid w)
    found_one n r r' w e = rw (e, copy_ids) refl
