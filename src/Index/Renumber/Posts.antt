-- ===== src/Index/Renumber/Posts.antt =====
-- The loop over the trigrams of two indexes.
use codesearch.Common.{ℕ, suc, ◌+◌, ◌^◌, ◌<◌, ◌≡◌, refl, arith, ◌∙◌, ap}
use codesearch.Common.{true, false, Option, some, List, [], ◌∷◌}
use codesearch.Common.{ltb, ◌==◌, length}
use codesearch.Index.Posting.{no_id}
use codesearch.Index.Posting.Union.{merge_or}
use codesearch.Index.Read.{Index, ◌>>=◌}
use codesearch.Index.Renumber.{
  IdRange, PostMapReader, next_id, step_reader, PostDataWriter, end_trigram, next_trigram,
}
use codesearch.Index.Renumber.Loops.{copy_ids, merge_ids, copy_list, merge_lists, merge_posts}
use codesearch.Index.Renumber.Ids.{YieldsIds}
use codesearch.Index.Renumber.Step.{stepped}
use codesearch.Index.Renumber.Writes.{add_all, IsApart, merge_ids-Merges, copy_ids-add_all}
use codesearch.Index.Renumber.Ended.{Adds, begun, begin_trigram-begun, begun-Adds}
use codesearch.Index.Renumber.Tables.{Lists}

-- A reader in front of the first of the lists; `nextTrigram` leads to the next one.
abbrev pub Reads : Index → List IdRange → PostMapReader → Lists → Type 0
Reads ix idmap r [] = r.trigram ≡ no_id
Reads ix idmap r ((t, zs) ∷ ts) =
    (r.trigram ≡ t)
    × (t < no_id)
    × YieldsIds (next_id r) zs
    × ((r' : PostMapReader)
        → r'.tri_num ≡ r.tri_num
        → (n : PostMapReader) × (next_trigram ix idmap r' ≡ some n) × Reads ix idmap n ts)

-- A list of one index goes to the writer.
pub record Copies (limit : ℕ) (r : PostMapReader) (w : PostDataWriter) (zs : List ℕ) : Type 0 where
  pub reader : PostMapReader
  pub writer : PostDataWriter
  pub num : reader.tri_num ≡ r.tri_num
  pub runs : copy_list limit r w ≡ some (reader, writer)
  pub adds : Adds r.trigram zs w (end_trigram writer)

pub copy_list-Copies :
    (limit : ℕ) (r : PostMapReader) (w : PostDataWriter) (zs : List ℕ)
    → length zs < limit
    → length zs < 2 ^ 32
    → length w.out < 2 ^ 32
    → YieldsIds (next_id r) zs
    → Copies limit r w zs
unfolding copy_list
copy_list-Copies limit r w zs h small room y =
    let (r', num, run) = copy_ids-add_all limit r (begun r.trigram w) zs h y in
    record {
      reader = r';
      writer = add_all zs (begun r.trigram w);
      num = num;
      runs = ap (λ o. o >>= (λ v. copy_ids limit r v)) (begin_trigram-begun r.trigram w room) ∙ run;
      adds = begun-Adds r.trigram zs w small;
    }

-- The lists of a trigram that both indexes have.
pub record Joins (limit : ℕ) (r1 r2 : PostMapReader) (w : PostDataWriter) (zs : List ℕ)
    : Type 0 where
  pub first : PostMapReader
  pub second : PostMapReader
  pub writer : PostDataWriter
  pub num1 : first.tri_num ≡ r1.tri_num
  pub num2 : second.tri_num ≡ r2.tri_num
  pub runs : merge_lists limit r1 r2 w ≡ some (first, second, writer)
  pub adds : Adds r1.trigram zs w (end_trigram writer)

pub merge_lists-Joins :
    (limit : ℕ) (r1 r2 : PostMapReader) (w : PostDataWriter) (xs ys : List ℕ)
    → length xs + length ys < limit
    → length (merge_or xs ys) < 2 ^ 32
    → length w.out < 2 ^ 32
    → YieldsIds (next_id r1) xs
    → YieldsIds (next_id r2) ys
    → IsApart xs ys
    → Joins limit r1 r2 w (merge_or xs ys)
unfolding merge_lists
merge_lists-Joins limit r1 r2 w xs ys h small room y z apart =
    let (r1', e, a, n1) = stepped r1 xs y in
    let (r2', f, b, n2) = stepped r2 ys z in
    let (s1, s2, m1, m2, run) =
      merge_ids-Merges limit r1' r2' (begun r1.trigram w) xs ys h a b apart in
    record {
      first = s1;
      second = s2;
      writer = add_all (merge_or xs ys) (begun r1.trigram w);
      num1 = m1 ∙ n1;
      num2 = m2 ∙ n2;
      runs =
          ap
            (λ o. o >>= (λ v.
              step_reader (next_id r1)
              >>= (λ s. step_reader (next_id r2) >>= (λ t. merge_ids limit s t v))))
            (begin_trigram-begun r1.trigram w room)
          ∙ ap
              (λ o. o >>= (λ s.
                step_reader (next_id r2) >>= (λ t. merge_ids limit s t (begun r1.trigram w))))
              e
          ∙ ap (λ o. o >>= (λ t. merge_ids limit r1' t (begun r1.trigram w))) f
          ∙ run;
      adds = begun-Adds r1.trigram (merge_or xs ys) w small;
    }

module _ (limit : ℕ) (ix1 ix2 : Index) (map1 map2 : List IdRange) where
  abbrev pub rest : ℕ → PostMapReader → PostMapReader → PostDataWriter → Option PostDataWriter
  rest n r1 r2 w = merge_posts n limit (ix1, map1) (ix2, map2) r1 r2 w

  -- A round on a list of the first index, of the second, and of both.
  pub first_round :
      (n : ℕ) (r1 r2 r r1' : PostMapReader) (w v : PostDataWriter)
      → r1.trigram < r2.trigram
      → copy_list limit r1 w ≡ some (r, v)
      → next_trigram ix1 map1 r ≡ some r1'
      → rest (suc n) r1 r2 w ≡ rest n r1' r2 (end_trigram v)
  unfolding merge_posts
  first_round n r1 r2 r r1' w v l run next =
      let less : ltb r1.trigram r2.trigram ≡ true = ground arith in
      rw (less, run, next, merge_posts) refl

  pub second_round :
      (n : ℕ) (r1 r2 r r2' : PostMapReader) (w v : PostDataWriter)
      → r2.trigram < r1.trigram
      → copy_list limit r2 w ≡ some (r, v)
      → next_trigram ix2 map2 r ≡ some r2'
      → rest (suc n) r1 r2 w ≡ rest n r1 r2' (end_trigram v)
  unfolding merge_posts
  second_round n r1 r2 r r2' w v l run next =
      let less : ltb r1.trigram r2.trigram ≡ false = ground arith in
      let more : ltb r2.trigram r1.trigram ≡ true = ground arith in
      rw (less, more, run, next, merge_posts) refl

  pub both_round :
      (n : ℕ) (r1 r2 r s r1' r2' : PostMapReader) (w v : PostDataWriter)
      → r1.trigram ≡ r2.trigram
      → r1.trigram < no_id
      → merge_lists limit r1 r2 w ≡ some (r, s, v)
      → next_trigram ix1 map1 r ≡ some r1'
      → next_trigram ix2 map2 s ≡ some r2'
      → rest (suc n) r1 r2 w ≡ rest n r1' r2' (end_trigram v)
  unfolding merge_posts
  both_round n r1 r2 r s r1' r2' w v e l run next1 next2 =
      let less : ltb r1.trigram r2.trigram ≡ false = ground arith in
      let more : ltb r2.trigram r1.trigram ≡ false = ground arith in
      let going : (r1.trigram == no_id) ≡ false = ground arith in
      rw (less, more, going, run, next1, next2, merge_posts) refl

  pub last_round :
      (n : ℕ) (r1 r2 : PostMapReader) (w : PostDataWriter)
      → r1.trigram ≡ no_id
      → r2.trigram ≡ no_id
      → rest (suc n) r1 r2 w ≡ some w
  unfolding merge_posts
  last_round n r1 r2 w e f =
      let less : ltb r1.trigram r2.trigram ≡ false = ground arith in
      let more : ltb r2.trigram r1.trigram ≡ false = ground arith in
      let done : (r1.trigram == no_id) ≡ true = ground arith in
      rw (less, more, done, merge_posts) refl
