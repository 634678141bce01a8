-- ===== src/Index/Renumber/Whole.antt =====
-- The loop over the trigrams writes the merged lists.
use codesearch.Common.{ℕ, zero, suc, ◌+◌, ◌*◌, ◌<◌, ◌≡◌, refl, arith, ◌∙◌, sym, subst}
use codesearch.Common.{Bool-cases, inl, inr, List, [], ◌∷◌, In, All}
use codesearch.Common.{ltb, length}
use codesearch.Index.Posting.Union.{merge_or}
use codesearch.Index.Read.{Index}
use codesearch.Index.Renumber.{IdRange, PostMapReader, PostDataWriter, end_trigram}
use codesearch.Index.Renumber.Writes.{IsApart}
use codesearch.Index.Renumber.Ended.{list_bytes}
use codesearch.Index.Renumber.Tables.{
  Lists, merge_tables, Fits, Writes, Writes-nil, advance, merge_tables-first, merge_tables-second,
  merge_tables-both,
}
use codesearch.Index.Renumber.Posts.{
  Reads, copy_list-Copies, merge_lists-Joins, rest, first_round, second_round, both_round,
  last_round,
}

-- `limit` rounds are enough for two of the lists.
abbrev pub IsShort : ℕ → Lists → Type 0
IsShort limit ts = All (λ e. 2 * length e.1 < limit) ts

-- No number is in a list of both.
abbrev pub AreApart : Lists → Lists → Type 0
AreApart ts us = (a b : ℕ × List ℕ) → In a ts → In b us → IsApart a.1 b.1

module _ (limit : ℕ) (ix1 ix2 : Index) (map1 map2 : List IdRange) where
  -- The rest of the loop, behind a list.
  abbrev After : ℕ → Lists → Lists → Lists → Type 0
  After n ts us ms =
      (r1 r2 : PostMapReader) (w : PostDataWriter) (at : ℕ)
      → w.base + at ≡ length w.out
      → Fits (length w.out) ms
      → Reads ix1 map1 r1 ts
      → Reads ix2 map2 r2 us
      → Writes (rest limit ix1 ix2 map1 map2 n r1 r2 w) at w ms

  take_first :
      (n t : ℕ) (xs : List ℕ) (ts us ms : Lists) (r1 r2 : PostMapReader) (w : PostDataWriter)
      (at : ℕ)
      → r1.trigram < r2.trigram
      → 2 * length xs < limit
      → w.base + at ≡ length w.out
      → Fits (length w.out) ((t, xs) ∷ ms)
      → Reads ix1 map1 r1 ((t, xs) ∷ ts)
      → Reads ix2 map2 r2 us
      → After n ts us ms
      → Writes (rest limit ix1 ix2 map1 map2 (suc n) r1 r2 w) at w ((t, xs) ∷ ms)
  take_first n t xs ts us ms r1 r2 w at less short b (room, small, fits) (e, l, y, next) q more =
      let c = copy_list-Copies limit r1 w xs (omega (arith, short)) small room y in
      let (r1', f, p) = next c.reader c.num in
      advance _ (rest limit ix1 ix2 map1 map2 n r1' r2 (end_trigram c.writer)) at t r1.trigram xs ms
        w (end_trigram c.writer)
        (first_round limit ix1 ix2 map1 map2 n r1 r2 c.reader r1' w c.writer less c.runs f) e c.adds
        b (room, small, fits)
        (λ b' fits'.
          more r1' r2 (end_trigram c.writer) (at + length (list_bytes t xs)) b' fits' p q)

  take_second :
      (n u : ℕ) (ys : List ℕ) (ts us ms : Lists) (r1 r2 : PostMapReader) (w : PostDataWriter)
      (at : ℕ)
      → r2.trigram < r1.trigram
      → 2 * length ys < limit
      → w.base + at ≡ length w.out
      → Fits (length w.out) ((u, ys) ∷ ms)
      → Reads ix1 map1 r1 ts
      → Reads ix2 map2 r2 ((u, ys) ∷ us)
      → After n ts us ms
      → Writes (rest limit ix1 ix2 map1 map2 (suc n) r1 r2 w) at w ((u, ys) ∷ ms)
  take_second n u ys ts us ms r1 r2 w at less short b (room, small, fits) p (e, l, y, next) more =
      let c = copy_list-Copies limit r2 w ys (omega (arith, short)) small room y in
      let (r2', f, q) = next c.reader c.num in
      advance _ (rest limit ix1 ix2 map1 map2 n r1 r2' (end_trigram c.writer)) at u r2.trigram ys ms
        w (end_trigram c.writer)
        (second_round limit ix1 ix2 map1 map2 n r1 r2 c.reader r2' w c.writer less c.runs f) e
        c.adds b (room, small, fits)
        (λ b' fits'.
          more r1 r2' (end_trigram c.writer) (at + length (list_bytes u ys)) b' fits' p q)

  take_both :
      (n t u : ℕ) (xs ys : List ℕ) (ts us ms : Lists) (r1 r2 : PostMapReader) (w : PostDataWriter)
      (at : ℕ)
      → t ≡ u
      → length xs + length ys < limit
      → IsApart xs ys
      → w.base + at ≡ length w.out
      → Fits (length w.out) ((t, merge_or xs ys) ∷ ms)
      → Reads ix1 map1 r1 ((t, xs) ∷ ts)
      → Reads ix2 map2 r2 ((u, ys) ∷ us)
      → After n ts us ms
      → Writes (rest limit ix1 ix2 map1 map2 (suc n) r1 r2 w) at w ((t, merge_or xs ys) ∷ ms)
  take_both n t u xs ys ts us ms r1 r2 w at same short apart b (room, small, fits) (e, l, y, next1)
        (f, m, z, next2) more =
      let c = merge_lists-Joins limit r1 r2 w xs ys short small room y z apart in
      let (r1', g, p) = next1 c.first c.num1 in
      let (r2', k, q) = next2 c.second c.num2 in
      advance _ (rest limit ix1 ix2 map1 map2 n r1' r2' (end_trigram c.writer)) at t r1.trigram
        (merge_or xs ys) ms w (end_trigram c.writer)
        (both_round limit ix1 ix2 map1 map2 n r1 r2 c.first c.second r1' r2' w c.writer
          (e ∙ same ∙ sym f) (omega (arith, e, l)) c.runs g k)
        e c.adds b (room, small, fits)
        (λ b' fits'.
          more r1' r2' (end_trigram c.writer) (at + length (list_bytes t (merge_or xs ys))) b' fits'
            p q)

  pub merge_posts-Writes :
      (n : ℕ) (ts us : Lists)
      → length ts + length us < n
      → IsShort limit ts
      → IsShort limit us
      → AreApart ts us
      → After n ts us (merge_tables ts us)
  unfolding merge_tables
  merge_posts-Writes zero ts us h s1 s2 apart r1 r2 w at b fits p q = absurd (omega (arith, h))
  merge_posts-Writes (suc n) [] [] h s1 s2 apart r1 r2 w at b fits p q =
      subst (λ o. Writes o at w []) (sym (last_round limit ix1 ix2 map1 map2 n r1 r2 w p q))
        (Writes-nil at w)
  merge_posts-Writes (suc n) [] ((u, ys) ∷ us) h s1 (s, s2) apart r1 r2 w at b fits p q =
      take_second n u ys [] us (merge_tables [] us) r1 r2 w at (omega (arith, p, q.0, q.1)) s b fits
        p q (merge_posts-Writes n [] us (omega (arith, h)) s1 s2 (λ i j x y. apart i j x (inr y)))
  merge_posts-Writes (suc n) ((t, xs) ∷ ts) [] h (s, s1) s2 apart r1 r2 w at b fits p q =
      take_first n t xs ts [] (merge_tables ts []) r1 r2 w at (omega (arith, q, p.0, p.1)) s b fits
        p q (merge_posts-Writes n ts [] (omega (arith, h)) s1 s2 (λ i j x y. apart i j (inr x) y))
  merge_posts-Writes (suc n) ((t, xs) ∷ ts) ((u, ys) ∷ us) h (s, s1) (z, s2) apart r1 r2 w at b fits
        p q =
      elim (Bool-cases (ltb t u)) [
        | inl c ↦
            let eq = merge_tables-first t u xs ys ts us c in
            subst (λ ms. Writes (rest limit ix1 ix2 map1 map2 (suc n) r1 r2 w) at w ms) (sym eq)
              (take_first n t xs ts ((u, ys) ∷ us) (merge_tables ts ((u, ys) ∷ us)) r1 r2 w at
                (let l : t < u = ground arith in omega (arith, l, p.0, q.0)) s b
                (subst (Fits (length w.out)) eq fits) p q
                (merge_posts-Writes n ts ((u, ys) ∷ us) (omega (arith, h)) s1 (z, s2)
                  (λ i j x y. apart i j (inr x) y)))
        | inr c ↦ elim (Bool-cases (ltb u t)) [
          | inl d ↦
              let eq = merge_tables-second t u xs ys ts us c d in
              subst (λ ms. Writes (rest limit ix1 ix2 map1 map2 (suc n) r1 r2 w) at w ms) (sym eq)
                (take_second n u ys ((t, xs) ∷ ts) us (merge_tables ((t, xs) ∷ ts) us) r1 r2 w at
                  (let l : u < t = ground arith in omega (arith, l, p.0, q.0)) z b
                  (subst (Fits (length w.out)) eq fits) p q
                  (merge_posts-Writes n ((t, xs) ∷ ts) us (omega (arith, h)) (s, s1) s2
                    (λ i j x y. apart i j x (inr y))))
          | inr d ↦
              let eq = merge_tables-both t u xs ys ts us c d in
              let same : t ≡ u = ground arith in
              subst (λ ms. Writes (rest limit ix1 ix2 map1 map2 (suc n) r1 r2 w) at w ms) (sym eq)
                (take_both n t u xs ys ts us (merge_tables ts us) r1 r2 w at same
                  (omega (arith, s, z)) (apart (t, xs) (u, ys) (inl refl) (inl refl)) b
                  (subst (Fits (length w.out)) eq fits) p q
                  (merge_posts-Writes n ts us (omega (arith, h)) s1 s2
                    (λ i j x y. apart i j (inr x) (inr y))))
        ]
      ]
