-- ===== src/Shard/Write.antt =====
-- The trigram bytes of a shard, which `flushPostingLists` of index2/write.go fills from behind with
-- writes of four bytes, each over the last byte that the next write stores.
use codesearch.Common.{ℕ, zero, suc, ◌+◌, ◌*◌, ◌^◌, ◌<◌, ◌≡◌, subst, refl, arith, ap, sym}
use codesearch.Common.{Option, none, some, List, [], ◌∷◌, ◌++◌, length, drop, replicate, All}
use mathlib.Core.List.{append-nil}
use codesearch.Index.Read.{◌>>=◌}
use codesearch.Index.Read.Table.{write_uint32, write_trigram}
use codesearch.Shard.Find.{write_trigrams}

-- `binary.BigEndian.PutUint32(tgms[pos:], x)`, which panics on fewer than four bytes.
unfoldable pub put_uint32 : ℕ → ℕ → List ℕ → Option (List ℕ)
unfolding write_uint32
put_uint32 zero x (_ ∷ _ ∷ _ ∷ _ ∷ tgms) = some (write_uint32 x ++ tgms)
put_uint32 zero x _ = none
put_uint32 (suc pos) x [] = none
put_uint32 (suc pos) x (b ∷ tgms) = do rest ← put_uint32 pos x tgms; some (b ∷ rest)

-- The loop from the last trigram to the first, the one at `pos`, in steps of three.
unfoldable pub put_trigrams : ℕ → List ℕ → List ℕ → Option (List ℕ)
put_trigrams pos [] tgms = some tgms
put_trigrams pos (c ∷ cs) tgms = do later ← put_trigrams (pos + 3) cs tgms; put_uint32 pos c later

-- `tgms[1:]`, from the trigrams in their sorted order.
unfoldable pub trigram_bytes : List ℕ → Option (List ℕ)
unfolding put_trigrams
trigram_bytes cs = do tgms ← put_trigrams 0 cs (replicate (1 + 3 * length cs) 0); some (drop 1 tgms)

put_uint32_zeros :
    (pos x : ℕ) (w : List ℕ)
    → put_uint32 pos x (replicate (suc (suc (suc (suc pos)))) 0 ++ w)
      ≡ some (replicate pos 0 ++ (write_uint32 x ++ w))
unfolding put_uint32
put_uint32_zeros zero x w = refl
put_uint32_zeros (suc pos) x w = rw (put_uint32_zeros pos x w) refl

write_uint32-write_trigram :
    (c : ℕ) (w : List ℕ) → c < 2 ^ 24 → write_uint32 c ++ w ≡ 0 ∷ (write_trigram c ++ w)
unfolding write_uint32 write_trigram
write_uint32-write_trigram c w h = ap (λ b. b ∷ (write_trigram c ++ w)) (omega arith)

zeros_last : (pos : ℕ) (w : List ℕ) → replicate pos 0 ++ (0 ∷ w) ≡ replicate (suc pos) 0 ++ w
zeros_last zero w = refl
zeros_last (suc pos) w = ap (λ r. 0 ∷ r) (zeros_last pos w)

put_trigrams_zeros :
    (pos size : ℕ) (cs : List ℕ)
    → All (λ c. c < 2 ^ 24) cs
    → size ≡ pos + 1 + 3 * length cs
    → put_trigrams pos cs (replicate size 0) ≡ some (replicate (suc pos) 0 ++ write_trigrams cs)
unfolding put_trigrams write_trigrams
put_trigrams_zeros pos size [] h e =
    let same : size ≡ suc pos = omega arith in
    rw same (ap some (sym (append-nil (replicate (suc pos) 0))))
put_trigrams_zeros pos size (c ∷ cs) h e =
    let shift : suc (pos + 3) ≡ suc (suc (suc (suc pos))) = omega arith in
    let later =
      subst
        (λ k.
          put_trigrams (pos + 3) cs (replicate size 0) ≡ some (replicate k 0 ++ write_trigrams cs))
        shift (put_trigrams_zeros (pos + 3) size cs h.1 (omega arith)) in
    rw later (
      rw (put_uint32_zeros pos c (write_trigrams cs)) (
        rw (write_uint32-write_trigram c (write_trigrams cs) h.0)
          (ap some (zeros_last pos (write_trigram c ++ write_trigrams cs)))))

-- The bytes that are written are those of the trigrams, three for each, in their order: no write
-- panics, and what overlaps is lost nowhere. The trigrams are below 2 ^ 24.
pub trigram_bytes-write_trigrams :
    (cs : List ℕ) → All (λ c. c < 2 ^ 24) cs → trigram_bytes cs ≡ some (write_trigrams cs)
unfolding trigram_bytes
trigram_bytes-write_trigrams cs h =
    rw (put_trigrams_zeros 0 (1 + 3 * length cs) cs h (omega arith)) refl
