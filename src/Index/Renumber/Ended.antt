-- ===== src/Index/Renumber/Ended.antt =====
-- What `endTrigram` leaves in the two files after a list of numbers.
use mathlib.Core.List.{append_assoc, append-nil}
use codesearch.Common.{ℕ, suc, ◌+◌, ◌-◌, ◌%◌, ◌^◌, ◌<◌, ◌≡◌, refl, arith, ◌∙◌, ap, sym}
use codesearch.Common.{true, false, Bool-cases, inl, inr, some, List, [], ◌∷◌, ◌++◌}
use codesearch.Common.{ltb, ◌==◌, length}
use codesearch.Index.Varint.{write_uvarint}
use codesearch.Index.Posting.{no_id, delta, write_ids}
use codesearch.Index.Read.Table.{write_trigram, write_entry}
use codesearch.Index.Renumber.{PostDataWriter, begin_trigram, add_fileid, end_trigram}
use codesearch.Index.Renumber.Writes.{add_all}

-- The list of a trigram as it is written; an empty one leaves no trace.
unfoldable pub list_bytes : ℕ → List ℕ → List ℕ
list_bytes t [] = []
list_bytes t (z ∷ zs) = write_trigram t ++ write_ids no_id (z ∷ zs)

-- Its entry in the index of the lists, with the place of the list.
unfoldable pub entry_bytes : ℕ → List ℕ → ℕ → List ℕ
entry_bytes t [] at = []
entry_bytes t (z ∷ zs) at =
    write_entry (record { trigram = t; count = suc (length zs); offset = at })

-- From one writer to another, a list was written and its entry.
pub record Adds (t : ℕ) (zs : List ℕ) (w w' : PostDataWriter) : Type 0 where
  pub lists : w'.out ≡ w.out ++ list_bytes t zs
  pub entries :
      w'.post_index ≡ w.post_index ++ entry_bytes t zs ((length w.out + 2 ^ 32 - w.base) % 2 ^ 32)
  pub same_base : w'.base ≡ w.base

end_trigram-out :
    (w : PostDataWriter) → 0 < w.count → (end_trigram w).out ≡ w.out ++ write_uvarint 0
unfolding end_trigram
end_trigram-out w h = let e : (w.count == 0) ≡ false = ground arith in rw e refl

end_trigram-post_index :
    (w : PostDataWriter)
    → 0 < w.count
    → (end_trigram w).post_index
      ≡ w.post_index
        ++ write_entry (record {
          trigram = w.t;
          count = w.count;
          offset = (w.offset + 2 ^ 32 - w.base) % 2 ^ 32;
        })
unfolding end_trigram write_entry
end_trigram-post_index w h = let e : (w.count == 0) ≡ false = ground arith in rw e refl

-- A number behind others of the list.
behind :
    (x : ℕ) (w : PostDataWriter)
    → 0 < w.count
    → w.count + 1 < 2 ^ 32
    → add_fileid x w
      ≡ record w { out = w.out ++ write_uvarint (delta w.last x); last = x; count = w.count + 1 }
unfolding add_fileid
behind x w p h =
    let e : (w.count == 0) ≡ false = ground arith in
    let c : (w.count + 1) % 2 ^ 32 ≡ w.count + 1 = omega arith in rw (e, c) refl

add_all-out :
    (zs : List ℕ) (w : PostDataWriter)
    → 0 < w.count
    → w.count + length zs < 2 ^ 32
    → (end_trigram (add_all zs w)).out ≡ w.out ++ write_ids w.last zs
unfolding write_ids
add_all-out [] w p h = end_trigram-out w p
add_all-out (z ∷ zs) w p h =
    ap (λ v. (end_trigram (add_all zs v)).out) (behind z w p (omega (arith, h)))
    ∙ add_all-out zs _ (omega arith) (omega (arith, h))
    ∙ append_assoc w.out (write_uvarint (delta w.last z)) (write_ids z zs)

counted :
    (bytes : List ℕ) (t offset m n : ℕ)
    → m ≡ n
    → bytes ++ write_entry (record { trigram = t; count = m; offset = offset })
      ≡ bytes ++ write_entry (record { trigram = t; count = n; offset = offset })
counted bytes t offset m n e =
    ap (λ k. bytes ++ write_entry (record { trigram = t; count = k; offset = offset })) e

add_all-post_index :
    (zs : List ℕ) (w : PostDataWriter)
    → 0 < w.count
    → w.count + length zs < 2 ^ 32
    → (end_trigram (add_all zs w)).post_index
      ≡ w.post_index
        ++ write_entry (record {
          trigram = w.t;
          count = w.count + length zs;
          offset = (w.offset + 2 ^ 32 - w.base) % 2 ^ 32;
        })
add_all-post_index [] w p h =
    end_trigram-post_index w p ∙ counted w.post_index w.t _ w.count (w.count + 0) (omega arith)
add_all-post_index (z ∷ zs) w p h =
    ap (λ v. (end_trigram (add_all zs v)).post_index) (behind z w p (omega (arith, h)))
    ∙ add_all-post_index zs _ (omega arith) (omega (arith, h))
    ∙ counted w.post_index w.t _ (w.count + 1 + length zs) (w.count + suc (length zs)) (omega arith)

end_trigram-base : (w : PostDataWriter) → (end_trigram w).base ≡ w.base
unfolding end_trigram
end_trigram-base w = elim (Bool-cases (w.count == 0)) [ inl e ↦ rw e refl | inr e ↦ rw e refl ]

add_all-base : (zs : List ℕ) (w : PostDataWriter) → (add_all zs w).base ≡ w.base
unfolding add_fileid
add_all-base [] w = refl
add_all-base (z ∷ zs) w = add_all-base zs (add_fileid z w)

abbrev pub begun : ℕ → PostDataWriter → PostDataWriter
begun t w = record w { offset = length w.out; count = 0; t = t; last = no_id }

pub begin_trigram-begun :
    (t : ℕ) (w : PostDataWriter) → length w.out < 2 ^ 32 → begin_trigram t w ≡ some (begun t w)
unfolding begin_trigram
begin_trigram-begun t w h = let e : ltb (length w.out) (2 ^ 32) ≡ true = ground arith in rw e refl

begun-out :
    (t : ℕ) (zs : List ℕ) (w : PostDataWriter)
    → length zs < 2 ^ 32
    → (end_trigram (add_all zs (begun t w))).out ≡ w.out ++ list_bytes t zs
unfolding end_trigram add_fileid write_ids list_bytes
begun-out t [] w h = sym (append-nil w.out)
begun-out t (z ∷ zs) w h =
    add_all-out zs (add_fileid z (begun t w)) (omega arith) (omega (arith, h))
    ∙ append_assoc _ (write_uvarint (delta no_id z)) (write_ids z zs)
    ∙ append_assoc w.out (write_trigram t) _

begun-post_index :
    (t : ℕ) (zs : List ℕ) (w : PostDataWriter)
    → length zs < 2 ^ 32
    → (end_trigram (add_all zs (begun t w))).post_index
      ≡ w.post_index ++ entry_bytes t zs ((length w.out + 2 ^ 32 - w.base) % 2 ^ 32)
unfolding end_trigram add_fileid entry_bytes
begun-post_index t [] w h = sym (append-nil w.post_index)
begun-post_index t (z ∷ zs) w h =
    add_all-post_index zs (add_fileid z (begun t w)) (omega arith) (omega (arith, h))
    ∙ counted w.post_index t _ (1 + length zs) (suc (length zs)) (omega arith)

pub begun-Adds :
    (t : ℕ) (zs : List ℕ) (w : PostDataWriter)
    → length zs < 2 ^ 32
    → Adds t zs w (end_trigram (add_all zs (begun t w)))
begun-Adds t zs w h = record {
  lists = begun-out t zs w h;
  entries = begun-post_index t zs w h;
  same_base = end_trigram-base (add_all zs (begun t w)) ∙ add_all-base zs (begun t w);
}
