-- ===== src/Index/Renumber/Tables.antt =====
-- The merged posting lists as a whole, and the bytes that stand for them.
use mathlib.Core.List.{append_assoc, append-nil}
use codesearch.Common.{ℕ, ◌+◌, ◌-◌, ◌%◌, ◌^◌, ◌<◌, ◌≡◌, refl, arith, ◌∙◌, ap, sym, subst}
use codesearch.Common.{true, false, Option, some, List, [], ◌∷◌, ◌++◌}
use codesearch.Common.{ltb, length, length-append}
use codesearch.Index.Posting.Union.{merge_or}
use codesearch.Index.Renumber.{IdRange, PostDataWriter}
use codesearch.Index.Renumber.Ranges.{image}
use codesearch.Index.Renumber.Ended.{list_bytes, entry_bytes, Adds}

-- The trigrams of an index with their ids.
abbrev pub Lists : Type 0
Lists = List (ℕ × List ℕ)

-- The trigrams of both in order, each with the union of its ids.
unfoldable pub merge_tables : Lists → Lists → Lists
merge_tables [] [] = []
merge_tables [] (b ∷ us) = b ∷ merge_tables [] us
merge_tables (a ∷ ts) [] = a ∷ merge_tables ts []
merge_tables ((t, xs) ∷ ts) ((u, ys) ∷ us) = elim (ltb t u) [
  | true ↦ (t, xs) ∷ merge_tables ts ((u, ys) ∷ us)
  | false ↦ elim (ltb u t) [
    | true ↦ (u, ys) ∷ merge_tables ((t, xs) ∷ ts) us
    | false ↦ (t, merge_or xs ys) ∷ merge_tables ts us
  ]
]

-- The new numbers of all lists.
abbrev pub map_lists : List IdRange → Lists → Lists
map_lists idmap [] = []
map_lists idmap ((t, ids) ∷ ts) = (t, image idmap ids) ∷ map_lists idmap ts

unfoldable pub table_bytes : Lists → List ℕ
unfolding list_bytes
table_bytes [] = []
table_bytes ((t, zs) ∷ ts) = list_bytes t zs ++ table_bytes ts

-- The entries, where the first list stands at the given place.
unfoldable pub table_entries : ℕ → Lists → List ℕ
unfolding entry_bytes list_bytes
table_entries at [] = []
table_entries at ((t, zs) ∷ ts) =
    entry_bytes t zs at ++ table_entries (at + length (list_bytes t zs)) ts

-- The counts and the places of the lists, in a file that has the given size, are 32-bit numbers.
abbrev pub Fits : ℕ → Lists → Type 0
Fits size [] = Unit
Fits size ((t, zs) ∷ ts) =
    (size < 2 ^ 32) × (length zs < 2 ^ 32) × Fits (size + length (list_bytes t zs)) ts

-- A writer that has the tables behind what it had, its lists counted from `at` on.
abbrev pub Writes : Option PostDataWriter → ℕ → PostDataWriter → Lists → Type 0
Writes o at w ts =
    (w' : PostDataWriter) × (o ≡ some w')
    × (w'.out ≡ w.out ++ table_bytes ts)
    × (w'.post_index ≡ w.post_index ++ table_entries at ts)

pub Writes-nil : (at : ℕ) (w : PostDataWriter) → Writes (some w) at w []
unfolding table_bytes table_entries
Writes-nil at w = (w, refl, sym (append-nil w.out), sym (append-nil w.post_index))

pub Writes-cons :
    (o : Option PostDataWriter) (at t : ℕ) (zs : List ℕ) (ts : Lists) (w v : PostDataWriter)
    → w.base + at ≡ length w.out
    → length w.out < 2 ^ 32
    → Adds t zs w v
    → Writes o (at + length (list_bytes t zs)) v ts
    → Writes o at w ((t, zs) ∷ ts)
unfolding table_bytes table_entries
Writes-cons o at t zs ts w v b h a (w', e, f, g) =
    let place : (length w.out + 2 ^ 32 - w.base) % 2 ^ 32 ≡ at = omega (arith, b, h) in
    (
      w',
      e,
      f
          ∙ ap (λ l. l ++ table_bytes ts) a.lists
          ∙ append_assoc w.out (list_bytes t zs) (table_bytes ts),
      g
          ∙ ap (λ l. l ++ table_entries (at + length (list_bytes t zs)) ts)
              (a.entries ∙ ap (λ n. w.post_index ++ entry_bytes t zs n) place)
          ∙ append_assoc w.post_index (entry_bytes t zs at) _,
    )

-- Where the next list is put.
pub Adds-place :
    (at t : ℕ) (zs : List ℕ) (w v : PostDataWriter)
    → w.base + at ≡ length w.out
    → Adds t zs w v
    → v.base + (at + length (list_bytes t zs)) ≡ length v.out
Adds-place at t zs w v b a =
    let size : length v.out ≡ length w.out + length (list_bytes t zs) =
      ap length a.lists ∙ length-append w.out (list_bytes t zs) in
    omega (arith, size, b, a.same_base)

pub Adds-size :
    (t : ℕ) (zs : List ℕ) (w v : PostDataWriter)
    → Adds t zs w v
    → length w.out + length (list_bytes t zs) ≡ length v.out
Adds-size t zs w v a = sym (ap length a.lists ∙ length-append w.out (list_bytes t zs))

-- One list, and then the others.
pub advance :
    (o o' : Option PostDataWriter) (at t t' : ℕ) (zs : List ℕ) (ts : Lists) (w v : PostDataWriter)
    → o ≡ o'
    → t' ≡ t
    → Adds t' zs w v
    → w.base + at ≡ length w.out
    → Fits (length w.out) ((t, zs) ∷ ts)
    → (v.base + (at + length (list_bytes t zs)) ≡ length v.out
        → Fits (length v.out) ts
        → Writes o' (at + length (list_bytes t zs)) v ts)
    → Writes o at w ((t, zs) ∷ ts)
advance o o' at t t' zs ts w v e k adds b (room, small, fits) more =
    let a : Adds t zs w v = subst (λ n. Adds n zs w v) k adds in
    let done =
      more (Adds-place at t zs w v b a) (subst (λ n. Fits n ts) (Adds-size t zs w v a) fits) in
    Writes-cons o at t zs ts w v b room a
      (subst (λ p. Writes p (at + length (list_bytes t zs)) v ts) (sym e) done)

pub merge_tables-first :
    (t u : ℕ) (xs ys : List ℕ) (ts us : Lists)
    → ltb t u ≡ true
    → merge_tables ((t, xs) ∷ ts) ((u, ys) ∷ us) ≡ (t, xs) ∷ merge_tables ts ((u, ys) ∷ us)
unfolding merge_tables
merge_tables-first t u xs ys ts us c = rw (c, merge_tables) refl

pub merge_tables-second :
    (t u : ℕ) (xs ys : List ℕ) (ts us : Lists)
    → ltb t u ≡ false
    → ltb u t ≡ true
    → merge_tables ((t, xs) ∷ ts) ((u, ys) ∷ us) ≡ (u, ys) ∷ merge_tables ((t, xs) ∷ ts) us
unfolding merge_tables
merge_tables-second t u xs ys ts us c d = rw (c, d, merge_tables) refl

pub merge_tables-both :
    (t u : ℕ) (xs ys : List ℕ) (ts us : Lists)
    → ltb t u ≡ false
    → ltb u t ≡ false
    → merge_tables ((t, xs) ∷ ts) ((u, ys) ∷ us) ≡ (t, merge_or xs ys) ∷ merge_tables ts us
unfolding merge_tables
merge_tables-both t u xs ys ts us c d = rw (c, d, merge_tables) refl
