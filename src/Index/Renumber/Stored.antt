-- ===== src/Index/Renumber/Stored.antt =====
-- `load` on an index that stores its lists one after the other.
use codesearch.Common.{ℕ, suc, ◌+◌, ◌*◌, ◌%◌, ◌^◌, ◌≤◌, ◌<◌, ◌≡◌, refl, arith, ◌∙◌, ap, sym, subst}
use codesearch.Common.{true, false, Option-cases, inl, inr, none, some, List, [], ◌∷◌, ◌++◌, In}
use codesearch.Common.{leb, ◌==◌, length}
use codesearch.Index.Posting.{no_id, write_ids}
use codesearch.Index.Read.{Index, list_at, slice, post_entry_size}
use codesearch.Index.Renumber.{IdRange, PostMapReader, load, next_trigram}
use codesearch.Index.Renumber.Ids.{map_reader, next_id-YieldsIds}
use codesearch.Index.Renumber.Ranges.{IsMap, Rises, image, image-none, image-some, new_id}
use codesearch.Index.Renumber.Tables.{Lists, map_lists}
use codesearch.Index.Renumber.Posts.{Reads}
use codesearch.Index.Renumber.Whole.{IsShort, AreApart}

-- The entry `i` is that of a trigram, and its ids stand where it points.
pub record IsList (ix : Index) (i t : ℕ) (ids : List ℕ) : Type 0 where
  pub offset : ℕ
  pub tail : List ℕ
  pub in_range : i < ix.num_post
  pub trigram : t < no_id
  pub count : 0 < length ids
  pub rises : Rises 0 ids
  pub entry : list_at ix (i * post_entry_size % 2 ^ 32) ≡ some (t, length ids, offset)
  pub bytes :
      slice ix ((ix.post_data + offset + 3) % 2 ^ 32) none ≡ some (write_ids no_id ids ++ tail)

-- The entries from `i` on are those of the lists.
abbrev pub IsStored : Index → ℕ → Lists → Type 0
IsStored ix i [] = ix.num_post ≤ i
IsStored ix i ((t, ids) ∷ ts) = IsList ix i t ids × IsStored ix (suc i) ts

load_end :
    (ix : Index) (idmap : List IdRange) (r : PostMapReader)
    → ix.num_post ≤ r.tri_num
    → load ix idmap r ≡ some (record r { trigram = no_id; count = 0; fileid = no_id })
unfolding load
load_end ix idmap r h = let e : leb ix.num_post r.tri_num ≡ true = ground arith in rw e refl

load_list :
    (ix : Index) (idmap : List IdRange) (r : PostMapReader) (t : ℕ) (ids : List ℕ)
    → (l : IsList ix r.tri_num t ids)
    → load ix idmap r
      ≡ some (map_reader (record r { trigram = t; offset = l.offset }) ids l.tail idmap)
unfolding load
load_list ix idmap r t ids l =
    let e : leb ix.num_post r.tri_num ≡ false = ground (arith, l.in_range) in
    let c : (length ids == 0) ≡ false = ground (arith, l.count) in rw (e, l.entry, c, l.bytes) refl

pub load-Reads :
    (ix : Index) (idmap : List IdRange) (ts : Lists) (r : PostMapReader)
    → ix.num_post < 2 ^ 32
    → IsMap 0 idmap
    → IsStored ix r.tri_num ts
    → (r' : PostMapReader) × (load ix idmap r ≡ some r') × Reads ix idmap r' (map_lists idmap ts)
unfolding next_trigram
load-Reads ix idmap [] r h m s = (_, load_end ix idmap r s, refl)
load-Reads ix idmap ((t, ids) ∷ ts) r h m (l, s) = (
  first,
  load_list ix idmap r t ids l,
  (
    refl,
    l.trigram,
    next_id-YieldsIds (record r { trigram = t; offset = l.offset }) ids l.tail idmap m l.rises,
    λ r' same.
        load-Reads ix idmap ts (record r' { tri_num = (r'.tri_num + 1) % 2 ^ 32 }) h m
          (subst (λ n. IsStored ix n ts)
            (let e : suc r.tri_num ≡ (r'.tri_num + 1) % 2 ^ 32 =
                omega (arith, same, l.in_range, h) in
              e)
            s),
  ),
)
  where
    first : PostMapReader
    first = map_reader (record r { trigram = t; offset = l.offset }) ids l.tail idmap

-- No new number is in both maps.
abbrev pub MapsApart : List IdRange → List IdRange → Type 0
MapsApart map1 map2 = (i j z : ℕ) → new_id map1 i ≡ some z → ¬ (new_id map2 j ≡ some z)

In-image :
    (idmap : List IdRange) (ids : List ℕ) (z : ℕ)
    → In z (image idmap ids)
    → (id : ℕ) × (new_id idmap id ≡ some z)
unfolding image
In-image idmap [] z h = absurd h
In-image idmap (id ∷ ids) z h = elim (Option-cases (new_id idmap id)) [
  | inl e ↦ In-image idmap ids z (subst (In z) (image-none idmap id ids e) h)
  | inr (y, e) ↦ elim (subst (In z) (image-some idmap id y ids e) h) [
    | inl same ↦ (id, e ∙ ap some (sym same))
    | inr more ↦ In-image idmap ids z more
  ]
]

In-map_lists :
    (idmap : List IdRange) (ts : Lists) (a : ℕ × List ℕ) (z : ℕ)
    → In a (map_lists idmap ts)
    → In z a.1
    → (id : ℕ) × (new_id idmap id ≡ some z)
In-map_lists idmap [] a z h k = absurd h
In-map_lists idmap ((t, ids) ∷ ts) a z (inl e) k = In-image idmap ids z (subst (λ b. In z b.1) e k)
In-map_lists idmap ((t, ids) ∷ ts) a z (inr h) k = In-map_lists idmap ts a z h k

pub map_lists-AreApart :
    (map1 map2 : List IdRange) (ts us : Lists)
    → MapsApart map1 map2
    → AreApart (map_lists map1 ts) (map_lists map2 us)
map_lists-AreApart map1 map2 ts us apart a b i j z k l =
    let (x, e) = In-map_lists map1 ts a z i k in
    let (y, f) = In-map_lists map2 us b z j l in apart x y z e f

length-image : (idmap : List IdRange) (ids : List ℕ) → length (image idmap ids) ≤ length ids
unfolding image
length-image idmap [] = omega arith
length-image idmap (id ∷ ids) = elim (Option-cases (new_id idmap id)) [
  | inl e ↦ rw (image-none idmap id ids e) (omega (arith, length-image idmap ids))
  | inr (y, e) ↦ rw (image-some idmap id y ids e) (omega (arith, length-image idmap ids))
]

pub map_lists-IsShort :
    (limit : ℕ) (idmap : List IdRange) (ts : Lists)
    → IsShort limit ts
    → IsShort limit (map_lists idmap ts)
map_lists-IsShort limit idmap [] s = tt
map_lists-IsShort limit idmap ((t, ids) ∷ ts) (h, s) =
    (omega (arith, h, length-image idmap ids), map_lists-IsShort limit idmap ts s)

pub length-map_lists : (idmap : List IdRange) (ts : Lists) → length (map_lists idmap ts) ≡ length ts
length-map_lists idmap [] = refl
length-map_lists idmap ((t, ids) ∷ ts) = ap suc (length-map_lists idmap ts)
