-- ===== src/Index/Renumber/Merged.antt =====
-- The posting lists of a merged index.
use codesearch.Common.{ℕ, ◌+◌, ◌^◌, ◌<◌, ◌≡◌, refl, arith, ◌∙◌}
use codesearch.Common.{true, some, List, [], ◌++◌}
use codesearch.Common.{ltb, length}
use codesearch.Index.Posting.Union.{merge_or}
use codesearch.Index.Read.{Index}
use codesearch.Index.Renumber.{IdRange, PostMapReader, PostDataWriter}
use codesearch.Index.Renumber.Loops.{new_reader, init_reader, init_writer, merge_postings}
use codesearch.Index.Renumber.Ranges.{IsMap, image}
use codesearch.Index.Renumber.Tables.{
  Lists, merge_tables, map_lists, table_bytes, table_entries, Fits,
}
use codesearch.Index.Renumber.Lookup.{
  IsSorted, ids_of, ids_of-map_lists, map_lists-IsSorted, ids_of-merge_tables,
}
use codesearch.Index.Renumber.Sorted.{merge_tables-IsSorted}
use codesearch.Index.Renumber.Posts.{Reads}
use codesearch.Index.Renumber.Whole.{IsShort, merge_posts-Writes}
use codesearch.Index.Renumber.Stored.{
  IsStored, MapsApart, load-Reads, map_lists-AreApart, map_lists-IsShort, length-map_lists,
}

-- An index with the map of its ids, and the lists that it stores.
pub record Stores (limit : ℕ) (ix : Index) (idmap : List IdRange) (ts : Lists) : Type 0 where
  pub num_post : ix.num_post < 2 ^ 32
  pub ordered : IsMap 0 idmap
  pub stored : IsStored ix 0 ts
  pub short : IsShort limit ts
  pub sorted : IsSorted ts

-- The lists of the trigrams in order, each with the union of the new numbers that its ids have.
pub record IsMerged (map1 map2 : List IdRange) (ts us ms : Lists) : Type 0 where
  pub sorted : IsSorted ms
  pub union : (t : ℕ) → ids_of t ms ≡ merge_or (image map1 (ids_of t ts)) (image map2 (ids_of t us))

merge_tables-IsMerged :
    (map1 map2 : List IdRange) (ts us : Lists)
    → IsSorted ts
    → IsSorted us
    → IsMerged map1 map2 ts us (merge_tables (map_lists map1 ts) (map_lists map2 us))
merge_tables-IsMerged map1 map2 ts us s z =
    let s' = map_lists-IsSorted map1 ts s in
    let z' = map_lists-IsSorted map2 us z in
    record {
      sorted = merge_tables-IsSorted (map_lists map1 ts) (map_lists map2 us) s' z';
      union = λ t.
          ids_of-merge_tables t (map_lists map1 ts) (map_lists map2 us) s' z'
          ∙ rw (ids_of-map_lists t map1 ts, ids_of-map_lists t map2 us) refl;
    }

init_reader-Reads :
    (limit : ℕ) (ix : Index) (idmap : List IdRange) (ts : Lists)
    → Stores limit ix idmap ts
    → (r : PostMapReader) × (init_reader ix idmap ≡ some r) × Reads ix idmap r (map_lists idmap ts)
unfolding init_reader
init_reader-Reads limit ix idmap ts s =
    load-Reads ix idmap ts (new_reader idmap) s.num_post s.ordered s.stored

abbrev new_writer : List ℕ → PostDataWriter
new_writer out = record {
  out = out;
  post_index = [];
  base = length out;
  count = 0;
  offset = 0;
  last = 0;
  t = 0;
}

init_writer-new : (out : List ℕ) → length out < 2 ^ 32 → init_writer out ≡ some (new_writer out)
unfolding init_writer
init_writer-new out h = let e : ltb (length out) (2 ^ 32) ≡ true = ground arith in rw e refl

-- For two indexes that store their lists with the trigrams in order, maps of their ids whose new
-- numbers are apart, and a file that stays below 4 GB, the loop over the trigrams returns. Behind the
-- file stand lists with the trigrams in order, each with the union of the new numbers that its ids
-- have in the two indexes, and the index of the lists has their entries; a list without a number is
-- not written and has no entry.
pub merge_postings-IsMerged :
    (rounds limit : ℕ) (ix1 ix2 : Index) (map1 map2 : List IdRange) (out : List ℕ) (ts us : Lists)
    → Stores limit ix1 map1 ts
    → Stores limit ix2 map2 us
    → MapsApart map1 map2
    → length ts + length us < rounds
    → length out < 2 ^ 32
    → Fits (length out) (merge_tables (map_lists map1 ts) (map_lists map2 us))
    → (w : PostDataWriter) × (ms : Lists) × (merge_postings rounds limit (ix1, map1) (ix2, map2) out
        ≡ some w)
      × IsMerged map1 map2 ts us ms
      × (w.out ≡ out ++ table_bytes ms)
      × (w.post_index ≡ table_entries 0 ms)
unfolding merge_postings
merge_postings-IsMerged rounds limit ix1 ix2 map1 map2 out ts us s1 s2 apart h room fits =
    let (r1, e1, p1) = init_reader-Reads limit ix1 map1 ts s1 in
    let (r2, e2, p2) = init_reader-Reads limit ix2 map2 us s2 in
    let (w, e, f, g) =
      merge_posts-Writes limit ix1 ix2 map1 map2 rounds (map_lists map1 ts) (map_lists map2 us)
        (omega (arith, h, length-map_lists map1 ts, length-map_lists map2 us))
        (map_lists-IsShort limit map1 ts s1.short) (map_lists-IsShort limit map2 us s2.short)
        (map_lists-AreApart map1 map2 ts us apart) r1 r2 (new_writer out) 0 (omega arith) fits p1
        p2 in
    (
      w,
      merge_tables (map_lists map1 ts) (map_lists map2 us),
      rw (e1, e2, init_writer-new out room) e,
      merge_tables-IsMerged map1 map2 ts us s1.sorted s2.sorted,
      f,
      g,
    )
