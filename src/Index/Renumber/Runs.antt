-- ===== src/Index/Renumber/Runs.antt =====
-- The posting lists of a merge, run on the sample index and on itself.
use codesearch.Common.Strings.{Str, str_lt}
use codesearch.Index.Renumber.Maps.{limit_of, build_maps}
use codesearch.Index.Renumber.Owners.{Owns, AreMaps}
use codesearch.Index.Renumber.Built.{build_maps-AreMaps}
use codesearch.Common.{◌≡◌, refl, arith}
use codesearch.Common.{none, some, List, [], ◌∷◌, ◌++◌}
use codesearch.Index.Varint.{write_uvarint, uvarint}
use codesearch.Index.Posting.{write_ids}
use codesearch.Index.Posting.Union.{merge_or}
use codesearch.Index.Read.{list_at, slice, be_uint32, trigram_of}
use codesearch.Index.Read.Table.{write_trigram}
use codesearch.Index.Sample.{abc_code, sample}
use codesearch.Index.Renumber.{IdRange, PostDataWriter, skip_ranges}
use codesearch.Index.Renumber.Loops.{merge_postings}
use codesearch.Index.Renumber.Ranges.{image, new_id}
use codesearch.Index.Renumber.Tables.{
  Lists, table_bytes, table_entries, Fits, merge_tables, map_lists,
}
use codesearch.Index.Renumber.Ended.{list_bytes}
use codesearch.Index.Renumber.Stored.{IsList, MapsApart}
use codesearch.Index.Renumber.Merged.{Stores, IsMerged, merge_postings-IsMerged}

-- The second file of the older index is shadowed.
abbrev older : List IdRange
older = record { lo = 0; hi = 1; new = 0 } ∷ []

abbrev newer : List IdRange
newer = record { lo = 0; hi = 2; new = 1 } ∷ []

abbrev lists : Lists
lists = (abc_code, 0 ∷ 1 ∷ []) ∷ []

skip_ranges_run : skip_ranges 1 older ≡ []
unfolding skip_ranges
skip_ranges_run = refl

image_run : image newer (0 ∷ 1 ∷ 2 ∷ []) ≡ 1 ∷ 2 ∷ []
unfolding image
image_run = refl

sample-IsList : IsList sample 0 abc_code (0 ∷ 1 ∷ [])
unfolding list_at slice be_uint32 trigram_of write_ids write_uvarint
sample-IsList = record {
  offset = 0;
  tail = 97 ∷ 98 ∷ 99 ∷ 0 ∷ 0 ∷ 0 ∷ 2 ∷ 0 ∷ 0 ∷ 0 ∷ 0 ∷ [];
  in_range = omega arith;
  trigram = omega arith;
  count = omega arith;
  rises = omega arith;
  entry = refl;
  bytes = refl;
}

older-Stores : Stores 6 sample older lists
older-Stores = record {
  num_post = omega arith;
  ordered = omega arith;
  stored = (sample-IsList, omega arith);
  short = omega arith;
  sorted = (tt, tt);
}

newer-Stores : Stores 6 sample newer lists
newer-Stores = record {
  num_post = omega arith;
  ordered = omega arith;
  stored = (sample-IsList, omega arith);
  short = omega arith;
  sorted = (tt, tt);
}

older-newer-MapsApart : MapsApart older newer
unfolding new_id
older-newer-MapsApart i j z e f = ground (arith, e, f)

sample-Fits : Fits 3 (merge_tables (map_lists older lists) (map_lists newer lists))
unfolding merge_tables image list_bytes merge_or write_ids
sample-Fits = omega arith

merge_postings_run :
    elim (merge_postings 3 6 (sample, older) (sample, newer) (1 ∷ 2 ∷ 3 ∷ [])) [
      | none ↦ []
      | some w ↦ w.out
    ]
    ≡ 1 ∷ 2 ∷ 3 ∷ 97 ∷ 98 ∷ 99 ∷ 1 ∷ 1 ∷ 1 ∷ 0 ∷ []
unfolding merge_postings list_at slice be_uint32 trigram_of uvarint write_trigram write_uvarint
merge_postings_run = refl

merge_postings-IsMerged_example :
    (w : PostDataWriter) × (ms : Lists) × (merge_postings 3 6
        (sample, older)
        (sample, newer)
        (1 ∷ 2 ∷ 3 ∷ [])
      ≡ some w)
    × IsMerged older newer lists lists ms
    × (w.out ≡ (1 ∷ 2 ∷ 3 ∷ []) ++ table_bytes ms)
    × (w.post_index ≡ table_entries 0 ms)
merge_postings-IsMerged_example =
    merge_postings-IsMerged 3 6 sample sample older newer (1 ∷ 2 ∷ 3 ∷ []) lists lists older-Stores
      newer-Stores older-newer-MapsApart (omega arith) (omega arith) sample-Fits

-- The names a, ab and b, for which 97 stands for "a" and 98 for "b".
abbrev names : List Str
names = (97 ∷ []) ∷ (97 ∷ 98 ∷ []) ∷ (98 ∷ []) ∷ []

-- A new index of the path "a" with the one file "a" shadows the file "ab" too.
shadowed_run :
    build_maps 0 0 0 names ((97 ∷ []) ∷ []) ((97 ∷ []) ∷ [])
    ≡ some (record { lo = 2; hi = 3; new = 1 } ∷ [], record { lo = 0; hi = 1; new = 0 } ∷ [])
unfolding build_maps str_lt
shadowed_run = refl

one_path-Owns : Owns ((97 ∷ []) ∷ []) ((97 ∷ []) ∷ [])
unfolding limit_of str_lt
one_path-Owns = (98 ∷ [], (97 ∷ []) ∷ [], [], refl, refl, refl, (refl, tt), refl, refl)

build_maps-AreMaps_example :
    (maps : List IdRange × List IdRange) × (build_maps 0 0 0 names ((97 ∷ []) ∷ []) ((97 ∷ []) ∷ [])
      ≡ some maps)
    × AreMaps 0 0 0 maps.0 maps.1
build_maps-AreMaps_example =
    build_maps-AreMaps ((97 ∷ []) ∷ []) names ((97 ∷ []) ∷ []) one_path-Owns (omega arith)
