-- ===== src/Index/Renumber/Loops.antt =====
-- The loops of `Merge` (index/merge.go) over the posting lists of two indexes.
use codesearch.Common.{ℕ, zero, suc, ◌^◌, true, false, ◌||◌}
use codesearch.Common.{Option, none, some, List, [], ltb, ◌==◌, if◌then◌else◌, length}
use codesearch.Index.Posting.{no_id}
use codesearch.Index.Read.{Index, ◌>>=◌}
use codesearch.Index.Renumber.{
  IdRange, PostMapReader, load, next_trigram, mapped, ended, broken, next_id, step_reader,
  PostDataWriter, begin_trigram, add_fileid, end_trigram,
}

-- `for r1.nextId() { w.fileid(r1.fileid) }`
unfoldable pub copy_ids :
    ℕ → PostMapReader → PostDataWriter → Option (PostMapReader × PostDataWriter)
unfolding next_id add_fileid
copy_ids zero r w = none
copy_ids (suc rounds) r w = elim (next_id r) [
  | mapped r' ↦ copy_ids rounds r' (add_fileid r'.fileid w)
  | ended r' ↦ some (r', w)
  | broken ↦ none
]

-- The loop over two lists of one trigram; `none` is a panic.
unfoldable pub merge_ids :
    ℕ
    → PostMapReader
    → PostMapReader
    → PostDataWriter
    → Option (PostMapReader × PostMapReader × PostDataWriter)
unfolding next_id add_fileid
merge_ids zero r1 r2 w = none
merge_ids (suc rounds) r1 r2 w = elim (ltb r1.fileid no_id || ltb r2.fileid no_id) [
  | false ↦ some (r1, r2, w)
  | true ↦ elim (ltb r1.fileid r2.fileid) [
    | true ↦ elim (step_reader (next_id r1)) [
      | none ↦ none
      | some r1' ↦ merge_ids rounds r1' r2 (add_fileid r1.fileid w)
    ]
    | false ↦ elim (ltb r2.fileid r1.fileid) [
      | true ↦ elim (step_reader (next_id r2)) [
        | none ↦ none
        | some r2' ↦ merge_ids rounds r1 r2' (add_fileid r2.fileid w)
      ]
      | false ↦ none
    ]
  ]
]

-- A trigram that one index has, up to `endTrigram`.
unfoldable pub copy_list :
    ℕ → PostMapReader → PostDataWriter → Option (PostMapReader × PostDataWriter)
unfolding begin_trigram copy_ids
copy_list rounds r w = do w' ← begin_trigram r.trigram w; copy_ids rounds r w'

-- A trigram that both indexes have, up to `endTrigram`.
unfoldable pub merge_lists :
    ℕ
    → PostMapReader
    → PostMapReader
    → PostDataWriter
    → Option (PostMapReader × PostMapReader × PostDataWriter)
unfolding begin_trigram merge_ids
merge_lists rounds r1 r2 w = do
  w' ← begin_trigram r1.trigram w
  r1' ← step_reader (next_id r1)
  r2' ← step_reader (next_id r2)
  merge_ids rounds r1' r2' w'

-- A reader on which `init` calls `load`; the other fields are zero.
abbrev pub new_reader : List IdRange → PostMapReader
new_reader idmap = record {
  idmap = idmap;
  tri_num = 0;
  trigram = no_id;
  count = 0;
  offset = 0;
  d = [];
  oldid = 0;
  fileid = 0;
}

unfoldable pub init_reader : Index → List IdRange → Option PostMapReader
unfolding load
init_reader ix idmap = load ix idmap (new_reader idmap)

-- The loop over the trigrams of both indexes; `limit` bounds the rounds on one trigram.
unfoldable pub merge_posts :
    ℕ
    → ℕ
    → (Index × List IdRange)
    → (Index × List IdRange)
    → PostMapReader
    → PostMapReader
    → PostDataWriter
    → Option PostDataWriter
unfolding copy_list merge_lists end_trigram next_trigram
merge_posts zero limit (ix1, map1) (ix2, map2) r1 r2 w = none
merge_posts (suc rounds) limit (ix1, map1) (ix2, map2) r1 r2 w = elim (ltb r1.trigram r2.trigram) [
  | true ↦ do
    (r, v) ← copy_list limit r1 w
    r1' ← next_trigram ix1 map1 r
    merge_posts rounds limit (ix1, map1) (ix2, map2) r1' r2 (end_trigram v)
  | false ↦ elim (ltb r2.trigram r1.trigram) [
    | true ↦ do
      (r, v) ← copy_list limit r2 w
      r2' ← next_trigram ix2 map2 r
      merge_posts rounds limit (ix1, map1) (ix2, map2) r1 r2' (end_trigram v)
    | false ↦ elim (r1.trigram == no_id) [
      | true ↦ some w
      | false ↦ do
        (r, s, v) ← merge_lists limit r1 r2 w
        r1' ← next_trigram ix1 map1 r
        r2' ← next_trigram ix2 map2 s
        merge_posts rounds limit (ix1, map1) (ix2, map2) r1' r2' (end_trigram v)
    ]
  ]
]

-- `init`, with the end of the program in `offset`.
unfoldable pub init_writer : List ℕ → Option PostDataWriter
init_writer out =
    if ltb (length out) (2 ^ 32)
    then some (record {
      out = out;
      post_index = [];
      base = length out;
      count = 0;
      offset = 0;
      last = 0;
      t = 0;
    })
    else none

-- The merged list of posting lists behind `out`.
unfoldable pub merge_postings :
    ℕ → ℕ → (Index × List IdRange) → (Index × List IdRange) → List ℕ → Option PostDataWriter
unfolding init_reader init_writer merge_posts
merge_postings rounds limit (ix1, map1) (ix2, map2) out = do
  r1 ← init_reader ix1 map1
  r2 ← init_reader ix2 map2
  w ← init_writer out
  merge_posts rounds limit (ix1, map1) (ix2, map2) r1 r2 w
