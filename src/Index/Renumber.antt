-- ===== src/Index/Renumber.antt =====
-- The posting lists of `Merge` in index/merge.go: `postMapReader` gives the ids of a list the numbers
-- of the merged index, and `postDataWriter` writes the merged lists.
pub mod Loops
pub mod Ranges
pub mod Ids
pub mod Step
pub mod Writes
pub mod Ended
pub mod Tables
pub mod Posts
pub mod Whole
pub mod Stored
pub mod Lookup
pub mod Sorted
pub mod Maps
pub mod Fronts
pub mod Owners
pub mod Built
pub mod Merged
mod Runs
use codesearch.Common.{ℕ, zero, suc, ◌+◌, ◌-◌, ◌%◌, ◌^◌, Bool, true, false, not, ◌||◌}
use codesearch.Common.{
  Option, none, some, List, [], ◌∷◌, ◌++◌, ◌*◌, ltb, leb, ◌==◌, if◌then◌else◌, length,
}
use codesearch.Index.Varint.{uvarint, write_uvarint}
use codesearch.Index.Posting.{no_id, delta}
use codesearch.Index.Read.{Index, list_at, slice, post_entry_size, ◌>>=◌}
use codesearch.Index.Read.Table.{write_trigram, write_uint32}

-- The ids from `lo` to below `hi` map to those from `new` on.
pub record IdRange : Type 0 where
  pub lo : ℕ
  pub hi : ℕ
  pub new : ℕ

-- `ix` is a parameter of what reads it, and `idmap` holds the ranges from `i` on.
pub record PostMapReader : Type 0 where
  pub idmap : List IdRange
  pub tri_num : ℕ
  pub trigram : ℕ
  pub count : ℕ
  pub offset : ℕ
  pub d : List ℕ
  pub oldid : ℕ
  pub fileid : ℕ

-- `load`, where `idmap` is the whole map; `none` is a panic or `corrupt`.
unfoldable pub load : Index → List IdRange → PostMapReader → Option PostMapReader
load ix idmap r =
    if leb ix.num_post r.tri_num
    then some (record r { trigram = no_id; count = 0; fileid = no_id })
    else elim (list_at ix (r.tri_num * post_entry_size % 2 ^ 32)) [
      | none ↦ none
      | some (trigram, count, offset) ↦
          if count == 0
          then some (record r { trigram = trigram; count = 0; offset = offset; fileid = no_id })
          else elim (slice ix ((ix.post_data + offset + 3) % 2 ^ 32) none) [
            | none ↦ none
            | some d ↦ some (record r {
              trigram = trigram;
              count = count;
              offset = offset;
              d = d;
              oldid = no_id;
              idmap = idmap;
            })
          ]
    ]

unfoldable pub next_trigram : Index → List IdRange → PostMapReader → Option PostMapReader
unfolding load
next_trigram ix idmap r = load ix idmap (record r { tri_num = (r.tri_num + 1) % 2 ^ 32 })

-- What a call of `nextId` does: it returns true, it returns false, or it calls `corrupt`.
pub data NextId : Type 0 where
  mapped ended : PostMapReader → NextId
  broken : NextId

-- `for r.i < len(r.idmap) && r.idmap[r.i].hi <= r.oldid { r.i++ }`
unfoldable pub skip_ranges : ℕ → List IdRange → List IdRange
skip_ranges id [] = []
skip_ranges id (x ∷ xs) = if leb x.hi id then skip_ranges id xs else x ∷ xs

-- The rest of a round, with the ranges that are left; `again` is `continue`.
unfoldable pub translate :
    PostMapReader → ℕ → ℕ → List ℕ → List IdRange → (List IdRange → NextId) → NextId
translate r count id rest [] again =
    ended (record r { count = 0; d = rest; oldid = id; idmap = []; fileid = no_id })
translate r count id rest (x ∷ xs) again =
    if ltb id x.lo
    then again (x ∷ xs)
    else mapped (record r {
      count = count;
      d = rest;
      oldid = id;
      idmap = x ∷ xs;
      fileid = (x.new + id + 2 ^ 32 - x.lo) % 2 ^ 32;
    })

unfoldable pub next_id_loop : PostMapReader → ℕ → ℕ → List ℕ → List IdRange → NextId
unfolding skip_ranges translate
next_id_loop r zero oldid d idmap =
    ended (record r { count = 0; d = d; oldid = oldid; idmap = idmap; fileid = no_id })
next_id_loop r (suc count) oldid d idmap = elim (uvarint d) [
  | none ↦ broken
  | some (v, rest) ↦
      if v % 2 ^ 32 == 0
      then broken
      else let id = (oldid + v % 2 ^ 32) % 2 ^ 32 in
        translate r count id rest (skip_ranges id idmap) (λ left. next_id_loop r count id rest left)
]

unfoldable pub next_id : PostMapReader → NextId
unfolding next_id_loop
next_id r = next_id_loop r r.count r.oldid r.d r.idmap

-- `postDataWriter`, with what is written to its two files.
pub record PostDataWriter : Type 0 where
  pub out : List ℕ
  pub post_index : List ℕ
  pub base : ℕ
  pub count : ℕ
  pub offset : ℕ
  pub last : ℕ
  pub t : ℕ

-- `none` is the end of the program in `offset`, where the file has grown past 32 bits.
unfoldable pub begin_trigram : ℕ → PostDataWriter → Option PostDataWriter
begin_trigram t w =
    if ltb (length w.out) (2 ^ 32)
    then some (record w { offset = length w.out; count = 0; t = t; last = no_id })
    else none

unfoldable pub add_fileid : ℕ → PostDataWriter → PostDataWriter
add_fileid id w = record w {
  out =
      (if w.count == 0 then w.out ++ write_trigram w.t else w.out)
      ++ write_uvarint (delta w.last id);
  last = id;
  count = (w.count + 1) % 2 ^ 32;
}

unfoldable pub end_trigram : PostDataWriter → PostDataWriter
end_trigram w = if w.count == 0 then w else record w {
  out = w.out ++ write_uvarint 0;
  post_index =
      w.post_index
      ++ (write_trigram w.t
          ++ (write_uint32 w.count ++ write_uint32 ((w.offset + 2 ^ 32 - w.base) % 2 ^ 32)));
}

-- A call of `nextId` whose result is not read.
abbrev pub step_reader : NextId → Option PostMapReader
step_reader (mapped r) = some r
step_reader (ended r) = some r
step_reader broken = none
