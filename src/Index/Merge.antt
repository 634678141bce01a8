-- ===== src/Index/Merge.antt =====
-- The loop of `mergePost` (index/write.go) that writes one posting list from the heap.
pub mod Lists
mod Runs
use codesearch.Common.{ℕ, zero, suc, ◌+◌, ◌-◌, ◌*◌, ◌/◌, ◌%◌, ◌^◌, Bool, true, false, not, ◌&&◌}
use codesearch.Common.{Option, none, some, List, [], ◌∷◌, ◌++◌, ◌==◌, if◌then◌else◌}
use codesearch.Index.Varint.{write_uvarint}
use codesearch.Index.Posting.{delta}
use codesearch.Index.Add.{entry_trigram, entry_fileid}
use codesearch.Index.Heap.{PostChunk, next_entry}

-- The variables of the loop: what is written, the next entry, the heap, and the counters.
pub record Merging : Type 0 where
  pub out : List ℕ
  pub e : ℕ
  pub h : List PostChunk
  pub fileid : ℕ
  pub nfile : ℕ

-- `e.trigram() == trigram && trigram != 1<<24-1`
abbrev pub in_list : ℕ → ℕ → Bool
in_list trigram e = entry_trigram e == trigram && not (trigram == 2 ^ 24 - 1)

abbrev pub written : Merging → ℕ → List PostChunk → Merging
written s e' h' = record {
  out = s.out ++ write_uvarint (delta s.fileid (entry_fileid s.e));
  e = e';
  h = h';
  fileid = entry_fileid s.e;
  nfile = (s.nfile + 1) % 2 ^ 32;
}

unfoldable pub write_list : ℕ → ℕ → Merging → Option Merging
write_list zero trigram s = none
write_list (suc rounds) trigram s = elim (in_list trigram s.e) [
  | false ↦ some (record s { out = s.out ++ write_uvarint 0 })
  | true ↦ elim (next_entry s.h) [
    | none ↦ none
    | some (e', h') ↦ write_list rounds trigram (written s e' h')
  ]
]
