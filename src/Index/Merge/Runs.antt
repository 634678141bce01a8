-- ===== src/Index/Merge/Runs.antt =====
-- One list that is merged from two chunks.
use codesearch.Common.{◌+◌, ◌*◌, ◌^◌, ◌≤◌, ◌≡◌, arith, [], ◌∷◌}
use codesearch.Index.Heap.Queue.{left, count, size}
use codesearch.Index.Posting.{no_id}
use codesearch.Index.Merge.{Merging, write_list}
use codesearch.Index.Merge.Lists.{IsMerging, Listed, write_list-Listed}

-- File 3 has trigram 7, which is at hand for file 1, and file 2 has trigram 9.
abbrev two_lists : Merging
two_lists = record {
  out = [];
  e = 7 * 2 ^ 32 + 1;
  h = record { e = 7 * 2 ^ 32 + 3; m = [] } ∷ record { e = 9 * 2 ^ 32 + 2; m = [] } ∷ [];
  fileid = no_id;
  nfile = 0;
}

two_lists-IsMerging : IsMerging two_lists.e two_lists.h
unfolding left count
two_lists-IsMerging = record {
  queue = record {
    heap = λ x p l. let one : x ≡ 1 = omega (arith, p, l) in rw one (omega arith);
    chunks = ((tt, tt), ((tt, tt), tt));
  };
  small = omega arith;
  least = λ x p. ground (arith, p);
  before = λ x p. ground (arith, p);
}

two_left : size two_lists.h + 2 ≤ 4
unfolding size
two_left = omega arith

write_list-Listed_example : Listed 7 two_lists (write_list 4 7 two_lists)
write_list-Listed_example = write_list-Listed 4 7 two_lists two_lists-IsMerging two_left
