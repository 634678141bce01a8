-- ===== src/Index/Posting.antt =====
-- Posting lists: the deltas that `mergePost` (index/write.go) and `postDataWriter` (index/merge.go)
-- write, and the reader of index/read.go.
pub mod Reads
pub mod Loops
pub mod Union
use codesearch.Common.{ℕ, zero, suc, ◌+◌, ◌-◌, ◌%◌, ◌^◌, ◌≡◌, Bool, true, false}
use codesearch.Common.{Option, none, some, List, [], ◌∷◌, ◌++◌, ltb, ◌==◌, if◌then◌else◌}
use codesearch.Index.Varint.{write_uvarint, uvarint}

-- `^uint32(0)`, the id before the first.
abbrev pub no_id : ℕ
no_id = 2 ^ 32 - 1

-- `e.fileid() - fileid` on uint32.
abbrev pub delta : ℕ → ℕ → ℕ
delta last id = (id + 2 ^ 32 - last) % 2 ^ 32

-- The body of a posting list: a delta for each id, and a zero.
unfoldable pub write_ids : ℕ → List ℕ → List ℕ
write_ids last [] = write_uvarint 0
write_ids last (id ∷ ids) = write_uvarint (delta last id) ++ write_ids id ids

pub record PostReader : Type 0 where
  pub count : ℕ
  pub fileid : ℕ
  pub bytes : Option (List ℕ)
  pub restrict : Option (List ℕ)

-- What a call of `next` does: it returns true, it returns false, or the program ends in `corrupt`.
pub data Next : Type 0 where
  found : PostReader → Next
  done : PostReader → Next
  corrupt : Next

-- The advance of `r.restrict` to the first id that is not below `fileid`.
unfoldable pub skip_below : ℕ → List ℕ → List ℕ
skip_below fileid [] = []
skip_below fileid (x ∷ xs) = if ltb x fileid then skip_below fileid xs else x ∷ xs

abbrev pub starts_with : ℕ → List ℕ → Bool
starts_with fileid [] = false
starts_with fileid (x ∷ xs) = x == fileid

abbrev pub bytes_of : Option (List ℕ) → List ℕ
bytes_of none = []
bytes_of (some d) = d

-- The check behind the loop of `next`: a list that was opened ends with a zero delta.
abbrev finish : Option (List ℕ) → Option (List ℕ) → Next
finish none restrict =
    done (record { count = 0; fileid = no_id; bytes = none; restrict = restrict })
finish (some []) restrict = corrupt
finish (some (b ∷ d)) restrict =
    if b == 0
    then done (record { count = 0; fileid = no_id; bytes = some (b ∷ d); restrict = restrict })
    else corrupt

-- The restriction, and `continue` as a call of `again`.
unfoldable pub accept : ℕ → ℕ → List ℕ → Option (List ℕ) → (List ℕ → Next) → Next
accept count id rest none again =
    found (record { count = count; fileid = id; bytes = some rest; restrict = none })
accept count id rest (some ids) again =
    let left = skip_below id ids in
    if starts_with id left
    then found (record { count = count; fileid = id; bytes = some rest; restrict = some left })
    else again left

unfoldable pub next_loop : ℕ → ℕ → Option (List ℕ) → Option (List ℕ) → Next
next_loop zero fileid bytes restrict = finish bytes restrict
next_loop (suc count) fileid bytes restrict = elim (uvarint (bytes_of bytes)) [
  | none ↦ corrupt
  | some (v, rest) ↦
      let id = (fileid + v % 2 ^ 32) % 2 ^ 32 in
      if v % 2 ^ 32 == 0
      then corrupt
      else accept count id rest restrict (λ left. next_loop count id (some rest) (some left))
]

unfoldable pub next : PostReader → Next
unfolding next_loop accept
next r = next_loop r.count r.fileid r.bytes r.restrict

-- `for i < len(list) && list[i] < fileid { … }` of `postingOr`: what is copied, and what is left.
unfoldable pub copy_below : ℕ → List ℕ → List ℕ
copy_below fileid [] = []
copy_below fileid (x ∷ xs) = if ltb x fileid then x ∷ copy_below fileid xs else []

-- `if i < len(list) && list[i] == fileid { i++ }`
abbrev pub drop_equal : ℕ → List ℕ → List ℕ
drop_equal fileid [] = []
drop_equal fileid (x ∷ xs) = if x == fileid then xs else x ∷ xs

-- The loops of `postingList`, `postingAnd` and `postingOr`. Each `next` that returns true lowers
-- `r.count`, so a round more than the count is enough; `none` is `corrupt`.
unfoldable pub list_loop : ℕ → PostReader → Option (List ℕ)
list_loop zero r = none
list_loop (suc fuel) r = elim (next r) [
  | found r' ↦ elim (list_loop fuel r') [ none ↦ none | some x ↦ some (r'.fileid ∷ x) ]
  | done r' ↦ some []
  | corrupt ↦ none
]

unfoldable pub and_loop : ℕ → PostReader → List ℕ → Option (List ℕ)
and_loop zero r list = none
and_loop (suc fuel) r list = elim (next r) [
  | found r' ↦
      let left = skip_below r'.fileid list in
      elim (and_loop fuel r' (drop_equal r'.fileid left)) [
        | none ↦ none
        | some x ↦ some (if starts_with r'.fileid left then r'.fileid ∷ x else x)
      ]
  | done r' ↦ some []
  | corrupt ↦ none
]

unfoldable pub or_loop : ℕ → PostReader → List ℕ → Option (List ℕ)
or_loop zero r list = none
or_loop (suc fuel) r list = elim (next r) [
  | found r' ↦
      let left = skip_below r'.fileid list in
      elim (or_loop fuel r' (drop_equal r'.fileid left)) [
        | none ↦ none
        | some x ↦ some (copy_below r'.fileid list ++ (r'.fileid ∷ x))
      ]
  | done r' ↦ some list
  | corrupt ↦ none
]
