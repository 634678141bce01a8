-- ===== src/Index/Read.antt =====
-- The reader of index/read.go over the bytes of an index file: `slice`, the posting list index and
-- the opening of a posting list. `none` is a call of `corrupt`, or a panic of an index out of range.
pub mod Table
pub mod Lists
use codesearch.Common.{ℕ, zero, suc, ◌+◌, ◌*◌, ◌/◌, ◌%◌, ◌^◌, ◌-◌, Bool, true, false}
use codesearch.Common.{Option, none, some, List, [], ◌∷◌, ◌++◌}
use codesearch.Common.{ltb, leb, ◌==◌, if◌then◌else◌, length, take, drop}
use codesearch.Common.Int.{ℤ}
use codesearch.Index.Search.{search}
use codesearch.Index.Posting.{no_id, PostReader, list_loop, and_loop, or_loop}

-- `mmapData` is its bytes; `Verbose` only adds log lines.
pub record Index : Type 0 where
  pub bytes : List ℕ
  pub path_data : ℕ
  pub name_data : ℕ
  pub post_data : ℕ
  pub name_index : ℕ
  pub post_index : ℕ
  pub num_name : ℤ
  pub num_post : ℕ

infixl 5 ◌>>=◌
abbrev pub ◌>>=◌ {ℓ κ} : {A : Type ℓ} {B : Type κ} → Option A → (A → Option B) → Option B
none >>= f = none
some a >>= f = f a

abbrev pub post_entry_size : ℕ
post_entry_size = 3 + 4 + 4

-- `n` is `none` where the source passes -1.
unfoldable pub slice : Index → ℕ → Option ℕ → Option (List ℕ)
slice ix off (some n) =
    if ltb (length ix.bytes) (off + n) then none else some (take n (drop off ix.bytes))
slice ix off none = if ltb (length ix.bytes) off then none else some (drop off ix.bytes)

-- `binary.BigEndian.Uint32`
unfoldable pub be_uint32 : List ℕ → Option ℕ
be_uint32 (a ∷ b ∷ c ∷ d ∷ _) = some (a * 2 ^ 24 + b * 2 ^ 16 + c * 2 ^ 8 + d)
be_uint32 _ = none

-- `uint32(d[0])<<16 | uint32(d[1])<<8 | uint32(d[2])`; `findList` reads it within `d`.
unfoldable pub trigram_of : List ℕ → ℕ
trigram_of (a ∷ b ∷ c ∷ _) = a * 2 ^ 16 + b * 2 ^ 8 + c
trigram_of _ = 0

unfoldable pub uint32_at : Index → ℕ → Option ℕ
uint32_at ix off = do d ← slice ix off (some 4); be_uint32 d

-- `listAt`: trigram, count and offset of the entry at an offset in the posting list index.
unfoldable pub list_at : Index → ℕ → Option (ℕ × ℕ × ℕ)
list_at ix off = do
  d ← slice ix ((ix.post_index + off) % 2 ^ 32) (some post_entry_size)
  count ← be_uint32 (drop 3 d)
  offset ← be_uint32 (drop 7 d)
  some (trigram_of d, count, offset)

-- The test of the binary search, on the entry `i` of the posting list index.
abbrev pub at_least : ℕ → List ℕ → ℕ → Bool
at_least trigram d i = leb trigram (trigram_of (drop (i * post_entry_size) d))

-- The test behind the search, on the bytes from the entry that it stopped at.
unfoldable pub entry_match : ℕ → List ℕ → Option (ℕ × ℕ)
entry_match trigram e =
    if trigram_of e == trigram
    then (do count ← be_uint32 (drop 3 e); offset ← be_uint32 (drop 7 e); some (count, offset))
    else some (0, 0)

unfoldable pub entry_found : ℕ → ℕ → List ℕ → ℕ → Option (ℕ × ℕ)
entry_found trigram num_post d i =
    if leb num_post i then some (0, 0) else entry_match trigram (drop (i * post_entry_size) d)

unfoldable pub find_list : Index → ℕ → Option (ℕ × ℕ)
find_list ix trigram = do
  d ← slice ix ix.post_index (some (post_entry_size * ix.num_post))
  entry_found trigram ix.num_post d (search ix.num_post (at_least trigram d))

-- `postReader.init`; a reader that is not opened stays zero.
unfoldable pub init : Index → ℕ → Option (List ℕ) → Option PostReader
init ix trigram restrict = do
  (count, offset) ← find_list ix trigram
  if count == 0 then some (record { count = 0; fileid = 0; bytes = none; restrict = none }) else (do
    d ← slice ix ((ix.post_data + offset + 3) % 2 ^ 32) none
    some (record { count = count; fileid = no_id; bytes = some d; restrict = restrict }))

-- Each call of `next` that returns true lowers the count, so `count + 1` rounds are enough.
unfoldable pub posting_list : Index → ℕ → Option (List ℕ) → Option (List ℕ)
posting_list ix trigram restrict = do r ← init ix trigram restrict; list_loop (suc r.count) r

unfoldable pub posting_and : Index → List ℕ → ℕ → Option (List ℕ) → Option (List ℕ)
posting_and ix list trigram restrict = do
  r ← init ix trigram restrict
  and_loop (suc r.count) r list

unfoldable pub posting_or : Index → List ℕ → ℕ → Option (List ℕ) → Option (List ℕ)
posting_or ix list trigram restrict = do r ← init ix trigram restrict; or_loop (suc r.count) r list
