-- ===== src/Index/Add.antt =====
-- `Add` of index/write.go: a file is read, and it is skipped unless it looks like text. What is
-- logged is left out, and with it `totalBytes`, which only the log reads.
pub mod Text
pub mod Files
pub mod Keep
pub mod Posts
mod Runs
use codesearch.Common.{ℕ, zero, suc, ◌+◌, ◌*◌, ◌/◌, ◌%◌, ◌^◌, Bool, true, false, not, ◌&&◌, ◌||◌}
use codesearch.Common.{
  Option, none, some, List, [], ◌∷◌, ◌++◌, ltb, leb, ◌==◌, if◌then◌else◌, length,
}
use codesearch.Index.Sort.{sort_post}
use codesearch.Sparse.{Set, add, reset, len}

abbrev pub max_file_len : ℕ
max_file_len = 2 ^ 30

abbrev pub max_line_len : ℕ
max_line_len = 2000

abbrev pub max_text_trigrams : ℕ
max_text_trigrams = 20000

unfoldable pub valid_utf8 : ℕ → ℕ → Bool
valid_utf8 c1 c2 =
    if ltb c1 0x80
    then ltb c2 0x80 || (leb 0xc0 c2 && ltb c2 0xf8)
    else if ltb c1 0xc0
    then ltb c2 0xf8
    else if ltb c1 0xf8
    then leb 0x80 c2 && ltb c2 0xc0
    else false

-- The variables of the loop; `set` is `ix.trigram`.
pub record Progress : Type 0 where
  pub set : Set
  pub tv : ℕ
  pub n : ℕ
  pub linelen : ℕ

pub data Reason : Type 0 where
  read_error empty_read invalid_utf8 too_long long_lines too_many_trigrams : Reason

-- A file that is read so far, one that is skipped, with the set as it is left, or a panic.
pub data Scanned : Type 0 where
  reading : Progress → Scanned
  skipped : Reason → Set → Scanned
  panicked : Scanned

-- `if n++; n >= 3 { ix.trigram.Add(tv) }`, with the new `n`.
abbrev pub add_trigram : Set → ℕ → ℕ → Option Set
add_trigram set n tv = if leb 3 n then add set tv else some set

-- `(tv << 8) & (1<<24 - 1)`, and the byte that is put below.
abbrev pub shift_in : ℕ → ℕ → ℕ
shift_in tv c = tv * 2 ^ 8 % 2 ^ 24 + c

-- The tests in the loop, behind the set's `Add`; `tv` holds the byte `c`.
unfoldable pub check_byte : Set → ℕ → Progress → ℕ → Scanned
unfolding valid_utf8
check_byte set tv t c =
    if not (valid_utf8 (tv / 2 ^ 8 % 2 ^ 8) (tv % 2 ^ 8))
    then skipped invalid_utf8 set
    else if ltb max_file_len (t.n + 1)
    then skipped too_long set
    else if ltb max_line_len (t.linelen + 1)
    then skipped long_lines set
    else reading
        (record { set = set; tv = tv; n = t.n + 1; linelen = if c == 10 then 0 else t.linelen + 1 })

-- The body of the loop for the byte `c`.
unfoldable pub take_byte : Progress → ℕ → Scanned
unfolding check_byte
take_byte t c =
    let tv = shift_in t.tv c in
    elim (add_trigram t.set (t.n + 1) tv) [ none ↦ panicked | some set ↦ check_byte set tv t c ]

infixl 5 ◌>>=◌
abbrev pub ◌>>=◌ : Scanned → (Progress → Scanned) → Scanned
reading t >>= f = f t
skipped r set >>= f = skipped r set
panicked >>= f = panicked

unfoldable pub take_bytes : Progress → List ℕ → Scanned
unfolding take_byte
take_bytes t [] = reading t
take_bytes t (c ∷ cs) = take_byte t c >>= λ t'. take_bytes t' cs

-- What the calls of `f.Read` return: some bytes, the end of the file, an error, or nothing.
pub data Reader : Type 0 where
  chunk : ℕ → List ℕ → Reader → Reader
  at_end failing silent : Reader

unfoldable pub read_all : Reader → Progress → Scanned
unfolding take_bytes
read_all at_end t = reading t
read_all failing t = skipped read_error t.set
read_all silent t = skipped empty_read t.set
read_all (chunk c cs r) t = take_bytes t (c ∷ cs) >>= read_all r

abbrev pub few_trigrams : Scanned → Scanned
few_trigrams (reading t) =
    if ltb max_text_trigrams (len t.set) then skipped too_many_trigrams t.set else reading t
few_trigrams (skipped r set) = skipped r set
few_trigrams panicked = panicked

-- `Add` up to its tests: `ix.trigram` behind an accepted file, and how long the file is.
unfoldable pub scan_file : Set → Reader → Scanned
unfolding read_all
scan_file set r = few_trigrams (read_all r (record { set = reset set; tv = 0; n = 0; linelen = 0 }))

-- `makePostEntry`, `trigram` and `fileid`.
abbrev pub make_post_entry : ℕ → ℕ → ℕ
make_post_entry trigram fileid = trigram * 2 ^ 32 + fileid

abbrev pub entry_trigram : ℕ → ℕ
entry_trigram p = p / 2 ^ 32

abbrev pub entry_fileid : ℕ → ℕ
entry_fileid p = p % 2 ^ 32

-- The fields that `Add` changes: the names with their offsets in `nameData`, the entries in memory
-- and those that are flushed, in files.
pub record Writer : Type 0 where
  pub trigram : Set
  pub name_index : List ℕ
  pub name_data : List ℕ
  pub num_name : ℕ
  pub post : List ℕ
  pub post_files : List (List ℕ)

unfoldable pub has_nul : List ℕ → Bool
has_nul [] = false
has_nul (b ∷ s) = if b == 0 then true else has_nul s

-- `addName`, with the id; a name with a NUL byte ends the program, and so does an offset that
-- 32 bits do not hold.
unfoldable pub add_name : Writer → List ℕ → Option (ℕ × Writer)
unfolding has_nul
add_name w name =
    if has_nul name || leb (2 ^ 32) (length w.name_data)
    then none
    else some (
      w.num_name % 2 ^ 32,
      record w {
        name_index = w.name_index ++ (length w.name_data ∷ []);
        name_data = w.name_data ++ (name ++ (0 ∷ []));
        num_name = w.num_name + 1;
      },
    )

abbrev pub npost : ℕ
npost = 64 * 2 ^ 20 / 8

-- `flushPost`: the sort, and `&ix.post[0]`, which panics on no entries.
unfoldable pub flush_post : Writer → Option Writer
flush_post w = elim (sort_post w.post) [
  | none ↦ none
  | some [] ↦ none
  | some (p ∷ ps) ↦ some (record w { post = []; post_files = w.post_files ++ ((p ∷ ps) ∷ []) })
]

-- The test before an entry is appended; `npost` is the capacity of `ix.post`.
unfoldable pub make_room : Writer → Option Writer
unfolding flush_post
make_room w = if leb npost (length w.post) then flush_post w else some w

-- The loop that appends an entry for each trigram.
unfoldable pub add_posts : ℕ → List ℕ → Writer → Option Writer
unfolding make_room
add_posts fileid [] w = some w
add_posts fileid (t ∷ ts) w = elim (make_room w) [
  | none ↦ none
  | some room ↦
      add_posts fileid ts (record room { post = room.post ++ (make_post_entry t fileid ∷ []) })
]

-- `Add` of a reader: `none` is a panic or the end of the program.
unfoldable pub add_file : Writer → List ℕ → Reader → Option Writer
unfolding scan_file add_name add_posts
add_file w name r = elim (scan_file w.trigram r) [
  | panicked ↦ none
  | skipped reason set ↦ some (record w { trigram = set })
  | reading t ↦ elim (add_name (record w { trigram = t.set }) name) [
    | none ↦ none
    | some (fileid, w') ↦ add_posts fileid t.set.dense w'
  ]
]
