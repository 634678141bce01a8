-- ===== src/Index/Sample.antt =====
-- A small index of two files that both hold the trigram "abc" and no other.
use codesearch.Common.{ℕ, ◌+◌, ◌*◌, ◌≡◌, refl, arith, ◌∙◌, Bool, true, false, ◌&&◌}
use codesearch.Common.{some, List, [], ◌∷◌, inl, inr, Bool-cases, ltb, ◌==◌, if◌then◌else◌, member}
use codesearch.Common.Int.{pos}
use codesearch.Common.Strings.{Str, str_eq, str_eq→eq}
use codesearch.Index.Posting.{write_ids}
use codesearch.Index.Varint.{write_uvarint}
use codesearch.Index.Read.{Index, slice, find_list}
use codesearch.Index.Read.Table.{Entry, IsTable, write_entries, lookup, find_list-lookup}
use codesearch.Index.Read.Lists.{IsStored}
use codesearch.Index.Answer.{trigram_code}
use codesearch.Index.Answer.Spec.{is_trigram, Serves}

abbrev pub abc : Str
abc = 97 ∷ 98 ∷ 99 ∷ []

abbrev pub abc_code : ℕ
abc_code = 97 * 65536 + 98 * 256 + 99

abbrev pub sample : Index
sample = record {
  bytes = 97 ∷ 98 ∷ 99 ∷ 1 ∷ 1 ∷ 0 ∷ 97 ∷ 98 ∷ 99 ∷ 0 ∷ 0 ∷ 0 ∷ 2 ∷ 0 ∷ 0 ∷ 0 ∷ 0 ∷ [];
  path_data = 0;
  name_data = 0;
  post_data = 0;
  name_index = 0;
  post_index = 6;
  num_name = pos 2;
  num_post = 1;
}

abbrev pub table : List Entry
table = record { trigram = abc_code; count = 2; offset = 0 } ∷ []

pub table-IsTable : IsTable table
table-IsTable =
    (record { trigram = omega arith; count = omega arith; offset = omega arith }, tt, tt)

pub sample-table : slice sample 6 (some 11) ≡ some (write_entries table)
unfolding slice write_entries
sample-table = refl

abbrev pub ids : Str → List ℕ
ids t = if str_eq t abc then 0 ∷ 1 ∷ [] else []

abbrev pub docs : ℕ → Str → Bool
docs i t = str_eq t abc

code_differs :
    (t : Str) (code : ℕ)
    → is_trigram t ≡ true
    → trigram_code t ≡ some code
    → str_eq t abc ≡ false
    → (abc_code == code) ≡ false
unfolding trigram_code str_eq
code_differs (a ∷ b ∷ c ∷ []) code h e n = ground arith
code_differs (a ∷ b ∷ c ∷ x ∷ s) code h e n = ground arith
code_differs (a ∷ b ∷ []) code h e n = ground arith
code_differs (a ∷ []) code h e n = ground arith
code_differs [] code h e n = ground arith

sample-find_list : (code : ℕ) → find_list sample code ≡ some (lookup code table)
sample-find_list code = find_list-lookup sample table code table-IsTable refl sample-table

pub abc-IsStored : IsStored sample abc_code (0 ∷ 1 ∷ [])
unfolding slice write_ids write_uvarint lookup
abc-IsStored = record {
  ascending = omega arith;
  small = omega arith;
  place = inr (record {
    offset = 0;
    tail = 97 ∷ 98 ∷ 99 ∷ 0 ∷ 0 ∷ 0 ∷ 2 ∷ 0 ∷ 0 ∷ 0 ∷ 0 ∷ [];
    some_ids = omega arith;
    at = sample-find_list abc_code;
    stored = refl;
  });
}

other-IsStored : (code : ℕ) → (abc_code == code) ≡ false → IsStored sample code []
unfolding lookup
other-IsStored code h = record {
  ascending = tt;
  small = tt;
  place = inl (record { empty = refl; not_found = sample-find_list code ∙ rw h });
}

sample-IsStored :
    (t : Str) (code : ℕ)
    → is_trigram t ≡ true
    → trigram_code t ≡ some code
    → IsStored sample code (ids t)
sample-IsStored t code h e = elim (Bool-cases (str_eq t abc)) [
  | inl s ↦
      let same : code ≡ abc_code = code_of_abc t code e (str_eq→eq t abc s) in
      rw (s, same) abc-IsStored
  | inr s ↦ rw s (other-IsStored code (code_differs t code h e s))
]
  where
    code_of_abc : (u : Str) (c : ℕ) → trigram_code u ≡ some c → u ≡ abc → c ≡ abc_code
    code_of_abc u c p q = unfold trigram_code in ground arith

sample-members : (t : Str) (i : ℕ) → is_trigram t ≡ true → member i (ids t) ≡ (ltb i 2 && docs i t)
unfolding member
sample-members t i h = elim (Bool-cases (str_eq t abc)) [
  | inl s ↦ rw s (ground arith)
  | inr s ↦ rw s (ground arith)
]

pub sample-Serves : Serves sample 2 docs
sample-Serves = record {
  names = refl;
  ids = ids;
  stored = sample-IsStored;
  members = sample-members;
}
