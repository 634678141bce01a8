-- ===== src/Shard/Runs.antt =====
-- Runs of the queries on a shard of two documents.
use codesearch.Common.{ℕ, zero, suc, ◌≡◌, refl, arith, Bool, true, false, not, ◌&&◌, ◌||◌}
use codesearch.Common.{Option, none, some, if◌then◌else◌, List, [], ◌∷◌, ◌==◌, ◌++◌, sym}
use codesearch.Common.Strings.{Str}
use codesearch.Index.Query.{q_and, q_or, query, Query, cons, nil, all_query}
use codesearch.Index.Query.Logic.{matches}
use codesearch.Index.Answer.{trigram_code}
use codesearch.Index.Answer.Spec.{all_trigrams}
use codesearch.Shard.{
  Bitmaps, PostingLists, load, find, find_trigram, and_trigram_loop, not_found_trigrams, found_of,
  posting_query,
}
use codesearch.Shard.Find.{IsSorted, write_trigrams, index_of, find_trigram-index_of}
use codesearch.Shard.Loops.{BitmapLaws, Serves}
use codesearch.Shard.Collect.{DocSets, TrigramLists, SetLaws, IsSound, add_trigrams}
use codesearch.Shard.Collect.Sound.{Adds, add_trigrams-Adds}
use codesearch.Common.{member, get_elem?}
use codesearch.Shard.Write.{trigram_bytes, trigram_bytes-write_trigrams}
use codesearch.Shard.Exact.{defined, posting_query-Finds}

-- A set of the documents 0 and 1.
abbrev Pair : Type 0
Pair = Bool × Bool

abbrev in_pair : Pair → ℕ → Bool
in_pair (a, b) zero = a
in_pair (a, b) (suc zero) = b
in_pair (a, b) (suc (suc i)) = false

abbrev read_pair : Pair → List ℕ → Option Pair
read_pair s (x ∷ y ∷ []) = some (x == 1, y == 1)
read_pair s _ = none

abbrev both : (Bool → Bool → Bool) → Pair → Pair → Pair
both f (a, b) (c, d) = (f a c, f b d)

abbrev empty_pair : Pair → Bool
empty_pair (a, b) = not (a || b)

abbrev pairs : Bitmaps Pair
pairs = record {
  new_bitmap = (false, false);
  from_buffer = read_pair;
  bit_and = both (λ a b. a && b);
  bit_or = both (λ a b. a || b);
  and_not = both (λ a b. a && not b);
  xor = both (λ a b. (a && not b) || (b && not a));
  is_empty = empty_pair;
}

in_pair-both :
    (f : Bool → Bool → Bool) (s t : Pair) (i : ℕ)
    → f false false ≡ false
    → in_pair (both f s t) i ≡ f (in_pair s i) (in_pair t i)
in_pair-both f (a, b) (c, d) zero h = refl
in_pair-both f (a, b) (c, d) (suc zero) h = refl
in_pair-both f (a, b) (c, d) (suc (suc i)) h = sym h

in_pair_new : (i : ℕ) → in_pair (false, false) i ≡ false
in_pair_new zero = refl
in_pair_new (suc zero) = refl
in_pair_new (suc (suc i)) = refl

in_pair_empty : (s : Pair) (i : ℕ) → empty_pair s ≡ true → in_pair s i ≡ false
in_pair_empty (a, b) zero h = ground arith
in_pair_empty (a, b) (suc zero) h = ground arith
in_pair_empty (a, b) (suc (suc i)) h = refl

pairs_laws : BitmapLaws pairs in_pair
pairs_laws = record {
  new_law = in_pair_new;
  and_law = λ a b i. in_pair-both (λ x y. x && y) a b i refl;
  or_law = λ a b i. in_pair-both (λ x y. x || y) a b i refl;
  and_not_law = λ a b i. in_pair-both (λ x y. x && not y) a b i refl;
  xor_law = λ a b i. in_pair-both (λ x y. (x && not y) || (y && not x)) a b i refl;
  empty_law = in_pair_empty;
}

-- "abc" and "bcd"
abbrev abc : Str
abc = 97 ∷ 98 ∷ 99 ∷ []

abbrev bcd : Str
bcd = 98 ∷ 99 ∷ 100 ∷ []

abbrev two_codes : List ℕ
two_codes = 6382179 ∷ 6447972 ∷ []

abbrev stored_bytes : ℕ → List ℕ
stored_bytes zero = 1 ∷ 0 ∷ []
stored_bytes (suc j) = 1 ∷ 1 ∷ []

abbrev stored_pair : ℕ → Pair
stored_pair zero = (true, false)
stored_pair (suc j) = (true, true)

abbrev shard : PostingLists
shard = record { trigrams_bytes = abc ++ bcd; lists = λ j. some (stored_bytes j) }

abbrev pair_at : Option ℕ → Pair
pair_at none = (false, false)
pair_at (some j) = stored_pair j

abbrev pair_of : Option ℕ → Pair
pair_of none = (false, false)
pair_of (some c) = pair_at (index_of c two_codes)

abbrev two_docs : ℕ → Str → Bool
two_docs i t = in_pair (pair_of (trigram_code t)) i

shard-IsSorted : IsSorted shard two_codes
unfolding write_trigrams
shard-IsSorted = record {
  bytes = refl;
  ascending = ((omega arith, tt), (tt, tt));
  small = (omega arith, (omega arith, tt));
}

load_stored : (j : ℕ) → load pairs shard j (false, false) ≡ some (stored_pair j)
unfolding load
load_stored zero = refl
load_stored (suc j) = refl

shard-Serves : Serves pairs in_pair shard two_docs
shard-Serves = record {
  codes = two_codes;
  sorted = shard-IsSorted;
  stored = λ t c j h code e. (stored_pair j, load_stored j, λ i. rw code (rw e refl));
  absent = λ t c i h code e. rw code (rw e (in_pair_new i));
}

-- All documents of a filter that have "abc", or "abc" and "bcd".
abbrev nested : Query
nested = query q_or (abc ∷ []) (cons (query q_and (abc ∷ bcd ∷ []) nil) nil)

posting_query-Finds_example :
    (b : Pair) × (posting_query pairs shard nested (some (true, true)) ≡ some (some b))
    × ((i : ℕ) → in_pair b i ≡ (in_pair (true, true) i && matches (two_docs i) nested))
unfolding defined all_trigrams
posting_query-Finds_example =
    posting_query-Finds pairs in_pair pairs_laws shard two_docs shard-Serves nested
      (some (true, true)) refl

find_trigram-index_of_example : find_trigram pairs shard 6447972 (false, false) ≡ some (true, true)
unfolding index_of load
find_trigram-index_of_example =
    find_trigram-index_of pairs shard two_codes shard-IsSorted 6447972 (false, false)

trigram_bytes-write_trigrams_example : trigram_bytes two_codes ≡ some (abc ++ bcd)
unfolding write_trigrams
trigram_bytes-write_trigrams_example =
    trigram_bytes-write_trigrams two_codes (omega arith, (omega arith, tt))

-- Runs: an OR with a filter, an AND without, a trigram that is not stored.
filtered_run : posting_query pairs shard nested (some (true, true)) ≡ some (some (true, false))
unfolding posting_query and_trigram_loop find trigram_code find_trigram load found_of
    not_found_trigrams
filtered_run = refl

and_run :
    posting_query pairs shard (query q_and (bcd ∷ []) (cons nested nil)) none
    ≡ some (some (true, false))
unfolding posting_query and_trigram_loop find trigram_code find_trigram load found_of
    not_found_trigrams
and_run = refl

-- The query for everything gives nil where there is no filter, and as a part of an AND it panics.
all_run : posting_query pairs shard all_query none ≡ some none
unfolding posting_query
all_run = refl

all_panics : posting_query pairs shard (query q_and [] (cons all_query nil)) none ≡ none
unfolding posting_query and_trigram_loop
all_panics = refl

-- Sets of documents as lists.
abbrev doc_lists : DocSets (List ℕ)
doc_lists = record { new_set = []; add_doc = λ b d. d ∷ b }

abbrev in_list : List ℕ → ℕ → Bool
in_list b i = member i b

doc_lists_laws : SetLaws doc_lists in_list
unfolding member
doc_lists_laws = record { new_law = λ i. refl; add_law = λ b d i. ground arith }

-- The posting lists behind document 5 with the trigrams 7 and 9.
abbrev five_added : TrigramLists (List ℕ)
five_added = record {
  sparse_trigrams = some (λ t. if t == 9 then 1 else 0);
  dense_trigrams = 7 ∷ 9 ∷ [];
  lists = (5 ∷ []) ∷ (5 ∷ []) ∷ [];
}

five_added-IsSound : IsSound doc_lists in_list five_added
five_added-IsSound = record { same = refl; small = (omega arith, (omega arith, tt)); located = at }
  where
    at :
        (j t : ℕ) → get_elem? (five_added.dense_trigrams) j ≡ some t → (if t == 9 then 1 else 0) ≡ j
    at zero t e = let same : t ≡ 7 = ground arith in rw same refl
    at (suc zero) t e = let same : t ≡ 9 = ground arith in rw same refl
    at (suc (suc j)) t e = ground arith

add_trigrams-Adds_example :
    Adds doc_lists in_list doc_lists_laws 6 five_added
      (λ u. member u (9 ∷ 4 ∷ []))
      (add_trigrams doc_lists 6 five_added (9 ∷ 4 ∷ []))
add_trigrams-Adds_example =
    add_trigrams-Adds doc_lists in_list doc_lists_laws 6 (9 ∷ 4 ∷ []) five_added five_added-IsSound
      (omega arith, (omega arith, tt))
