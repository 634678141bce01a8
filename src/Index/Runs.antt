-- ===== src/Index/Runs.antt =====
-- Concrete runs of the index package, and its theorems at concrete inputs.
use codesearch.Common.{ℕ, ◌≡◌, ◌↔◌, ◌⊎◌, refl, arith, inl, true, ◌&&◌, ◌||◌}
use codesearch.Common.{none, some, List, [], ◌∷◌, ◌++◌, In}
use codesearch.Common.Strings.{Str, str_eq, str_lt}
use codesearch.Index.Varint.{write_uvarint, uvarint, uvarint-write_uvarint}
use codesearch.Index.Posting.{no_id}
use codesearch.Index.Posting.Reads.{keep, reader_at, Yields, reader_at-Yields-keep}
use codesearch.Index.Posting.Union.{merge_or, merge_or-IsUnion, IsUnion}
use codesearch.Index.Read.{find_list, posting_list, posting_and, posting_or}
use codesearch.Index.Read.Table.{lookup, find_list-lookup}
use codesearch.Index.Read.Lists.{
  restricted, posting_list-restricted, posting_and-keep, posting_or-IsUnion,
}
use codesearch.Index.StringSet
use codesearch.Index.StringSet.{is_subset_of, clean, union}
use codesearch.Index.StringSet.Laws.{IsSetOf, clean-IsSetOf, In-union}
use codesearch.Index.StringSet.Subset.{is_subset_of_iff}
use codesearch.Index.Query.{
  q_and, q_or, Query, query, nil, implies, and_or, query_and, query_or, and_trigrams, weight,
  trigrams_imply, any_in, all_query,
}
use codesearch.Index.Query.Logic.{matches, well_formed, holds_trigrams}
use codesearch.Index.Query.Implies.{implies-matches}
use codesearch.Index.Query.Meaning.{query_and-matches, query_or-matches}
use codesearch.Index.Query.Fuel.{and_or_fuel}
use codesearch.Index.Query.Trigrams.{has_trigram, and_trigrams_keeps}
use codesearch.Index.Answer.{posting_query, trigram_code}
use codesearch.Index.Answer.Spec.{answerable, all_trigrams}
use codesearch.Index.Answer.Exact.{Returns, posting_query-exact}
use codesearch.Index.Sample.{
  abc, abc_code, sample, table, table-IsTable, sample-table, abc-IsStored, docs, sample-Serves,
}

abbrev bcd : Str
bcd = 98 ∷ 99 ∷ 100 ∷ []

abbrev abc_query : Query
abc_query = query q_or (abc ∷ []) nil

abbrev bcd_query : Query
bcd_query = query q_or (bcd ∷ []) nil

abbrev both_query : Query
both_query = query q_and (abc ∷ bcd ∷ []) nil

uvarint_300 : uvarint (0xac ∷ 0x02 ∷ 7 ∷ []) ≡ some (300, 7 ∷ [])
unfolding uvarint
uvarint_300 = refl

uvarint-write_uvarint_example :
    uvarint (write_uvarint 0xffff_ffff ++ (9 ∷ [])) ≡ some (0xffff_ffff, 9 ∷ [])
uvarint-write_uvarint_example = uvarint-write_uvarint 0xffff_ffff (9 ∷ []) (omega arith)

merge_or_run : merge_or (1 ∷ 3 ∷ []) (2 ∷ 3 ∷ 5 ∷ []) ≡ 1 ∷ 2 ∷ 3 ∷ 5 ∷ []
unfolding merge_or
merge_or_run = refl

merge_or-IsUnion_example :
    IsUnion (1 ∷ 3 ∷ []) (2 ∷ 3 ∷ 5 ∷ []) (merge_or (1 ∷ 3 ∷ []) (2 ∷ 3 ∷ 5 ∷ []))
merge_or-IsUnion_example =
    merge_or-IsUnion (1 ∷ 3 ∷ []) (2 ∷ 3 ∷ 5 ∷ []) (omega arith) (omega arith)

reader_at-Yields-keep_example :
    Yields
      (reader_at no_id (1 ∷ 6 ∷ 7 ∷ []) [] (some (6 ∷ 9 ∷ [])))
      (keep (1 ∷ 6 ∷ 7 ∷ []) (6 ∷ 9 ∷ []))
reader_at-Yields-keep_example =
    reader_at-Yields-keep no_id (1 ∷ 6 ∷ 7 ∷ []) [] (6 ∷ 9 ∷ []) (omega arith) (omega arith)
      (omega arith) (omega arith)

find_list-lookup_example : find_list sample abc_code ≡ some (lookup abc_code table)
find_list-lookup_example = find_list-lookup sample table abc_code table-IsTable refl sample-table

abc_is_trigram : (code : ℕ) → trigram_code abc ≡ some code → code ≡ abc_code
unfolding trigram_code
abc_is_trigram code e = ground arith

posting_list-restricted_example :
    posting_list sample abc_code (some (1 ∷ [])) ≡ some (restricted (some (1 ∷ [])) (0 ∷ 1 ∷ []))
posting_list-restricted_example =
    posting_list-restricted sample abc_code (some (1 ∷ [])) (0 ∷ 1 ∷ []) abc-IsStored (omega arith)

posting_and-keep_example :
    posting_and sample (1 ∷ 4 ∷ []) abc_code none
    ≡ some (keep (restricted none (0 ∷ 1 ∷ [])) (1 ∷ 4 ∷ []))
posting_and-keep_example =
    posting_and-keep sample abc_code none (0 ∷ 1 ∷ []) abc-IsStored tt (1 ∷ 4 ∷ []) (omega arith)

posting_or-IsUnion_example :
    (zs : List ℕ) × (posting_or sample (1 ∷ 4 ∷ []) abc_code none ≡ some zs)
    × IsUnion (restricted none (0 ∷ 1 ∷ [])) (1 ∷ 4 ∷ []) zs
posting_or-IsUnion_example =
    posting_or-IsUnion sample abc_code none (0 ∷ 1 ∷ []) abc-IsStored tt (1 ∷ 4 ∷ []) (omega arith)

clean_run : clean (bcd ∷ abc ∷ bcd ∷ []) ≡ abc ∷ bcd ∷ []
unfolding StringSet.clean_by str_lt str_eq
clean_run = refl

clean-IsSetOf_example : IsSetOf (bcd ∷ abc ∷ bcd ∷ []) (clean (bcd ∷ abc ∷ bcd ∷ []))
clean-IsSetOf_example = clean-IsSetOf (bcd ∷ abc ∷ bcd ∷ [])

In-union_example : In abc (union (abc ∷ []) (bcd ∷ [])) ↔ (In abc (abc ∷ []) ⊎ In abc (bcd ∷ []))
In-union_example = In-union abc (abc ∷ []) (bcd ∷ [])

is_subset_of_iff_example :
    (is_subset_of (bcd ∷ []) (abc ∷ bcd ∷ []) ≡ true)
    ↔ ((a : Str) → In a (bcd ∷ []) → In a (abc ∷ bcd ∷ []))
unfolding str_lt
is_subset_of_iff_example =
    is_subset_of_iff (bcd ∷ []) (abc ∷ bcd ∷ []) (tt, tt) ((refl, tt), (tt, tt))

implies-matches_example : matches (str_eq abc) abc_query ≡ true
unfolding implies matches str_eq str_lt is_subset_of StringSet.skip_less trigrams_imply any_in
    holds_trigrams
implies-matches_example =
    implies-matches (str_eq abc) (query q_and (abc ∷ []) nil) abc_query refl refl

query_and-matches_example :
    matches (str_eq abc) (query_and abc_query bcd_query)
    ≡ (matches (str_eq abc) abc_query && matches (str_eq abc) bcd_query)
unfolding well_formed
query_and-matches_example = query_and-matches (str_eq abc) abc_query bcd_query refl refl

query_or-matches_example :
    matches (str_eq abc) (query_or both_query bcd_query)
    ≡ (matches (str_eq abc) both_query || matches (str_eq abc) bcd_query)
unfolding well_formed
query_or-matches_example = query_or-matches (str_eq abc) both_query bcd_query refl refl

and_or_fuel_example : and_or 4 both_query bcd_query q_or ≡ and_or 9 both_query bcd_query q_or
unfolding weight
and_or_fuel_example = and_or_fuel 4 9 both_query bcd_query q_or (omega arith) (omega arith)

and_trigrams_keeps_example :
    matches
      (has_trigram (120 ∷ 97 ∷ 98 ∷ 99 ∷ 100 ∷ []))
      (and_trigrams all_query ((97 ∷ 98 ∷ 99 ∷ 100 ∷ []) ∷ []))
    ≡ true
unfolding well_formed matches
and_trigrams_keeps_example =
    and_trigrams_keeps all_query ((97 ∷ 98 ∷ 99 ∷ 100 ∷ []) ∷ []) (120 ∷ [])
      (97 ∷ 98 ∷ 99 ∷ 100 ∷ []) [] refl (inl refl) refl

posting_query-exact_example :
    Returns 2 none (λ i. matches (docs i) abc_query) (posting_query sample abc_query none)
unfolding answerable all_trigrams
posting_query-exact_example = posting_query-exact sample 2 docs sample-Serves abc_query none tt refl
