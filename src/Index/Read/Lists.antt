-- ===== src/Index/Read/Lists.antt =====
-- `postingList`, `postingAnd` and `postingOr` on an index that stores the ids of a trigram.
use codesearch.Common.{ℕ, suc, ◌+◌, ◌%◌, ◌^◌, ◌≤◌, ◌<◌, ◌≡◌, refl, arith, ◌⊎◌}
use codesearch.Common.{false, Option, none, some, List, [], ◌∷◌, ◌++◌, inl, inr}
use codesearch.Common.{◌==◌, length, All, IsAscending}
use codesearch.Index.Posting.{no_id, write_ids, PostReader, next}
use codesearch.Index.Posting.Reads.{
  Yields, Follows, keep, reader_at, reader_at-Yields, reader_at-Yields-keep,
}
use codesearch.Index.Posting.Loops.{list_loop_lem, and_loop_lem, or_loop_lem, join}
use codesearch.Index.Posting.Union.{IsUnion, join-IsUnion}
use codesearch.Index.Read.{Index, slice, find_list, init, posting_list, posting_and, posting_or}

-- The index has no entry for the trigram.
pub record IsAbsent (ix : Index) (t : ℕ) (ids : List ℕ) : Type 0 where
  pub empty : ids ≡ []
  pub not_found : find_list ix t ≡ some (0, 0)

-- The index has an entry, and the ids stand where it points.
pub record IsPresent (ix : Index) (t : ℕ) (ids : List ℕ) : Type 0 where
  pub offset : ℕ
  pub tail : List ℕ
  pub some_ids : 0 < length ids
  pub at : find_list ix t ≡ some (length ids, offset)
  pub stored :
      slice ix ((ix.post_data + offset + 3) % 2 ^ 32) none ≡ some (write_ids no_id ids ++ tail)

-- The index stores the ids of a trigram: ascending numbers below `^uint32(0)`.
pub record IsStored (ix : Index) (t : ℕ) (ids : List ℕ) : Type 0 where
  pub ascending : IsAscending ids
  pub small : All (λ i. i < no_id) ids
  pub place : IsAbsent ix t ids ⊎ IsPresent ix t ids

-- What a restriction lets through; `none` is nil, no restriction.
unfoldable pub restricted : Option (List ℕ) → List ℕ → List ℕ
restricted none ids = ids
restricted (some rs) ids = keep ids rs

abbrev pub IsRestriction : Option (List ℕ) → Type 0
IsRestriction none = Unit {0}
IsRestriction (some rs) = IsAscending rs

ascending-Follows :
    (last : ℕ) (ids : List ℕ)
    → All (λ i. last < i) ids
    → IsAscending ids
    → All (λ i. i < no_id) ids
    → Follows last ids
ascending-Follows last [] a s b = tt
ascending-Follows last (id ∷ ids) a s b =
    (omega arith, (λ e. absurd (omega arith)), ascending-Follows id ids s.0 s.1 b.1)

Follows-no_id : (ids : List ℕ) → IsAscending ids → All (λ i. i < no_id) ids → Follows no_id ids
Follows-no_id [] s b = tt
Follows-no_id (id ∷ ids) s b =
    (omega arith, (λ e. absurd (omega arith)), ascending-Follows id ids s.0 s.1 b.1)

length-keep : (ids rs : List ℕ) → length (keep ids rs) ≤ length ids
unfolding keep
length-keep [] rs = omega arith
length-keep (i ∷ ids) rs = ground (arith, length-keep ids rs)

All-keep : (P : ℕ → Type 0) (ids rs : List ℕ) → All P ids → All P (keep ids rs)
unfolding keep
All-keep P [] rs p = tt
All-keep P (i ∷ ids) rs p = ground (arith, All-keep P ids rs p.1)

pub keep-IsAscending : (ids rs : List ℕ) → IsAscending ids → IsAscending (keep ids rs)
unfolding keep
keep-IsAscending [] rs s = tt
keep-IsAscending (i ∷ ids) rs s =
    ground (arith, keep-IsAscending ids rs s.1, All-keep (λ j. i < j) ids rs s.0)

pub restricted-IsAscending :
    (restrict : Option (List ℕ)) (ids : List ℕ)
    → IsAscending ids
    → IsAscending (restricted restrict ids)
unfolding restricted
restricted-IsAscending none ids s = s
restricted-IsAscending (some rs) ids s = keep-IsAscending ids rs s

closed_reader : PostReader
closed_reader = record { count = 0; fileid = 0; bytes = none; restrict = none }

keep_nil : (restrict : Option (List ℕ)) → restricted restrict [] ≡ []
unfolding restricted keep
keep_nil none = refl
keep_nil (some rs) = refl

-- The opened reader: it yields the ids that the restriction lets through.
record Opened (ix : Index) (t : ℕ) (restrict : Option (List ℕ)) (ids : List ℕ) : Type 0 where
  reader : PostReader
  opens : init ix t restrict ≡ some reader
  yields : Yields reader (restricted restrict ids)
  enough : length (restricted restrict ids) ≤ reader.count

reader-Yields :
    (restrict : Option (List ℕ)) (ids tail : List ℕ)
    → IsAscending ids
    → All (λ i. i < no_id) ids
    → IsRestriction restrict
    → Yields (reader_at no_id ids tail restrict) (restricted restrict ids)
unfolding restricted
reader-Yields none ids tail s b r =
    reader_at-Yields no_id ids tail (omega arith) (Follows-no_id ids s b)
reader-Yields (some rs) ids tail s b r =
    reader_at-Yields-keep no_id ids tail rs (omega arith) (Follows-no_id ids s b) s r

length-restricted :
    (restrict : Option (List ℕ)) (ids : List ℕ) → length (restricted restrict ids) ≤ length ids
unfolding restricted
length-restricted none ids = omega arith
length-restricted (some rs) ids = length-keep ids rs

open_absent :
    (ix : Index) (t : ℕ) (restrict : Option (List ℕ)) (ids : List ℕ)
    → IsAbsent ix t ids
    → Opened ix t restrict ids
unfolding init
open_absent ix t restrict ids a = record {
  reader = closed_reader;
  opens = rw (a.not_found, init) (unfold closed_reader in refl);
  yields = rw (a.empty, keep_nil) (unfold closed_reader next in (_, refl));
  enough = rw (a.empty, keep_nil) (omega arith);
}

open_present :
    (ix : Index) (t : ℕ) (restrict : Option (List ℕ)) (ids : List ℕ)
    → IsStored ix t ids
    → IsRestriction restrict
    → IsPresent ix t ids
    → Opened ix t restrict ids
unfolding init
open_present ix t restrict ids s r p = record {
  reader = reader_at no_id ids p.tail restrict;
  opens = rw (p.at, init) (rw (open' (length ids) p.some_ids, p.stored) refl);
  yields = reader-Yields restrict ids p.tail s.ascending s.small r;
  enough = length-restricted restrict ids;
}
  where
    open' : (n : ℕ) → 0 < n → (n == 0) ≡ false
    open' n h = ground arith

opened :
    (ix : Index) (t : ℕ) (restrict : Option (List ℕ)) (ids : List ℕ)
    → IsStored ix t ids
    → IsRestriction restrict
    → Opened ix t restrict ids
opened ix t restrict ids s r = elim (s.place) [
  | inl a ↦ open_absent ix t restrict ids a
  | inr p ↦ open_present ix t restrict ids s r p
]

module _ (ix : Index) (t : ℕ) (restrict : Option (List ℕ)) (ids : List ℕ) where
  module _ (stored : IsStored ix t ids) (r : IsRestriction restrict) where
    -- On an index that stores the ids of a trigram, and under an ascending restriction or none,
    -- `postingList` ends without `corrupt` and returns the ids that the restriction lets through.
    pub posting_list-restricted : posting_list ix t restrict ≡ some (restricted restrict ids)
    unfolding posting_list
    posting_list-restricted =
        let o = opened ix t restrict ids stored r in
        rw (o.opens, posting_list)
          (list_loop_lem _ (suc o.reader.count) o.reader o.yields (omega (arith, o.enough)))

    -- On such an index and under such a restriction, `postingAnd` with an ascending list ends and
    -- returns the ids that the restriction lets through and that are in the list.
    pub posting_and-keep :
        (list : List ℕ)
        → IsAscending list
        → posting_and ix list t restrict ≡ some (keep (restricted restrict ids) list)
    unfolding posting_and
    posting_and-keep list asc =
        let o = opened ix t restrict ids stored r in
        rw (o.opens, posting_and)
          (and_loop_lem _ (suc o.reader.count) o.reader list o.yields (omega (arith, o.enough))
            (restricted-IsAscending restrict ids stored.ascending) asc)

    -- On such an index and under such a restriction, `postingOr` with an ascending list ends and
    -- returns the ascending union of the list and the ids that the restriction lets through.
    pub posting_or-IsUnion :
        (list : List ℕ)
        → IsAscending list
        → (zs : List ℕ) × (posting_or ix list t restrict ≡ some zs)
          × IsUnion (restricted restrict ids) list zs
    unfolding posting_or
    posting_or-IsUnion list asc =
        let o = opened ix t restrict ids stored r in
        (
          join (restricted restrict ids) list,
          rw (o.opens, posting_or)
              (or_loop_lem _ (suc o.reader.count) o.reader list o.yields (omega (arith, o.enough))),
          join-IsUnion _ list (restricted-IsAscending restrict ids stored.ascending) asc,
        )
