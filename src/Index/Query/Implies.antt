-- ===== src/Index/Query/Implies.antt =====
-- `implies` and `trigramsImply` never answer true wrongly.
use codesearch.Common.{◌≡◌, refl, arith, Bool, true, false, ◌&&◌}
use codesearch.Common.{List, [], ◌∷◌, inl, inr, Bool-cases, In, length, ◌==◌}
use codesearch.Common.Strings.{Str}
use codesearch.Index.StringSet.{is_subset_of}
use codesearch.Index.StringSet.Laws.{is_subset_of-In}
use codesearch.Index.Query.{
  q_all, q_none, q_and, q_or, Query, query, Queries, nil, cons, length_subs, any_in, trigrams_imply,
  some_implied, all_implied, implies,
}
use codesearch.Index.Query.Logic.{
  matches, holds_subs, holds_trigrams, holds_and_mono, holds_or_mono, holds_and_In, holds_or_of,
}

module _ (d : Str → Bool) (t : List Str) (h : holds_trigrams q_and d t ≡ true) where
  any_in-holds :
      (s ts : List Str)
      → ((a : Str) → In a s → In a t)
      → any_in s ts ≡ true
      → holds_trigrams q_or d ts ≡ true
  unfolding any_in
  any_in-holds [] ts sub e = ground arith
  any_in-holds (x ∷ s) ts sub e = elim (Bool-cases (is_subset_of (x ∷ []) ts)) [
    | inl k ↦
        holds_or_of d ts x (is_subset_of-In (x ∷ []) ts k x (inl refl))
          (holds_and_In d t x h (sub x (inl refl)))
    | inr k ↦ any_in-holds s ts (λ a i. sub a (inr i)) (ground arith)
  ]

mutual
  unfolding trigrams_imply matches

  trigrams_imply-matches :
      (d : Str → Bool) (t : List Str) (q : Query)
      → holds_trigrams q_and d t ≡ true
      → trigrams_imply t q ≡ true
      → matches d q ≡ true
  trigrams_imply-matches d t (query q_or ts qs) h e =
      ground (arith, some_implied_holds d t qs h, any_in-holds d t h t ts (λ a i. i))
  trigrams_imply-matches d t (query q_and ts qs) h e = ground (
    arith,
    all_implied_holds d t qs h,
    λ (k : is_subset_of ts t ≡ true). holds_and_mono d t ts (is_subset_of-In ts t k) h,
  )
  trigrams_imply-matches d t (query q_all ts qs) h e = refl
  trigrams_imply-matches d t (query q_none ts qs) h e = ground arith

  some_implied_holds :
      (d : Str → Bool) (t : List Str) (qs : Queries)
      → holds_trigrams q_and d t ≡ true
      → some_implied t qs ≡ true
      → holds_subs q_or d qs ≡ true
  some_implied_holds d t nil h e = ground arith
  some_implied_holds d t (cons q qs) h e =
      ground (arith, trigrams_imply-matches d t q h, some_implied_holds d t qs h)

  all_implied_holds :
      (d : Str → Bool) (t : List Str) (qs : Queries)
      → holds_trigrams q_and d t ≡ true
      → all_implied t qs ≡ true
      → holds_subs q_and d qs ≡ true
  all_implied_holds d t nil h e = refl
  all_implied_holds d t (cons q qs) h e =
      ground (arith, trigrams_imply-matches d t q h, all_implied_holds d t qs h)

-- An OR of one trigram says what the AND of it says.
atom_holds :
    (d : Str → Bool) (ts : List Str) (qs : Queries)
    → (length ts == 1 && length_subs qs == 0) ≡ true
    → matches d (query q_or ts qs) ≡ true
    → holds_trigrams q_and d ts ≡ true
unfolding matches holds_trigrams
atom_holds d [] qs a m = ground arith
atom_holds d (t ∷ []) nil a m = ground arith
atom_holds d (t ∷ []) (cons q qs) a m = ground arith
atom_holds d (t ∷ u ∷ ts) qs a m = ground arith

or_holds :
    (d : Str → Bool) (ts us : List Str) (qs rs : Queries)
    → (length_subs qs == 0) ≡ true
    → is_subset_of ts us ≡ true
    → matches d (query q_or ts qs) ≡ true
    → matches d (query q_or us rs) ≡ true
unfolding matches
or_holds d ts us nil rs z s m = ground (arith, holds_or_mono d ts us (is_subset_of-In ts us s))
or_holds d ts us (cons q qs) rs z s m = ground arith

by_trigrams :
    (d : Str → Bool) (ts : List Str) (qs : Queries) (r : Query)
    → trigrams_imply ts r ≡ true
    → matches d (query q_and ts qs) ≡ true
    → matches d r ≡ true
by_trigrams d ts qs r e m = trigrams_imply-matches d ts r (unfold matches in ground arith) e

by_atom :
    (d : Str → Bool) (ts : List Str) (qs : Queries) (r : Query)
    → (length ts == 1 && length_subs qs == 0) ≡ true
    → trigrams_imply ts r ≡ true
    → matches d (query q_or ts qs) ≡ true
    → matches d r ≡ true
by_atom d ts qs r a e m = trigrams_imply-matches d ts r (atom_holds d ts qs a m) e

matches_none :
    (d : Str → Bool) (ts : List Str) (qs : Queries) → matches d (query q_none ts qs) ≡ false
unfolding matches
matches_none d ts qs = refl

matches_all : (d : Str → Bool) (ts : List Str) (qs : Queries) → matches d (query q_all ts qs) ≡ true
unfolding matches
matches_all d ts qs = refl

-- If `implies` answers true, every text that matches `q` matches `r`.
pub implies-matches :
    (d : Str → Bool) (q r : Query) → implies q r ≡ true → matches d q ≡ true → matches d r ≡ true
unfolding implies
implies-matches d (query q_none ts qs) r e m = ground (arith, matches_none d ts qs)
implies-matches d (query q_all ts qs) (query q_all us rs) e m = matches_all d us rs
implies-matches d (query q_all ts qs) (query q_none us rs) e m = ground arith
implies-matches d (query q_all ts qs) (query q_and us rs) e m = ground arith
implies-matches d (query q_all ts qs) (query q_or us rs) e m = ground arith
implies-matches d (query q_and ts qs) (query q_all us rs) e m = matches_all d us rs
implies-matches d (query q_and ts qs) (query q_none us rs) e m = ground arith
implies-matches d (query q_and ts qs) (query q_and us rs) e m = by_trigrams d ts qs _ e m
implies-matches d (query q_and ts qs) (query q_or us rs) e m = by_trigrams d ts qs _ e m
implies-matches d (query q_or ts qs) (query q_all us rs) e m = matches_all d us rs
implies-matches d (query q_or ts qs) (query q_none us rs) e m = ground arith
implies-matches d (query q_or ts qs) (query q_and us rs) e m =
    ground (arith, by_atom d ts qs (query q_and us rs))
implies-matches d (query q_or ts qs) (query q_or us rs) e m =
    ground (arith, by_atom d ts qs (query q_or us rs), or_holds d ts us qs rs)
