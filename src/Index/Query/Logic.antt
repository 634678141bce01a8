-- ===== src/Index/Query/Logic.antt =====
-- What a query says of the trigrams that a text has, and the laws of its two connectives.
use codesearch.Common.{◌≡◌, refl, arith, ◌∙◌, Bool, true, false, ◌&&◌, ◌||◌}
use codesearch.Common.{List, [], ◌∷◌, ◌++◌, inl, inr, Bool-cases, In, ◌⊎◌}
use codesearch.Common.Strings.{Str, str_lt}
use codesearch.Index.StringSet.{clean, union}
use codesearch.Index.StringSet.Laws.{In-clean_by}
use codesearch.Index.Query.{
  QueryOp, q_all, q_none, q_and, q_or, Query, query, Queries, nil, cons, append_subs,
}

-- The connective of an operation and its neutral value.
abbrev pub apply : QueryOp → Bool → Bool → Bool
apply q_or a b = a || b
apply _ a b = a && b

abbrev pub neutral : QueryOp → Bool
neutral q_or = false
neutral _ = true

-- `d` says which trigrams a text has.
unfoldable pub holds_trigrams : QueryOp → (Str → Bool) → List Str → Bool
holds_trigrams op d [] = neutral op
holds_trigrams op d (t ∷ ts) = apply op (d t) (holds_trigrams op d ts)

-- The meaning of a query: everything, nothing, all of its parts, or one of them.
unfoldable mutual
  pub matches : (Str → Bool) → Query → Bool
  matches d (query q_all ts qs) = true
  matches d (query q_none ts qs) = false
  matches d (query q_and ts qs) = holds_trigrams q_and d ts && holds_subs q_and d qs
  matches d (query q_or ts qs) = holds_trigrams q_or d ts || holds_subs q_or d qs

  pub holds_subs : QueryOp → (Str → Bool) → Queries → Bool
  holds_subs op d nil = neutral op
  holds_subs op d (cons q qs) = apply op (matches d q) (holds_subs op d qs)

-- Only an AND or an OR has queries below it.
abbrev pub leaf_ok : QueryOp → Queries → Bool
leaf_ok q_all (cons q qs) = false
leaf_ok q_none (cons q qs) = false
leaf_ok _ _ = true

unfoldable mutual
  pub well_formed : Query → Bool
  well_formed (query op ts qs) = leaf_ok op qs && well_formed_subs qs

  pub well_formed_subs : Queries → Bool
  well_formed_subs nil = true
  well_formed_subs (cons q qs) = well_formed q && well_formed_subs qs

-- The two operations that `andOr` is called with.
abbrev pub IsJoin : QueryOp → Type 0
IsJoin op = (op ≡ q_and) ⊎ (op ≡ q_or)

module _ (d : Str → Bool) where
  pub holds_subs-append :
      (op : QueryOp) (qs rs : Queries)
      → holds_subs op d (append_subs qs rs) ≡ apply op (holds_subs op d qs) (holds_subs op d rs)
  unfolding holds_subs
  holds_subs-append q_or nil rs = refl
  holds_subs-append q_or (cons q qs) rs = ground (arith, holds_subs-append q_or qs rs)
  holds_subs-append q_and nil rs = refl
  holds_subs-append q_and (cons q qs) rs = ground (arith, holds_subs-append q_and qs rs)
  holds_subs-append q_all nil rs = refl
  holds_subs-append q_all (cons q qs) rs = ground (arith, holds_subs-append q_all qs rs)
  holds_subs-append q_none nil rs = refl
  holds_subs-append q_none (cons q qs) rs = ground (arith, holds_subs-append q_none qs rs)

  pub holds_trigrams-append :
      (op : QueryOp) (ts us : List Str)
      → holds_trigrams op d (ts ++ us) ≡ apply op (holds_trigrams op d ts) (holds_trigrams op d us)
  unfolding holds_trigrams
  holds_trigrams-append q_or [] us = refl
  holds_trigrams-append q_or (t ∷ ts) us = ground (arith, holds_trigrams-append q_or ts us)
  holds_trigrams-append q_and [] us = refl
  holds_trigrams-append q_and (t ∷ ts) us = ground (arith, holds_trigrams-append q_and ts us)
  holds_trigrams-append q_all [] us = refl
  holds_trigrams-append q_all (t ∷ ts) us = ground (arith, holds_trigrams-append q_all ts us)
  holds_trigrams-append q_none [] us = refl
  holds_trigrams-append q_none (t ∷ ts) us = ground (arith, holds_trigrams-append q_none ts us)

  -- A set of trigrams counts by its members alone.
  pub holds_and_In :
      (ts : List Str) (a : Str) → holds_trigrams q_and d ts ≡ true → In a ts → d a ≡ true
  unfolding holds_trigrams
  holds_and_In [] a h i = elim i [ ]
  holds_and_In (t ∷ ts) a h (inl e) = rw e (ground arith)
  holds_and_In (t ∷ ts) a h (inr i) = holds_and_In ts a (ground arith) i

  pub holds_and_of :
      (ts : List Str) → ((a : Str) → In a ts → d a ≡ true) → holds_trigrams q_and d ts ≡ true
  unfolding holds_trigrams
  holds_and_of [] h = refl
  holds_and_of (t ∷ ts) h = rw (h t (inl refl)) (holds_and_of ts (λ a i. h a (inr i)))

  pub holds_or_of :
      (ts : List Str) (a : Str) → In a ts → d a ≡ true → holds_trigrams q_or d ts ≡ true
  unfolding holds_trigrams
  holds_or_of [] a i h = elim i [ ]
  holds_or_of (t ∷ ts) a (inl e) h = let k : d t ≡ true = rw e at h in rw k
  holds_or_of (t ∷ ts) a (inr i) h = ground (arith, holds_or_of ts a i h)

  holds_or_In :
      (ts : List Str) → holds_trigrams q_or d ts ≡ true → (a : Str) × In a ts × (d a ≡ true)
  unfolding holds_trigrams
  holds_or_In [] h = ground arith
  holds_or_In (t ∷ ts) h = elim (Bool-cases (d t)) [
    | inl e ↦ (t, inl refl, e)
    | inr e ↦ let (a, i, k) = holds_or_In ts (ground arith) in (a, inr i, k)
  ]

  true_iff : (a b : Bool) → (a ≡ true → b ≡ true) → (b ≡ true → a ≡ true) → a ≡ b
  true_iff true b f g = ground (arith, f refl)
  true_iff false true f g = ground (arith, g refl)
  true_iff false false f g = refl

  pub holds_and_mono :
      (ts us : List Str)
      → ((a : Str) → In a us → In a ts)
      → holds_trigrams q_and d ts ≡ true
      → holds_trigrams q_and d us ≡ true
  holds_and_mono ts us sub h = holds_and_of us (λ a i. holds_and_In ts a h (sub a i))

  pub holds_or_mono :
      (ts us : List Str)
      → ((a : Str) → In a ts → In a us)
      → holds_trigrams q_or d ts ≡ true
      → holds_trigrams q_or d us ≡ true
  holds_or_mono ts us sub h = let (a, i, k) = holds_or_In ts h in holds_or_of us a (sub a i) k

  pub holds_trigrams-clean :
      (op : QueryOp) (ts : List Str)
      → IsJoin op
      → holds_trigrams op d (clean ts) ≡ holds_trigrams op d ts
  holds_trigrams-clean op ts (inl e) = rw e (
      true_iff _ _ (holds_and_mono (clean ts) ts (λ a. (In-clean_by str_lt a ts).1))
        (holds_and_mono ts (clean ts) (λ a. (In-clean_by str_lt a ts).0)))
  holds_trigrams-clean op ts (inr e) = rw e (
      true_iff _ _ (holds_or_mono (clean ts) ts (λ a. (In-clean_by str_lt a ts).0))
        (holds_or_mono ts (clean ts) (λ a. (In-clean_by str_lt a ts).1)))

  pub holds_trigrams-union :
      (op : QueryOp) (ts us : List Str)
      → IsJoin op
      → holds_trigrams op d (union ts us)
        ≡ apply op (holds_trigrams op d ts) (holds_trigrams op d us)
  holds_trigrams-union op ts us j =
      holds_trigrams-clean op (ts ++ us) j ∙ holds_trigrams-append op ts us
