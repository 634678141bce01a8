-- ===== src/Index/Answer/Spec.antt =====
-- What an index stores of its files, and what an answer to a query is.
use codesearch.Common.{ℕ, zero, suc, ◌+◌, ◌<◌, ◌≡◌, refl, arith, Bool, true, false, ◌&&◌}
use codesearch.Common.{
  Option, none, some, List, [], ◌∷◌, inl, inr, Bool-cases, ltb, ◌==◌, if◌then◌else◌,
}
use codesearch.Common.{All, All-of_In, All-In, In→member, member→In, member, IsAscending}
use codesearch.Common.Int.{pos}
use codesearch.Common.Strings.{Str}
use codesearch.Index.Posting.Reads.{keep}
use codesearch.Index.Read.{Index}
use codesearch.Index.Read.Lists.{IsStored, restricted, IsRestriction}
use codesearch.Index.Query.{q_all, q_none, q_and, q_or, Query, query, Queries, nil, cons}
use codesearch.Index.Answer.{trigram_code, count_up}

abbrev pub is_trigram : Str → Bool
is_trigram (a ∷ b ∷ c ∷ []) = ltb a 256 && (ltb b 256 && ltb c 256)
is_trigram _ = false

unfoldable pub all_trigrams : List Str → Bool
all_trigrams [] = true
all_trigrams (t ∷ ts) = is_trigram t && all_trigrams ts

abbrev pub some_part : List Str → Queries → Bool
some_part [] nil = false
some_part _ _ = true

-- Every AND has a part, and the strings of a query are trigrams.
unfoldable mutual
  pub answerable : Query → Bool
  answerable (query q_none ts qs) = true
  answerable (query q_all ts qs) = true
  answerable (query q_and ts qs) = some_part ts qs && (all_trigrams ts && answerable_subs qs)
  answerable (query q_or ts qs) = all_trigrams ts && answerable_subs qs

  pub answerable_subs : Queries → Bool
  answerable_subs nil = true
  answerable_subs (cons q qs) = answerable q && answerable_subs qs

-- An index of `n` files, of which file `i` has the trigrams that `docs i` says.
pub record Serves (ix : Index) (n : ℕ) (docs : ℕ → Str → Bool) : Type 0 where
  pub names : ix.num_name ≡ pos n
  pub ids : Str → List ℕ
  pub stored :
      (t : Str) (code : ℕ)
      → is_trigram t ≡ true
      → trigram_code t ≡ some code
      → IsStored ix code (ids t)
  pub members : (t : Str) (i : ℕ) → is_trigram t ≡ true → member i (ids t) ≡ (ltb i n && docs i t)

-- Whether a restriction lets a file through; `none` is nil.
abbrev pub allowed : Option (List ℕ) → ℕ → Bool
allowed none i = true
allowed (some rs) i = member i rs

-- A restriction is an ascending list of files.
abbrev pub IsLimit : ℕ → Option (List ℕ) → Type 0
IsLimit n none = Unit {0}
IsLimit n (some rs) = IsAscending rs × All (λ i. i < n) rs

-- The files that the restriction lets through and that satisfy `p`, in ascending order.
pub record IsAnswer (n : ℕ) (restrict : Option (List ℕ)) (p : ℕ → Bool) (zs : List ℕ) : Type 0 where
  pub ascending : IsAscending zs
  pub members : (i : ℕ) → member i zs ≡ (allowed restrict i && (ltb i n && p i))

pub IsAnswer-IsLimit :
    (n : ℕ) (restrict : Option (List ℕ)) (p : ℕ → Bool) (zs : List ℕ)
    → IsAnswer n restrict p zs
    → IsLimit n (some zs)
IsAnswer-IsLimit n restrict p zs a =
    (a.ascending, All-of_In (λ i. i < n) zs (λ i h. ground (arith, a.members i, In→member i zs h)))

pub member-keep : (xs ys : List ℕ) (i : ℕ) → member i (keep xs ys) ≡ (member i xs && member i ys)
unfolding keep member
member-keep [] ys i = refl
member-keep (x ∷ xs) ys i = elim (Bool-cases (member x ys)) [
  | inl e ↦
      rw (e, keep)
        (elim (Bool-cases (i == x)) [
          | inl same ↦
              let eq : i ≡ x = ground arith in
              let here : member i ys ≡ true = rw eq e in ground arith
          | inr other ↦ rw other (member-keep xs ys i)
        ])
  | inr e ↦
      rw (e, keep)
        (elim (Bool-cases (i == x)) [
          | inl same ↦
              let eq : i ≡ x = ground arith in
              let here : member i ys ≡ false = rw eq e in ground (arith, member-keep xs ys i)
          | inr other ↦ rw other (member-keep xs ys i)
        ])
]

pub member-restricted :
    (restrict : Option (List ℕ)) (xs : List ℕ) (i : ℕ)
    → member i (restricted restrict xs) ≡ (member i xs && allowed restrict i)
unfolding restricted
member-restricted none xs i = ground arith
member-restricted (some rs) xs i = member-keep xs rs i

pub IsLimit-IsRestriction :
    (n : ℕ) (restrict : Option (List ℕ)) → IsLimit n restrict → IsRestriction restrict
IsLimit-IsRestriction n none h = tt
IsLimit-IsRestriction n (some rs) h = h.0

count_up-above : (low from n : ℕ) → low < from → All (λ i. low < i) (count_up from n)
unfolding count_up
count_up-above low from zero h = tt
count_up-above low from (suc n) h = (h, count_up-above low (suc from) n (omega arith))

count_up-IsAscending : (from n : ℕ) → IsAscending (count_up from n)
unfolding count_up
count_up-IsAscending from zero = tt
count_up-IsAscending from (suc n) =
    (count_up-above from (suc from) n (omega arith), count_up-IsAscending (suc from) n)

member-count_up :
    (from n i : ℕ) → member i (count_up from n) ≡ (if ltb i from then false else ltb i (from + n))
unfolding count_up member
member-count_up from zero i = ground arith
member-count_up from (suc n) i = ground (arith, member-count_up (suc from) n i)

-- Without a restriction the answer to the query that matches everything is all files.
pub count_up-IsAnswer : (n : ℕ) → IsAnswer n none (λ _. true) (count_up 0 n)
count_up-IsAnswer n = record {
  ascending = count_up-IsAscending 0 n;
  members = λ i. ground (arith, member-count_up 0 n i);
}

-- A restriction is itself the answer to that query.
pub limit-IsAnswer :
    (n : ℕ) (rs : List ℕ) → IsLimit n (some rs) → IsAnswer n (some rs) (λ _. true) rs
limit-IsAnswer n rs h = record {
  ascending = h.0;
  members = λ i. elim (Bool-cases (member i rs)) [
    | inl e ↦ let lt : i < n = All-In (λ j. j < n) rs h.1 i (member→In i rs e) in ground arith
    | inr e ↦ rw e
  ];
}
