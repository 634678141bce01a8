-- ===== src/Index/Query/Trigrams.antt =====
-- `andTrigrams`: a text that holds one of the strings still matches.
use codesearch.Common.{ℕ, ◌≡◌, refl, arith, ◌∙◌, ap, sym, Bool, true, false, ◌&&◌, ◌||◌}
use codesearch.Common.{List, [], ◌∷◌, ◌++◌, inl, inr, Bool-cases, In, ltb}
use codesearch.Common.Strings.{Str, str_eq_refl}
use codesearch.Index.StringSet.{contains, clean, min_len}
use codesearch.Index.Query.{
  q_and, Query, query, nil, query_or, none_query, trigrams, or_trigrams, and_trigrams,
}
use codesearch.Index.Query.Logic.{
  matches, holds_subs, holds_trigrams, holds_and_of, holds_trigrams-clean, well_formed,
}
use codesearch.Index.Query.Meaning.{query_and-Joins, query_or-Joins}

-- Whether a text has a trigram.
abbrev pub has_trigram : Str → Str → Bool
has_trigram text = contains (trigrams text)

contains-In : (s : List Str) (a : Str) → In a s → contains s a ≡ true
unfolding contains
contains-In [] a i = elim i [ ]
contains-In (x ∷ s) a (inl e) = rw (← e) (ground (arith, str_eq_refl a))
contains-In (x ∷ s) a (inr i) = ground (arith, contains-In s a i)

trigrams_behind : (x : ℕ) (s t : Str) → In t (trigrams s) → In t (trigrams (x ∷ s))
unfolding trigrams
trigrams_behind x [] t i = elim i [ ]
trigrams_behind x (a ∷ []) t i = elim i [ ]
trigrams_behind x (a ∷ b ∷ []) t i = elim i [ ]
trigrams_behind x (a ∷ b ∷ c ∷ s) t i = inr i

trigrams_front : (s u t : Str) → In t (trigrams s) → In t (trigrams (s ++ u))
unfolding trigrams
trigrams_front [] u t i = elim i [ ]
trigrams_front (a ∷ []) u t i = elim i [ ]
trigrams_front (a ∷ b ∷ []) u t i = elim i [ ]
trigrams_front (a ∷ b ∷ c ∷ s) u t (inl e) = inl e
trigrams_front (a ∷ b ∷ c ∷ s) u t (inr i) = inr (trigrams_front (b ∷ c ∷ s) u t i)

-- The trigrams of a string are among those of any text around it.
pub trigrams_within :
    (before s after t : Str) → In t (trigrams s) → In t (trigrams (before ++ (s ++ after)))
trigrams_within [] s after t i = trigrams_front s after t i
trigrams_within (x ∷ before) s after t i =
    trigrams_behind x (before ++ (s ++ after)) t (trigrams_within before s after t i)

and_true : (b : Bool) → (b && true) ≡ b
and_true true = refl
and_true false = refl

or_assoc : (a b c : Bool) → ((a || b) || c) ≡ (a || (b || c))
or_assoc true b c = refl
or_assoc false b c = refl

module _ (d : Str → Bool) where
  all_trigrams_formed : (s : Str) → well_formed (query q_and (clean (trigrams s)) nil) ≡ true
  unfolding well_formed
  all_trigrams_formed s = refl

  -- The AND of the trigrams of a string, as `andTrigrams` makes it.
  abbrev all_trigrams : Str → Query
  all_trigrams s = query q_and (clean (trigrams s)) nil

  all_trigrams-matches :
      (s : Str) → matches d (all_trigrams s) ≡ holds_trigrams q_and d (trigrams s)
  unfolding matches holds_subs
  all_trigrams-matches s =
      ap (λ b. b && true) (holds_trigrams-clean d q_and (trigrams s) (inl refl))
      ∙ and_true (holds_trigrams q_and d (trigrams s))

  -- One of the strings has all of its trigrams in the text.
  unfoldable pub some_string : List Str → Bool
  some_string [] = false
  some_string (s ∷ t) = holds_trigrams q_and d (trigrams s) || some_string t

  or_trigrams_lem :
      (or : Query) (t : List Str)
      → well_formed or ≡ true
      → (well_formed (or_trigrams or t) ≡ true)
        × (matches d (or_trigrams or t) ≡ (matches d or || some_string t))
  unfolding or_trigrams some_string
  or_trigrams_lem or [] w = (w, ground arith)
  or_trigrams_lem or (s ∷ t) w =
      let j = query_or-Joins d or (all_trigrams s) w (all_trigrams_formed s) in
      let (formed, means) = or_trigrams_lem (query_or or (all_trigrams s)) t j.formed in
      (
        formed,
        means
            ∙ rw (j.means, all_trigrams-matches s)
                (or_assoc (matches d or) (holds_trigrams q_and d (trigrams s)) (some_string t)),
      )

  -- `andTrigrams` adds nothing if a string is shorter than a trigram, and otherwise asks for all
  -- the trigrams of one of the strings.
  pub and_trigrams-Joins :
      (q : Query) (t : List Str)
      → well_formed q ≡ true
      → (well_formed (and_trigrams q t) ≡ true)
        × (matches d (and_trigrams q t) ≡ (matches d q && (ltb (min_len t) 3 || some_string t)))
  unfolding and_trigrams
  and_trigrams-Joins q t w = elim (Bool-cases (ltb (min_len t) 3)) [
    | inl e ↦ rw e (w, sym (and_true (matches d q)))
    | inr e ↦
        let (formed, means) = or_trigrams_lem none_query t none_formed in
        let j = query_and-Joins d q (or_trigrams none_query t) w formed in
        rw e (j.formed, j.means ∙ ap (λ b. matches d q && b) (means ∙ none_false (some_string t)))
  ]
    where
      none_formed : well_formed none_query ≡ true
      none_formed = unfold well_formed in refl

      none_false : (b : Bool) → (matches d none_query || b) ≡ b
      none_false b = unfold matches in refl

  some_string-In :
      (s : Str) (t : List Str)
      → In s t
      → holds_trigrams q_and d (trigrams s) ≡ true
      → some_string t ≡ true
  unfolding some_string
  some_string-In s [] i h = elim i [ ]
  some_string-In s (x ∷ t) (inl e) h = rw (← e, h)
  some_string-In s (x ∷ t) (inr i) h = ground (arith, some_string-In s t i h)

-- From a well-formed query `andTrigrams` never drops a text that the query matched and that holds
-- one of the strings.
pub and_trigrams_keeps :
    (q : Query) (t : List Str) (before s after : Str)
    → well_formed q ≡ true
    → In s t
    → matches (has_trigram (before ++ (s ++ after))) q ≡ true
    → matches (has_trigram (before ++ (s ++ after))) (and_trigrams q t) ≡ true
and_trigrams_keeps q t before s after w i m =
    let d = has_trigram (before ++ (s ++ after)) in
    let all : holds_trigrams q_and d (trigrams s) ≡ true = holds_and_of d (trigrams s) (λ a k.
      contains-In (trigrams (before ++ (s ++ after))) a (trigrams_within before s after a k)) in
    (and_trigrams-Joins d q t w).1
    ∙ rw (m, some_string-In d s t i all) (or_true (ltb (min_len t) 3))
  where
    or_true : (b : Bool) → (true && (b || true)) ≡ true
    or_true true = refl
    or_true false = refl
