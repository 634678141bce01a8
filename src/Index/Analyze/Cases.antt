-- ===== src/Index/Analyze/Cases.antt =====
-- What `analyze` says of literals, of classes and of what is repeated.
use codesearch.Common.{ℕ, zero, suc, ◌+◌, ◌≤◌, ◌≡◌, refl, arith, ◌∙◌, ap, sym, subst}
use codesearch.Common.{Bool, true, false, Bool-cases, inl, inr}
use codesearch.Common.{List, [], ◌∷◌, In, ltb, ◌==◌, In-append_left, In-append_right}
use codesearch.Common.Strings.{Str}
use codesearch.Index.Query.{all_query}
use codesearch.Index.Query.Logic.{matches, well_formed}
use codesearch.Index.Analyze.{
  RegexpInfo, Platform, RuneClass, RuneRange, one_rune, rune_pairs, runes_bytes, rune_bytes,
  exactly, any_match_info, any_char_info, no_match_info, empty_string_info,
}
use codesearch.Index.Analyze.Simplify.{simplify}
use codesearch.Index.Analyze.Walk.{total_span, range_strings, class_strings, analyze_class}
use codesearch.Index.Analyze.Cover.{append_end}
use codesearch.Index.Analyze.Keep.{Keeps, Tells, IsFormed, simplify-Tells, simplify-IsFormed}
use codesearch.Index.Analyze.Texts.{InRanges, ClassText}

-- An info that tells of all these texts.
abbrev pub TellsAll : (Str → Type 0) → RegexpInfo → Type 0
TellsAll P info = IsFormed info × ((s : Str) → P s → Tells info s)

all_formed : well_formed all_query ≡ true
unfolding well_formed
all_formed = refl

all_kept : (s : Str) → Keeps all_query s
unfolding matches
all_kept s before after = refl

pub exactly-TellsAll :
    (P : Str → Type 0) (c : Bool) (set : List Str) (cap : ℕ)
    → ((s : Str) → P s → In s set)
    → TellsAll P (exactly c set cap)
exactly-TellsAll P c set cap h = (all_formed, λ s k. record { known = h s k; keeps = all_kept s })

pub any_char-TellsAll : (P : Str → Type 0) → TellsAll P any_char_info
any_char-TellsAll P = (
  all_formed,
  λ s k. record {
    known = (([], inl refl, (s, refl)), ([], inl refl, (s, append_end s)));
    keeps = all_kept s;
  },
)

pub any_match-TellsAll : (P : Str → Type 0) → TellsAll P any_match_info
any_match-TellsAll P = (
  all_formed,
  λ s k. record {
    known = (([], inl refl, (s, refl)), ([], inl refl, (s, append_end s)));
    keeps = all_kept s;
  },
)

pub no_match-TellsAll : (P : Str → Type 0) → ((s : Str) → ¬ P s) → TellsAll P no_match_info
unfolding well_formed
no_match-TellsAll P h = (refl, λ s k. absurd (h s k))

pub simplify-TellsAll :
    (P : Str → Type 0) (force : Bool) (info : RegexpInfo)
    → TellsAll P info
    → TellsAll P (simplify force info)
simplify-TellsAll P force info (w, h) =
    (simplify-IsFormed force info w, λ s k. simplify-Tells force info s w (h s k))

In-range_strings : (lo n r : ℕ) → lo ≤ r → r ≤ lo + n → In (rune_bytes r) (range_strings lo n)
unfolding range_strings
In-range_strings lo zero r a b = let same : r ≡ lo = omega (arith, a, b) in inl (ap rune_bytes same)
In-range_strings lo (suc n) r a b = elim (Bool-cases (r == lo)) [
  | inl e ↦ let same : r ≡ lo = ground arith in inl (ap rune_bytes same)
  | inr e ↦ inr (In-range_strings (lo + 1) n r (ground (arith, a, e)) (omega (arith, b)))
]

In-class_strings :
    (rs : List RuneRange) (r : ℕ) → InRanges rs r → In (rune_bytes r) (class_strings rs)
unfolding class_strings
In-class_strings [] r i = elim i [ ]
In-class_strings (x ∷ rs) r (inl (a, b)) =
    In-append_left (rune_bytes r) (range_strings x.lo x.span) (class_strings rs)
      (In-range_strings x.lo x.span r a b)
In-class_strings (x ∷ rs) r (inr i) =
    In-append_right (rune_bytes r) (range_strings x.lo x.span) (class_strings rs)
      (In-class_strings rs r i)

pub analyze_class-TellsAll :
    (p : Platform) (c : RuneClass) → TellsAll (ClassText c) (analyze_class p c)
unfolding analyze_class
analyze_class-TellsAll p (one_rune x) = simplify-TellsAll _ false _ (
    exactly-TellsAll (ClassText (one_rune x)) false (rune_bytes x ∷ []) 1
      (λ s (r, e, k). inl (k ∙ ap rune_bytes e)))
analyze_class-TellsAll p (rune_pairs []) =
    no_match-TellsAll (ClassText (rune_pairs [])) (λ s (r, i, k). i)
analyze_class-TellsAll p (rune_pairs (x ∷ rs)) = elim (Bool-cases (ltb 100 (total_span (x ∷ rs)))) [
  | inl e ↦ rw e (any_char-TellsAll (ClassText (rune_pairs (x ∷ rs))))
  | inr e ↦ rw e (
      simplify-TellsAll _ false _ (
        exactly-TellsAll (ClassText (rune_pairs (x ∷ rs))) false (class_strings (x ∷ rs)) _
          (λ s (r, i, k).
            subst (λ t. In t (class_strings (x ∷ rs))) (sym k) (In-class_strings (x ∷ rs) r i))))
]

pub empty_string-TellsAll : TellsAll (λ s. s ≡ []) empty_string_info
empty_string-TellsAll = exactly-TellsAll (λ s. s ≡ []) true ([] ∷ []) 1 (λ s e. inl e)

pub weaken :
    (P Q : Str → Type 0) (info : RegexpInfo)
    → ((s : Str) → P s → Q s)
    → TellsAll Q info
    → TellsAll P info
weaken P Q info f (w, h) = (w, λ s k. h s (f s k))

pub literal-TellsAll :
    (rs : List ℕ)
    → TellsAll (λ s. s ≡ runes_bytes rs) (simplify false (exactly false (runes_bytes rs ∷ []) 1))
literal-TellsAll rs =
    simplify-TellsAll _ false _
      (exactly-TellsAll (λ s. s ≡ runes_bytes rs) false (runes_bytes rs ∷ []) 1 (λ s e. inl e))
