-- ===== src/Index/Analyze/Cover.antt =====
-- Sets of strings that every text starts or ends with, and what `simplifySet` makes of them.
use mathlib.Core.List.{append_assoc}
use codesearch.Common.{ℕ, zero, suc, ◌+◌, ◌-◌, ◌≡◌, refl, arith, ◌∙◌, ap, sym, subst}
use codesearch.Common.{Bool, true, false, Bool-cases, inl, inr, List, [], ◌∷◌, ◌++◌, map, In}
use codesearch.Common.{ltb, leb, ◌==◌, if◌then◌else◌, length, take, drop}
use codesearch.Common.Strings.{Str, str_lt}
use codesearch.Index.StringSet.{compact}
use codesearch.Index.StringSet.Laws.{In-clean_by, compact-In}
use codesearch.Index.Analyze.{max_set}
use codesearch.Index.Analyze.Sets.{
  reversed, clean_set, suffix_lt, shorten, shrink, has_prefix, is_covered, uncovered,
  without_covered, simplified_set,
}

-- The text starts with the string, or ends with it.
abbrev pub Covers : Bool → Str → Str → Type 0
Covers false a s = (b : Str) × (s ≡ a ++ b)
Covers true a s = (b : Str) × (s ≡ b ++ a)

-- One of the strings covers the text.
abbrev pub Reaches : Bool → List Str → Str → Type 0
Reaches f t s = (a : Str) × In a t × Covers f a s

pub append_end : (s : Str) → s ≡ s ++ []
append_end [] = refl
append_end (x ∷ s) = ap (λ t. x ∷ t) (append_end s)

pub Covers-refl : (f : Bool) (s : Str) → Covers f s s
Covers-refl false s = ([], append_end s)
Covers-refl true s = ([], refl)

Covers-trans : (f : Bool) (a b s : Str) → Covers f a b → Covers f b s → Covers f a s
Covers-trans false a b s (u, e) (v, k) = (u ++ v, k ∙ ap (λ t. t ++ v) e ∙ append_assoc a u v)
Covers-trans true a b s (u, e) (v, k) = (v ++ u, k ∙ ap (λ t. v ++ t) e ∙ sym (append_assoc v u a))

pub Reaches-of_In : (f : Bool) (t : List Str) (s : Str) → In s t → Reaches f t s
Reaches-of_In f t s i = (s, i, Covers-refl f s)

pub Reaches-sub :
    (f : Bool) (t t' : List Str) (s : Str)
    → ((a : Str) → In a t → In a t')
    → Reaches f t s
    → Reaches f t' s
Reaches-sub f t t' s h (a, i, c) = (a, h a i, c)

pub In-map : {A B : Type 0} (g : A → B) (a : A) (t : List A) → In a t → In (g a) (map g t)
In-map g a [] i = i
In-map g a (x ∷ t) (inl e) = inl (ap g e)
In-map g a (x ∷ t) (inr i) = inr (In-map g a t i)

pub Reaches-map :
    (f : Bool) (g : Str → Str) (t : List Str) (s : Str)
    → ((a : Str) → Covers f (g a) a)
    → Reaches f t s
    → Reaches f (map g t) s
Reaches-map f g t s h (a, i, c) = (g a, In-map g a t i, Covers-trans f (g a) a s (h a) c)

pub Reaches-clean_set :
    (f g : Bool) (t : List Str) (s : Str) → Reaches f t s → Reaches f (clean_set g t) s
Reaches-clean_set f g t s =
    Reaches-sub f t (clean_set g t) s
      (λ a i. (In-clean_by (if g then suffix_lt else str_lt) a t).1 i)

take-drop : (n : ℕ) (s : Str) → s ≡ take n s ++ drop n s
take-drop zero s = refl
take-drop (suc n) [] = refl
take-drop (suc n) (x ∷ s) = ap (λ t. x ∷ t) (take-drop n s)

pub take-Covers : (n : ℕ) (s : Str) → Covers false (take n s) s
take-Covers n s = (drop n s, take-drop n s)

pub drop-Covers : (n : ℕ) (s : Str) → Covers true (drop n s) s
drop-Covers n s = (take n s, take-drop n s)

shorten-Covers : (f : Bool) (n : ℕ) (s : Str) → Covers f (shorten f n s) s
unfolding shorten
shorten-Covers f n s = elim (Bool-cases (leb n (length s))) [
  | inr e ↦ rw e (Covers-refl f s)
  | inl e ↦ rw e (long f)
]
  where
    long : (g : Bool) → Covers g (if g then drop (length s - n + 1) s else take (n - 1) s) s
    long false = take-Covers (n - 1) s
    long true = drop-Covers (length s - n + 1) s

shrink-Reaches :
    (f : Bool) (n : ℕ) (t : List Str) (s : Str) → Reaches f t s → Reaches f (shrink f n t) s
unfolding shrink
shrink-Reaches f zero t s h = h
shrink-Reaches f (suc n) t s h =
    let t' = compact (map (shorten f (suc n)) t) in
    let once : Reaches f (clean_set f t') s = Reaches-clean_set f f t' s (
      Reaches-sub f (map (shorten f (suc n)) t) t' s (compact-In (map (shorten f (suc n)) t))
        (Reaches-map f (shorten f (suc n)) t s (shorten-Covers f (suc n)) h)) in
    elim (Bool-cases (ltb max_set (length (clean_set f t')))) [
      | inl e ↦ rw e (shrink-Reaches f n (clean_set f t') s once)
      | inr e ↦ rw e once
    ]

reversed-append : (s t : Str) → reversed (s ++ t) ≡ reversed t ++ reversed s
unfolding reversed
reversed-append [] t = append_end (reversed t)
reversed-append (x ∷ s) t =
    ap (λ u. u ++ (x ∷ [])) (reversed-append s t) ∙ append_assoc (reversed t) (reversed s) (x ∷ [])

reversed_twice : (s : Str) → reversed (reversed s) ≡ s
unfolding reversed
reversed_twice [] = refl
reversed_twice (x ∷ s) = reversed-append (reversed s) (x ∷ []) ∙ ap (λ t. x ∷ t) (reversed_twice s)

has_prefix-Covers : (s p : Str) → has_prefix s p ≡ true → Covers false p s
unfolding has_prefix
has_prefix-Covers s [] h = (s, refl)
has_prefix-Covers [] (x ∷ p) h = ground arith
has_prefix-Covers (y ∷ s) (x ∷ p) h = elim (Bool-cases (x == y)) [
  | inr e ↦ absurd (ground (arith, h, e))
  | inl e ↦ let (b, k) = has_prefix-Covers s p (ground (arith, h, e)) in (b, ground (arith, k, e))
]

is_covered-Covers : (f : Bool) (s p : Str) → is_covered f s p ≡ true → Covers f p s
is_covered-Covers false s p h = has_prefix-Covers s p h
is_covered-Covers true s p h =
    let (b, k) = has_prefix-Covers (reversed s) (reversed p) h in
    (
      reversed b,
      sym (reversed_twice s)
          ∙ ap reversed k
          ∙ reversed-append (reversed p) b
          ∙ ap (λ t. reversed b ++ t) (reversed_twice p),
    )

uncovered-Reaches :
    (f : Bool) (last : Str) (t : List Str) (s : Str)
    → Reaches f (last ∷ t) s
    → Reaches f (last ∷ uncovered f last t) s
unfolding uncovered
uncovered-Reaches f last [] s h = h
uncovered-Reaches f last (str ∷ t) s (a, inl e, c) = (a, inl e, c)
uncovered-Reaches f last (str ∷ t) s (a, inr i, c) = elim (Bool-cases (is_covered f str last)) [
  | inr k ↦ let (b, j, d) = uncovered-Reaches f str t s (a, i, c) in rw (k, uncovered) (b, inr j, d)
  | inl k ↦
      rw (k, uncovered)
        (uncovered-Reaches f last t s (elim i [
          | inl e ↦ (
            last,
            inl refl,
            Covers-trans f last a s
                (subst (λ x. Covers f last x) (sym e) (is_covered-Covers f str last k)) c,
          )
          | inr j ↦ (a, inr j, c)
        ]))
]

-- `simplifySet` keeps a string that each text starts or ends with.
pub simplified_set-Reaches :
    (f : Bool) (t : List Str) (s : Str) → Reaches f t s → Reaches f (simplified_set f t) s
unfolding simplified_set without_covered
simplified_set-Reaches f t s h =
    without (shrink f 3 (clean_set f t))
      (shrink-Reaches f 3 (clean_set f t) s (Reaches-clean_set f f t s h))
  where
    without : (u : List Str) → Reaches f u s → Reaches f (without_covered f u) s
    without [] k = k
    without (x ∷ u) k = uncovered-Reaches f x u s k
