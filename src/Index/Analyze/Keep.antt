-- ===== src/Index/Analyze/Keep.antt =====
-- What a `regexpInfo` says of a text that matches, and that `simplify` keeps it true.
use mathlib.Core.List.{append_assoc}
use codesearch.Common.{ℕ, ◌≡◌, refl, ◌∙◌, ap, sym, subst}
use codesearch.Common.{
  Bool, true, false, Bool-cases, Option-cases, ◌-◌, Option, none, some, inl, inr,
}
use codesearch.Common.{List, ◌++◌, map, In, ltb, length, In-append_right}
use codesearch.Common.Strings.{Str, str_lt}
use codesearch.Index.StringSet.Laws.{In-clean_by}
use codesearch.Index.Query.{Query, and_trigrams}
use codesearch.Index.Query.Logic.{matches, well_formed}
use codesearch.Index.Query.Trigrams.{has_trigram, and_trigrams_keeps, and_trigrams-Joins}
use codesearch.Index.Analyze.{RegexpInfo}
use codesearch.Index.Analyze.Sets.{clean_set, simplified_set}
use codesearch.Index.Analyze.Simplify.{
  add_exact, simplify_prefix, simplify_suffix, front_of, back_of, is_too_big, forget_exact,
  simplify,
}
use codesearch.Index.Analyze.Cover.{
  Covers, Covers-refl, Reaches, Reaches-of_In, Reaches-clean_set, Reaches-sub, Reaches-map,
  take-Covers, drop-Covers, simplified_set-Reaches,
}

-- Every text around the string matches.
abbrev pub Keeps : Query → Str → Type 0
Keeps q s = (before after : Str) → matches (has_trigram (before ++ (s ++ after))) q ≡ true

pub Keeps-front : (q : Query) (u v : Str) → Keeps q u → Keeps q (u ++ v)
Keeps-front q u v k before after =
    subst (λ t. matches (has_trigram (before ++ t)) q ≡ true) (sym (append_assoc u v after))
      (k before (v ++ after))

pub Keeps-back : (q : Query) (u v : Str) → Keeps q v → Keeps q (u ++ v)
Keeps-back q u v k before after =
    subst (λ t. matches (has_trigram t) q ≡ true)
      (append_assoc before u (v ++ after) ∙ ap (λ t. before ++ t) (sym (append_assoc u v after)))
      (k (before ++ u) after)

-- A query that is well formed still is with trigrams added.
pub formed :
    (q : Query) (t : List Str) → well_formed q ≡ true → well_formed (and_trigrams q t) ≡ true
formed q t w = (and_trigrams-Joins (λ s. true) q t w).0

-- Trigrams of strings of which one covers the text.
pub Keeps-and_trigrams :
    (f : Bool) (q : Query) (t : List Str) (s : Str)
    → well_formed q ≡ true
    → Keeps q s
    → Reaches f t s
    → Keeps (and_trigrams q t) s
Keeps-and_trigrams false q t s w k (a, i, (b, e)) before after =
    let around : before ++ (a ++ (b ++ after)) ≡ before ++ (s ++ after) =
      ap (λ x. before ++ x) (sym (append_assoc a b after) ∙ ap (λ x. x ++ after) (sym e)) in
    subst (λ x. matches (has_trigram x) (and_trigrams q t) ≡ true) around
      (and_trigrams_keeps q t before a (b ++ after) w i
        (subst (λ x. matches (has_trigram x) q ≡ true) (sym around) (k before after)))
Keeps-and_trigrams true q t s w k (a, i, (b, e)) before after =
    let around : (before ++ b) ++ (a ++ after) ≡ before ++ (s ++ after) =
      append_assoc before b (a ++ after)
      ∙ ap (λ x. before ++ x) (sym (append_assoc b a after) ∙ ap (λ x. x ++ after) (sym e)) in
    subst (λ x. matches (has_trigram x) (and_trigrams q t) ≡ true) around
      (and_trigrams_keeps q t (before ++ b) a after w i
        (subst (λ x. matches (has_trigram x) q ≡ true) (sym around) (k before after)))

-- The exact set has the string, or else it starts and ends with members of the others.
abbrev pub Known : Option (List Str) → List Str → List Str → Str → Type 0
Known (some e) ps qs s = In s e
Known none ps qs s = Reaches false ps s × Reaches true qs s

-- What an info says of a string that matches.
pub record Tells (info : RegexpInfo) (s : Str) : Type 0 where
  pub known : Known info.exact info.prefix info.suffix s
  pub keeps : Keeps info.query s

abbrev pub IsFormed : RegexpInfo → Type 0
IsFormed info = well_formed info.query ≡ true

-- The same, from what is said of the fields.
tell :
    (c : Bool) (o : Option (List Str)) (n : ℕ) (ps qs : List Str) (q : Query) (s : Str)
    → Known o ps qs s
    → Keeps q s
    → Tells (record { can_empty = c; exact = o; cap = n; prefix = ps; suffix = qs; query = q }) s
tell c o n ps qs q s k m = record { known = k; keeps = m }

add_exact_fields :
    (c : Bool) (o : Option (List Str)) (n : ℕ) (ps qs : List Str) (q : Query) (s : Str)
    → well_formed q ≡ true
    → Known o ps qs s
    → Keeps q s
    → Tells
        (add_exact
          (record { can_empty = c; exact = o; cap = n; prefix = ps; suffix = qs; query = q }))
        s
unfolding add_exact
add_exact_fields c none n ps qs q s w k m = record { known = k; keeps = m }
add_exact_fields c (some e) n ps qs q s w k m = record {
  known = k;
  keeps = Keeps-and_trigrams false q e s w m (Reaches-of_In false e s k);
}

pub add_exact-Tells :
    (info : RegexpInfo) (s : Str) → IsFormed info → Tells info s → Tells (add_exact info) s
add_exact-Tells info s w t =
    add_exact_fields info.can_empty info.exact info.cap info.prefix info.suffix info.query s w
      t.known t.keeps

pub add_exact-IsFormed : (info : RegexpInfo) → IsFormed info → IsFormed (add_exact info)
unfolding add_exact
add_exact-IsFormed info w = elim (Option-cases info.exact) [
  | inl e ↦ rw (e, add_exact) w
  | inr (x, e) ↦ rw (e, add_exact) (formed info.query x w)
]

front_of-Covers : (s : Str) → Covers false (front_of s) s
front_of-Covers s = elim (Bool-cases (ltb (length s) 3)) [
  | inl e ↦ rw e (Covers-refl false s)
  | inr e ↦ rw e (take-Covers 2 s)
]

back_of-Covers : (s : Str) → Covers true (back_of s) s
back_of-Covers s = elim (Bool-cases (ltb (length s) 3)) [
  | inl e ↦ rw e (Covers-refl true s)
  | inr e ↦ rw e (drop-Covers (length s - 2) s)
]

-- The sets without an exact one.
loose :
    (info : RegexpInfo) (s : Str)
    → IsFormed info
    → info.exact ≡ none
    → Reaches false info.prefix s
    → Reaches true info.suffix s
    → Keeps info.query s
    → Tells (simplify_suffix (simplify_prefix info)) s
loose info s w e front back k =
    let ps = clean_set false info.prefix in
    let qs = clean_set true info.suffix in
    let one =
      Keeps-and_trigrams false info.query ps s w k
        (Reaches-clean_set false false info.prefix s front) in
    tell info.can_empty info.exact info.cap _ _ _ s
      (subst (λ o. Known o (simplified_set false info.prefix) (simplified_set true info.suffix) s)
        (sym e)
        (
          simplified_set-Reaches false info.prefix s front,
          simplified_set-Reaches true info.suffix s back,
        ))
      (Keeps-and_trigrams true (and_trigrams info.query ps) qs s (formed info.query ps w) one
        (Reaches-clean_set true true info.suffix s back))

cleaned : (e : List Str) (s : Str) → In s e → In s (clean_set false e)
cleaned e s i = (In-clean_by str_lt s e).1 i

forgotten :
    (info : RegexpInfo) (e : List Str) (s : Str)
    → IsFormed info
    → In s e
    → Keeps info.query s
    → Tells (simplify_suffix (simplify_prefix (forget_exact info e))) s
forgotten info e s w i k =
    loose (forget_exact info e) s (formed info.query e w) refl
      (Reaches-sub false (map front_of e) (info.prefix ++ map front_of e) s
        (λ a j. In-append_right a info.prefix (map front_of e) j)
        (Reaches-map false front_of e s front_of-Covers (Reaches-of_In false e s i)))
      (Reaches-sub true (map back_of e) (info.suffix ++ map back_of e) s
        (λ a j. In-append_right a info.suffix (map back_of e) j)
        (Reaches-map true back_of e s back_of-Covers (Reaches-of_In true e s i)))
      (Keeps-and_trigrams false info.query e s w k (Reaches-of_In false e s i))

-- `simplify` keeps what is told of a string.
pub simplify-Tells :
    (force : Bool) (info : RegexpInfo) (s : Str)
    → IsFormed info
    → Tells info s
    → Tells (simplify force info) s
unfolding simplify
simplify-Tells force info s w t = elim (Option-cases info.exact) [
  | inl e ↦
      let (front, back) = subst (λ o. Known o info.prefix info.suffix s) e t.known in
      rw (e, simplify) (loose info s w e front back t.keeps)
  | inr (x, e) ↦
      let i = cleaned x s (subst (λ o. Known o info.prefix info.suffix s) e t.known) in
      elim (Bool-cases (is_too_big force (clean_set false x))) [
        | inl b ↦ rw (e, b, simplify) (forgotten info (clean_set false x) s w i t.keeps)
        | inr b ↦ rw (e, b, simplify) (tell info.can_empty _ info.cap _ _ _ s i t.keeps)
      ]
]

pub simplify-IsFormed :
    (force : Bool) (info : RegexpInfo) → IsFormed info → IsFormed (simplify force info)
unfolding simplify
simplify-IsFormed force info w = elim (Option-cases info.exact) [
  | inl e ↦ rw (e, simplify) (formed _ _ (formed _ _ w))
  | inr (x, e) ↦ elim (Bool-cases (is_too_big force (clean_set false x))) [
    | inl b ↦ rw (e, b, simplify) (formed _ _ (formed _ _ (formed _ _ w)))
    | inr b ↦ rw (e, b, simplify) w
  ]
]
