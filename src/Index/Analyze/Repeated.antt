-- ===== src/Index/Analyze/Repeated.antt =====
-- What is repeated starts and ends like what is repeated.
use mathlib.Core.List.{append_assoc}
use codesearch.Common.{ℕ, zero, suc, ◌≡◌, ◌⊎◌, refl, arith, ◌∙◌, ap, sym, subst}
use codesearch.Common.{true, false, Option-cases, Option, none, some, inl, inr}
use codesearch.Common.{List, [], ◌++◌}
use codesearch.Common.Strings.{Str}
use codesearch.Index.Analyze.{RegexpInfo}
use codesearch.Index.Analyze.Simplify.{simplify}
use codesearch.Index.Analyze.Walk.{once_or_more}
use codesearch.Index.Analyze.Cover.{Reaches, Reaches-of_In, append_end}
use codesearch.Index.Analyze.Keep.{Keeps, Keeps-front, Known, Tells}
use codesearch.Index.Analyze.Join.{Reaches-front, Reaches-back}
use codesearch.Index.Analyze.Texts.{Power}
use codesearch.Index.Analyze.Cases.{TellsAll, simplify-TellsAll}

-- The first of the texts in a row, and the last.
power_first :
    (P : Str → Type 0) (n : ℕ) (s : Str) → Power P (suc n) s → (u v : Str) × (s ≡ u ++ v) × P u
power_first P n s (u, v, e, k, more) = (u, v, e, k)

power_last :
    (P : Str → Type 0) (n : ℕ) (s : Str) → Power P (suc n) s → (u v : Str) × (s ≡ u ++ v) × P v
power_last P zero s (u, v, e, k, more) = ([], u, e ∙ ap (λ x. u ++ x) more ∙ sym (append_end u), k)
power_last P (suc n) s (u, v, e, k, more) =
    let (a, b, g, m) = power_last P n v more in
    (u ++ a, b, e ∙ ap (λ x. u ++ x) g ∙ sym (append_assoc u a b), m)

repeated :
    (o : Option (List Str)) (ps qs : List Str) (P : Str → Type 0) (n : ℕ) (s : Str)
    → ((t : Str) → P t → Known o ps qs t)
    → Power P (suc n) s
    → (a b : List Str) → (o ≡ some a × (a ≡ b)) ⊎ ((o ≡ none) × ((a ≡ ps) × (b ≡ qs)))
    → Reaches false a s × Reaches true b s
repeated o ps qs P n s h k a b c =
    let (u, v, e, ku) = power_first P n s k in
    let (x, y, g, ky) = power_last P n s k in
    (
      subst (λ t. Reaches false a t) (sym e) (Reaches-front a u v (front o u (h u ku) c)),
      subst (λ t. Reaches true b t) (sym g) (Reaches-back b x y (back o y (h y ky) c)),
    )
  where
    front :
        (o : Option (List Str)) (t : Str)
        → Known o ps qs t
        → (o ≡ some a × (a ≡ b)) ⊎ ((o ≡ none) × ((a ≡ ps) × (b ≡ qs)))
        → Reaches false a t
    front none t m (inl (e, f)) = ground arith
    front none t m (inr (e, (f, g))) = rw f m.0
    front (some z) t m (inl (e, f)) =
        let same : a ≡ z = ground arith in Reaches-of_In false a t (rw same m)
    front (some z) t m (inr (e, f)) = ground arith

    back :
        (o : Option (List Str)) (t : Str)
        → Known o ps qs t
        → (o ≡ some a × (a ≡ b)) ⊎ ((o ≡ none) × ((a ≡ ps) × (b ≡ qs)))
        → Reaches true b t
    back none t m (inl (e, f)) = ground arith
    back none t m (inr (e, (f, g))) = rw g m.1
    back (some z) t m (inl (e, f)) =
        let same : b ≡ z = ground arith in Reaches-of_In true b t (rw same m)
    back (some z) t m (inr (e, f)) = ground arith

still_kept :
    (P : Str → Type 0) (info : RegexpInfo) (n : ℕ) (s : Str)
    → ((t : Str) → P t → Tells info t)
    → Power P (suc n) s
    → Keeps info.query s
still_kept P info n s h k =
    let (u, v, e, m) = power_first P n s k in
    subst (λ t. Keeps info.query t) (sym e) (Keeps-front info.query u v (h u m).keeps)

once_or_more-none :
    (info : RegexpInfo) → info.exact ≡ none → once_or_more info ≡ simplify false info
unfolding once_or_more
once_or_more-none info e =
    ap
      (λ o. elim o as (λ z. RegexpInfo) [
        | none ↦ simplify false info
        | some x ↦ simplify false (record info { exact = none; cap = 0; prefix = x; suffix = x })
      ])
      e

once_or_more-some :
    (info : RegexpInfo) (x : List Str)
    → info.exact ≡ some x
    → once_or_more info
      ≡ simplify false (record info { exact = none; cap = 0; prefix = x; suffix = x })
unfolding once_or_more
once_or_more-some info x e = rw (e, once_or_more) refl

pub once_or_more-TellsAll :
    (P : Str → Type 0) (info : RegexpInfo)
    → TellsAll P info
    → TellsAll (λ s. (n : ℕ) × Power P (suc n) s) (once_or_more info)
once_or_more-TellsAll P info (w, h) =
    let R = λ (s : Str). (n : ℕ) × Power P (suc n) s in
    elim (Option-cases info.exact) [
      | inl e ↦
          subst (λ i. TellsAll R i) (sym (once_or_more-none info e))
            (simplify-TellsAll R false info (
              w,
              λ s (n, k). record {
                known =
                    subst (λ o. Known o info.prefix info.suffix s) (sym e)
                      (repeated info.exact info.prefix info.suffix P n s (λ t m. (h t m).known) k
                        info.prefix info.suffix (inr (e, (refl, refl))));
                keeps = still_kept P info n s h k;
              },
            ))
      | inr (x, e) ↦
          subst (λ i. TellsAll R i) (sym (once_or_more-some info x e))
            (simplify-TellsAll R false
              (record info { exact = none; cap = 0; prefix = x; suffix = x })
              (
                w,
                λ s (n, k). record {
                  known =
                      repeated info.exact info.prefix info.suffix P n s (λ t m. (h t m).known) k x x
                        (inl (e, refl));
                  keeps = still_kept P info n s h k;
                },
              ))
    ]
