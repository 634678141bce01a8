-- ===== src/Index/Analyze/Either.antt =====
-- `alternate` tells of a text what one of its two parts tells.
use codesearch.Common.{◌+◌, ◌≡◌, ◌⊎◌, refl, arith, subst}
use codesearch.Common.{
  Bool, true, false, ◌||◌, Bool-cases, Option-cases, Option, none, some, inl, inr,
}
use codesearch.Common.{List, ◌++◌, In, leb, length, In-append_left, In-append_right}
use codesearch.Common.Strings.{Str, str_lt}
use codesearch.Index.StringSet.Laws.{In-clean_by}
use codesearch.Index.Query.{Query, query_or}
use codesearch.Index.Query.Logic.{well_formed}
use codesearch.Index.Query.Meaning.{query_or-Joins}
use codesearch.Index.Analyze.{RegexpInfo, Platform}
use codesearch.Index.Analyze.Sets.{union_set}
use codesearch.Index.Analyze.Simplify.{add_exact, simplify}
use codesearch.Index.Analyze.Combine.{alternate_sets, alternate}
use codesearch.Index.Analyze.Cover.{Reaches, Reaches-of_In}
use codesearch.Index.Analyze.Keep.{
  Keeps, Known, Tells, IsFormed, add_exact-Tells, add_exact-IsFormed, simplify-Tells,
  simplify-IsFormed,
}
use codesearch.Index.Analyze.Join.{Keeps-query_or, Reaches-union_left, Reaches-union_right}

In-union_set : (s t : List Str) (x : Str) → In x s ⊎ In x t → In x (union_set s t false)
In-union_set s t x h =
    (In-clean_by str_lt x (s ++ t)).1
      (elim h [ inl i ↦ In-append_left x s t i | inr j ↦ In-append_right x s t j ])

Reaches-union :
    (f : Bool) (s t : List Str) (x : Str)
    → Reaches f s x ⊎ Reaches f t x
    → Reaches f (union_set s t f) x
Reaches-union f s t x (inl h) = Reaches-union_left f s t x h
Reaches-union f s t x (inr h) = Reaches-union_right f s t x h

-- What an exact set or the other two say.
front-Known :
    (o : Option (List Str)) (ps qs : List Str) (s : Str)
    → Known o ps qs s
    → (t : List Str) → (o ≡ some t) ⊎ ((o ≡ none) × (t ≡ ps))
    → Reaches false t s
front-Known none ps qs s (front, back) t (inl e) = ground arith
front-Known none ps qs s (front, back) t (inr (e, g)) = rw g front
front-Known (some x) ps qs s k t (inl e) =
    Reaches-of_In false t s (let same : t ≡ x = ground arith in rw same k)
front-Known (some x) ps qs s k t (inr (e, g)) = ground arith

back-Known :
    (o : Option (List Str)) (ps qs : List Str) (s : Str)
    → Known o ps qs s
    → (t : List Str) → (o ≡ some t) ⊎ ((o ≡ none) × (t ≡ qs))
    → Reaches true t s
back-Known none ps qs s (front, back) t (inl e) = ground arith
back-Known none ps qs s (front, back) t (inr (e, g)) = rw g back
back-Known (some x) ps qs s k t (inl e) =
    Reaches-of_In true t s (let same : t ≡ x = ground arith in rw same k)
back-Known (some x) ps qs s k t (inr (e, g)) = ground arith

abbrev pub EitherTells : RegexpInfo → RegexpInfo → Str → Type 0
EitherTells x y s = Tells x s ⊎ Tells y s

either_front :
    (x y : RegexpInfo) (s : Str) (ps qs : List Str)
    → EitherTells x y s
    → (x.exact ≡ some ps) ⊎ ((x.exact ≡ none) × (ps ≡ x.prefix))
    → (y.exact ≡ some qs) ⊎ ((y.exact ≡ none) × (qs ≡ y.prefix))
    → Reaches false (union_set ps qs false) s
either_front x y s ps qs (inl t) hx hy =
    Reaches-union_left false ps qs s (front-Known x.exact x.prefix x.suffix s t.known ps hx)
either_front x y s ps qs (inr t) hx hy =
    Reaches-union_right false ps qs s (front-Known y.exact y.prefix y.suffix s t.known qs hy)

either_back :
    (x y : RegexpInfo) (s : Str) (ps qs : List Str)
    → EitherTells x y s
    → (x.exact ≡ some ps) ⊎ ((x.exact ≡ none) × (ps ≡ x.suffix))
    → (y.exact ≡ some qs) ⊎ ((y.exact ≡ none) × (qs ≡ y.suffix))
    → Reaches true (union_set ps qs true) s
either_back x y s ps qs (inl t) hx hy =
    Reaches-union_left true ps qs s (back-Known x.exact x.prefix x.suffix s t.known ps hx)
either_back x y s ps qs (inr t) hx hy =
    Reaches-union_right true ps qs s (back-Known y.exact y.prefix y.suffix s t.known qs hy)

either_query :
    (x y : RegexpInfo) (s : Str)
    → IsFormed x
    → IsFormed y
    → EitherTells x y s
    → Keeps (query_or x.query y.query) s
either_query x y s wx wy (inl t) = Keeps-query_or x.query y.query s wx wy (inl t.keeps)
either_query x y s wx wy (inr t) = Keeps-query_or x.query y.query s wx wy (inr t.keeps)

-- What `alternate` comes to, if it comes to something.
abbrev pub Offers : (Str → Type 0) → Option RegexpInfo → Type 0
Offers P none = Unit
Offers P (some info) = IsFormed info × ((s : Str) → P s → Tells info s)

or_formed :
    (q r : Query) → well_formed q ≡ true → well_formed r ≡ true → well_formed (query_or q r) ≡ true
or_formed q r wq wr = (query_or-Joins (λ s. true) q r wq wr).formed

add_left :
    (x y : RegexpInfo) (s : Str) → IsFormed x → EitherTells x y s → EitherTells (add_exact x) y s
add_left x y s w (inl t) = inl (add_exact-Tells x s w t)
add_left x y s w (inr t) = inr t

add_right :
    (x y : RegexpInfo) (s : Str) → IsFormed y → EitherTells x y s → EitherTells x (add_exact y) s
add_right x y s w (inl t) = inl t
add_right x y s w (inr t) = inr (add_exact-Tells y s w t)

alternate_sets-Offers :
    (p : Platform) (x y : RegexpInfo) (P : Str → Type 0)
    → IsFormed x
    → IsFormed y
    → ((s : Str) → P s → EitherTells x y s)
    → Offers P (alternate_sets p x y)
unfolding alternate_sets
alternate_sets-Offers p x y P wx wy h = elim (Option-cases x.exact) [
  | inl e ↦ elim (Option-cases y.exact) [
    | inl g ↦
        rw (e, g, alternate_sets)
          (
            or_formed x.query y.query wx wy,
            λ s t'.
                let t = h s t' in
                record {
                  known = (
                    either_front x y s x.prefix y.prefix t (inr (e, refl)) (inr (g, refl)),
                    either_back x y s x.suffix y.suffix t (inr (e, refl)) (inr (g, refl)),
                  );
                  keeps = either_query x y s wx wy t;
                },
          )
    | inr (f, g) ↦
        rw (e, g, alternate_sets)
          (
            or_formed x.query (add_exact y).query wx (add_exact-IsFormed y wy),
            λ s t'.
                let t = h s t' in
                record {
                  known = (
                    either_front x y s x.prefix f t (inr (e, refl)) (inl g),
                    either_back x y s x.suffix f t (inr (e, refl)) (inl g),
                  );
                  keeps =
                      either_query x (add_exact y) s wx (add_exact-IsFormed y wy)
                        (add_right x y s wy t);
                },
          )
  ]
  | inr (d, e) ↦ elim (Option-cases y.exact) [
    | inr (f, g) ↦
        rw (e, g, alternate_sets)
          (
            or_formed x.query y.query wx wy,
            λ s t'.
                let t = h s t' in
                record {
                  known = In-union_set d f s (either_in s t d f e g);
                  keeps = either_query x y s wx wy t;
                },
          )
    | inl g ↦
        elim (Bool-cases
          (leb (length d + length y.prefix) x.cap || leb (length d + length y.suffix) x.cap)) [
            | inl b ↦ rw (e, g, b, alternate_sets) tt
            | inr b ↦
                rw (e, g, b, alternate_sets)
                  (
                    or_formed (add_exact x).query y.query (add_exact-IsFormed x wx) wy,
                    λ s t'.
                        let t = h s t' in
                        record {
                          known = (
                            either_front x y s d y.prefix t (inl e) (inr (g, refl)),
                            either_back x y s d y.suffix t (inl e) (inr (g, refl)),
                          );
                          keeps =
                              either_query (add_exact x) y s (add_exact-IsFormed x wx) wy
                                (add_left x y s wx t);
                        },
                  )
          ]
  ]
]
  where
    either_in :
        (s : Str)
        → EitherTells x y s
        → (d f : List Str) → x.exact ≡ some d
        → y.exact ≡ some f
        → In s d ⊎ In s f
    either_in s (inl t) d f e g = inl (subst (λ o. Known o x.prefix x.suffix s) e t.known)
    either_in s (inr t) d f e g = inr (subst (λ o. Known o y.prefix y.suffix s) g t.known)

-- An alternative tells of a text what one of its parts tells.
pub alternate-Offers :
    (p : Platform) (x y : RegexpInfo)
    → IsFormed x
    → IsFormed y
    → Offers (EitherTells x y) (alternate p x y)
unfolding alternate
alternate-Offers p x y wx wy =
    go (alternate_sets p x y) (alternate_sets-Offers p x y (EitherTells x y) wx wy (λ s t. t))
  where
    go :
        (o : Option RegexpInfo)
        → Offers (EitherTells x y) o
        → Offers
            (EitherTells x y)
            (elim o as (λ z. Option RegexpInfo) [ none ↦ none | some i ↦ some (simplify false i) ])
    go none h = tt
    go (some i) (w, h) = (simplify-IsFormed false i w, λ s t. simplify-Tells false i s w (h s t))
