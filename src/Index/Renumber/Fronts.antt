-- ===== src/Index/Renumber/Fronts.antt =====
-- A range in front of a map.
use codesearch.Common.{ℕ, ◌+◌, ◌-◌, ◌≤◌, ◌<◌, ◌≡◌, ◌⊎◌, refl, arith, ◌∙◌, ap, sym}
use codesearch.Common.{Bool-cases, inl, inr, some, List, [], ◌∷◌, All}
use codesearch.Common.{ltb, leb, ◌&&◌}
use codesearch.Index.Posting.{no_id}
use codesearch.Index.Renumber.{IdRange}
use codesearch.Index.Renumber.Ranges.{IsMap, new_id}
use codesearch.Index.Renumber.Stored.{MapsApart}
use codesearch.Index.Renumber.Maps.{add_range}

-- All new numbers are `new` or more.
abbrev pub From : ℕ → List IdRange → Type 0
From new idmap = All (λ x. new ≤ x.new) idmap

pub From-le : (m n : ℕ) (idmap : List IdRange) → m ≤ n → From n idmap → From m idmap
From-le m n [] h a = tt
From-le m n (x ∷ xs) h (l, a) = (omega (arith, h, l), From-le m n xs h a)

pub IsMap-le : (m n : ℕ) (idmap : List IdRange) → m ≤ n → IsMap n idmap → IsMap m idmap
IsMap-le m n [] h a = tt
IsMap-le m n (x ∷ xs) h (l, a, b, c) = (omega (arith, h, l), a, b, c)

pub add_range-IsMap :
    (from lo hi new : ℕ) (idmap : List IdRange)
    → from ≤ lo
    → lo ≤ hi
    → new + (hi - lo) ≤ no_id
    → IsMap hi idmap
    → IsMap from (add_range lo hi new idmap)
unfolding add_range
add_range-IsMap from lo hi new idmap a b c m = elim (Bool-cases (ltb lo hi)) [
  | inl e ↦ rw e (a, b, c, m)
  | inr e ↦ rw e (IsMap-le from hi idmap (omega (arith, a, b)) m)
]

pub add_range-From :
    (from lo hi new : ℕ) (idmap : List IdRange)
    → from ≤ new
    → From from idmap
    → From from (add_range lo hi new idmap)
unfolding add_range
add_range-From from lo hi new idmap a m = elim (Bool-cases (ltb lo hi)) [
  | inl e ↦ rw e (a, m)
  | inr e ↦ rw e m
]

From-new_id :
    (from : ℕ) (idmap : List IdRange) (id z : ℕ)
    → From from idmap
    → new_id idmap id ≡ some z
    → from ≤ z
unfolding new_id
From-new_id from [] id z h e = ground arith
From-new_id from (x ∷ xs) id z (l, h) e = elim (Bool-cases (leb x.lo id && ltb id x.hi)) [
  | inl c ↦
      let run : new_id (x ∷ xs) id ≡ some (x.new + (id - x.lo)) = rw c refl in
      let same : x.new + (id - x.lo) ≡ z = ground (arith, sym run ∙ e) in omega (arith, same, l)
  | inr c ↦
      let run : new_id (x ∷ xs) id ≡ new_id xs id = rw c refl in
      From-new_id from xs id z h (sym run ∙ e)
]

pub From-nothing : (id z : ℕ) → ¬ (new_id [] id ≡ some z)
unfolding new_id
From-nothing id z e = ground (arith, e)

add_range-new_id :
    (lo hi new : ℕ) (idmap : List IdRange) (id z : ℕ)
    → new_id (add_range lo hi new idmap) id ≡ some z
    → ((new ≤ z) × (z < new + (hi - lo))) ⊎ (new_id idmap id ≡ some z)
unfolding add_range new_id
add_range-new_id lo hi new idmap id z e = elim (Bool-cases (ltb lo hi)) [
  | inr c ↦
      let run : add_range lo hi new idmap ≡ idmap = rw c refl in
      inr (ap (λ m. new_id m id) (sym run) ∙ e)
  | inl c ↦
      let run : add_range lo hi new idmap ≡ record { lo = lo; hi = hi; new = new } ∷ idmap =
        rw c refl in
      within (ap (λ m. new_id m id) (sym run) ∙ e)
]
  where
    within :
        new_id (record { lo = lo; hi = hi; new = new } ∷ idmap) id ≡ some z
        → ((new ≤ z) × (z < new + (hi - lo))) ⊎ (new_id idmap id ≡ some z)
    within e = elim (Bool-cases (leb lo id && ltb id hi)) [
      | inl c ↦
          let here : new_id (record { lo = lo; hi = hi; new = new } ∷ idmap) id
              ≡ some (new + (id - lo)) =
            rw c refl in
          let same : new + (id - lo) ≡ z = ground (arith, sym here ∙ e) in
          let inside : (lo ≤ id) × (id < hi) = ground (arith, c) in
          inl (omega (arith, same, inside))
      | inr c ↦
          let there : new_id (record { lo = lo; hi = hi; new = new } ∷ idmap) id ≡ new_id idmap id =
            rw c refl in
          inr (sym there ∙ e)
    ]

-- A range of the first map, behind it one of the second, and behind both what follows.
pub add_range-MapsApart :
    (lo1 hi1 new1 lo2 hi2 new2 : ℕ) (map1 map2 : List IdRange)
    → new1 + (hi1 - lo1) ≤ new2
    → From (new2 + (hi2 - lo2)) map1
    → From (new2 + (hi2 - lo2)) map2
    → MapsApart map1 map2
    → MapsApart (add_range lo1 hi1 new1 map1) (add_range lo2 hi2 new2 map2)
add_range-MapsApart lo1 hi1 new1 lo2 hi2 new2 map1 map2 h f g apart i j z e k =
    elim (add_range-new_id lo1 hi1 new1 map1 i z e) [
      | inl a ↦ elim (add_range-new_id lo2 hi2 new2 map2 j z k) [
        | inl b ↦ omega (arith, a, b, h)
        | inr b ↦ let above = From-new_id _ map2 j z g b in omega (arith, a, above, h)
      ]
      | inr a ↦ elim (add_range-new_id lo2 hi2 new2 map2 j z k) [
        | inl b ↦ let above = From-new_id _ map1 i z f a in omega (arith, b, above)
        | inr b ↦ apart i j z a b
      ]
    ]
