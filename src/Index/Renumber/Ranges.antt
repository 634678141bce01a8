-- ===== src/Index/Renumber/Ranges.antt =====
-- The ranges of a map, and the new numbers that they give.
use codesearch.Common.{ℕ, suc, ◌+◌, ◌-◌, ◌≤◌, ◌<◌, ◌≡◌, refl, arith, ◌∙◌, ap, sym, subst}
use codesearch.Common.{
  Bool, true, false, Bool-cases, Option-cases, inl, inr, Option, none, some, List, [], ◌∷◌,
}
use codesearch.Common.{ltb, leb, if◌then◌else◌, ◌&&◌}
use codesearch.Index.Posting.{no_id}
use codesearch.Index.Renumber.{IdRange, skip_ranges}

-- The ranges are in order and apart, their new numbers are below the end, and the ids too.
abbrev pub IsMap : ℕ → List IdRange → Type 0
IsMap from [] = Unit
IsMap from (x ∷ xs) =
    (from ≤ x.lo) × (x.lo ≤ x.hi) × (x.new + (x.hi - x.lo) ≤ no_id) × IsMap x.hi xs

-- The new number of an id, by the first range that has it.
unfoldable pub new_id : List IdRange → ℕ → Option ℕ
new_id [] id = none
new_id (x ∷ xs) id = if leb x.lo id && ltb id x.hi then some (x.new + (id - x.lo)) else new_id xs id

unfoldable pub image : List IdRange → List ℕ → List ℕ
unfolding new_id
image idmap [] = []
image idmap (id ∷ ids) = elim (new_id idmap id) [
  | none ↦ image idmap ids
  | some x ↦ x ∷ image idmap ids
]

-- The ids rise from above `last`; `^uint32(0)` is before all of them.
abbrev pub Rises : ℕ → List ℕ → Type 0
Rises low [] = Unit
Rises low (id ∷ ids) = (low ≤ id) × (id < no_id) × Rises (suc id) ids

if_and_false : (b : Bool) (x y : Option ℕ) → (if b && false then x else y) ≡ y
if_and_false true x y = refl
if_and_false false x y = refl

-- Ranges that end at or before an id are passed by for good.
skip_ranges-new_id :
    (idmap : List IdRange) (id later from : ℕ)
    → IsMap from idmap
    → id ≤ later
    → new_id (skip_ranges id idmap) later ≡ new_id idmap later
unfolding skip_ranges new_id
skip_ranges-new_id [] id later from m h = refl
skip_ranges-new_id (x ∷ xs) id later from (a, b, c, m) h = elim (Bool-cases (leb x.hi id)) [
  | inr e ↦ rw (e, skip_ranges) refl
  | inl e ↦
      let over : ltb later x.hi ≡ false = ground arith in
      rw (e, skip_ranges)
        (skip_ranges-new_id xs id later x.hi m h
          ∙ sym (rw over (if_and_false (leb x.lo later) _ _)))
]

pub image-none :
    (idmap : List IdRange) (id : ℕ) (ids : List ℕ)
    → new_id idmap id ≡ none
    → image idmap (id ∷ ids) ≡ image idmap ids
unfolding image
image-none idmap id ids e = rw (e, image) refl

pub image-some :
    (idmap : List IdRange) (id x : ℕ) (ids : List ℕ)
    → new_id idmap id ≡ some x
    → image idmap (id ∷ ids) ≡ x ∷ image idmap ids
unfolding image
image-some idmap id x ids e = rw (e, image) refl

pub skip_ranges-image :
    (idmap : List IdRange) (ids : List ℕ) (id low from : ℕ)
    → IsMap from idmap
    → Rises low ids
    → id ≤ low
    → image (skip_ranges id idmap) ids ≡ image idmap ids
skip_ranges-image idmap [] id low from m r h = unfold image in refl
skip_ranges-image idmap (x ∷ ids) id low from m (a, b, r) h =
    let same = skip_ranges-new_id idmap id x from m (omega (arith, a, h)) in
    let rest = skip_ranges-image idmap ids id (suc x) from m r (omega (arith, a, h)) in
    elim (Option-cases (new_id idmap x)) [
      | inl e ↦
          image-none (skip_ranges id idmap) x ids (same ∙ e) ∙ rest ∙ sym (image-none idmap x ids e)
      | inr (y, e) ↦
          image-some (skip_ranges id idmap) x y ids (same ∙ e)
          ∙ ap (λ l. y ∷ l) rest
          ∙ sym (image-some idmap x y ids e)
    ]

pub skip_ranges-IsMap :
    (idmap : List IdRange) (id from : ℕ)
    → IsMap from idmap
    → (from' : ℕ) × IsMap from' (skip_ranges id idmap)
unfolding skip_ranges
skip_ranges-IsMap [] id from m = (from, tt)
skip_ranges-IsMap (x ∷ xs) id from (a, b, c, m) = elim (Bool-cases (leb x.hi id)) [
  | inl e ↦ rw (e, skip_ranges) (skip_ranges-IsMap xs id x.hi m)
  | inr e ↦ rw (e, skip_ranges) (from, (a, b, c, m))
]

-- What is left starts with a range that ends behind the id.
pub skip_ranges-head :
    (idmap : List IdRange) (id : ℕ) (x : IdRange) (xs : List IdRange)
    → skip_ranges id idmap ≡ x ∷ xs
    → id < x.hi
unfolding skip_ranges
skip_ranges-head [] id x xs h = ground arith
skip_ranges-head (y ∷ ys) id x xs h = elim (Bool-cases (leb y.hi id)) [
  | inl e ↦ skip_ranges-head ys id x xs (
      sym (let run : skip_ranges id (y ∷ ys) ≡ skip_ranges id ys = rw (e, skip_ranges) refl in run)
      ∙ h)
  | inr e ↦
      let run : skip_ranges id (y ∷ ys) ≡ y ∷ ys = rw (e, skip_ranges) refl in
      let same : y ∷ ys ≡ x ∷ xs = sym run ∙ h in
      let first : y ≡ x = ground (arith, same) in subst (λ z. id < z.hi) first (ground (arith, e))
]

pub new_id-none :
    (idmap : List IdRange) (id from : ℕ) → IsMap from idmap → id < from → new_id idmap id ≡ none
unfolding new_id
new_id-none [] id from m h = refl
new_id-none (x ∷ xs) id from (a, b, c, m) h =
    let under : leb x.lo id ≡ false = ground arith in
    rw under (new_id-none xs id x.hi m (omega (arith, a, b, h)))

pub image-nil : (ids : List ℕ) → image [] ids ≡ []
unfolding image new_id
image-nil [] = refl
image-nil (x ∷ ids) = image-nil ids
