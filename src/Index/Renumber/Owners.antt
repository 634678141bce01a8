-- ===== src/Index/Renumber/Owners.antt =====
-- The maps that are made are in order, and their new numbers are apart.
use codesearch.Common.{ℕ, ◌+◌, ◌-◌, ◌≤◌, ◌≡◌, refl, arith}
use codesearch.Common.{true, false, Bool-cases, inl, inr, some, List, [], ◌∷◌, ◌++◌, All}
use codesearch.Common.{length}
use codesearch.Common.Strings.{Str, str_lt}
use codesearch.Index.Posting.{no_id}
use codesearch.Index.Renumber.{IdRange}
use codesearch.Index.Renumber.Ranges.{IsMap}
use codesearch.Index.Renumber.Stored.{MapsApart}
use codesearch.Index.Renumber.Maps.{limit_of, skip_names, starts_below, add_range}
use codesearch.Index.Renumber.Fronts.{
  From, From-le, IsMap-le, add_range-IsMap, add_range-From, From-nothing, add_range-MapsApart,
}

-- The names of the second index are those of its paths, one path after the other.
abbrev pub Owns : List Str → List Str → Type 0
Owns [] names = names ≡ []
Owns (path ∷ paths) names =
    (limit : Str) × (own : List Str) × (rest : List Str) × (limit_of path ≡ some limit)
    × (names ≡ own ++ rest)
    × (starts_below path names ≡ false)
    × All (λ n. str_lt n limit ≡ true) own
    × (starts_below limit rest ≡ false)
    × Owns paths rest

pub skip_names-own :
    (s : Str) (own rest : List Str)
    → All (λ n. str_lt n s ≡ true) own
    → starts_below s rest ≡ false
    → skip_names s (own ++ rest) ≡ (length own, rest)
unfolding skip_names
skip_names-own s [] [] h e = refl
skip_names-own s [] (x ∷ rest) h e = rw e refl
skip_names-own s (x ∷ own) rest (l, h) e = rw (l, skip_names-own s own rest h e) refl

pub skip_names-length :
    (s : Str) (names : List Str)
    → (skip_names s names).0 + length (skip_names s names).1 ≡ length names
unfolding skip_names
skip_names-length s [] = omega arith
skip_names-length s (x ∷ xs) = elim (Bool-cases (str_lt x s)) [
  | inl e ↦ rw e (omega (arith, skip_names-length s xs))
  | inr e ↦ rw e (omega arith)
]

-- Two maps from given ids on, with new numbers from a given one on that are apart.
pub record AreMaps (i1 i2 new : ℕ) (map1 map2 : List IdRange) : Type 0 where
  pub first : IsMap i1 map1
  pub second : IsMap i2 map2
  pub from1 : From new map1
  pub from2 : From new map2
  pub apart : MapsApart map1 map2

pub add_range-AreMaps :
    (i1 k j i2 n new : ℕ) (map1 map2 : List IdRange)
    → new + k + n ≤ no_id
    → AreMaps (i1 + k + j) (i2 + n) (new + k + n) map1 map2
    → AreMaps i1 i2 new (add_range i1 (i1 + k) new map1) (add_range i2 (i2 + n) (new + k) map2)
add_range-AreMaps i1 k j i2 n new map1 map2 d m = record {
  first =
      add_range-IsMap i1 i1 (i1 + k) new map1 (omega arith) (omega arith) (omega (arith, d))
        (IsMap-le (i1 + k) (i1 + k + j) map1 (omega arith) m.first);
  second =
      add_range-IsMap i2 i2 (i2 + n) (new + k) map2 (omega arith) (omega arith) (omega (arith, d))
        m.second;
  from1 =
      add_range-From new i1 (i1 + k) new map1 (omega arith)
        (From-le new (new + k + n) map1 (omega arith) m.from1);
  from2 =
      add_range-From new i2 (i2 + n) (new + k) map2 (omega arith)
        (From-le new (new + k + n) map2 (omega arith) m.from2);
  apart =
      add_range-MapsApart i1 (i1 + k) new i2 (i2 + n) (new + k) map1 map2 (omega arith)
        (From-le (new + k + (i2 + n - i2)) (new + k + n) map1 (omega arith) m.from1)
        (From-le (new + k + (i2 + n - i2)) (new + k + n) map2 (omega arith) m.from2) m.apart;
}

pub last_range-AreMaps :
    (i1 i2 new : ℕ) (names1 : List Str)
    → new + length names1 ≤ no_id
    → AreMaps i1 i2 new (add_range i1 (i1 + length names1) new []) []
last_range-AreMaps i1 i2 new names1 h = record {
  first =
      add_range-IsMap i1 i1 (i1 + length names1) new [] (omega arith) (omega arith)
        (omega (arith, h)) tt;
  second = tt;
  from1 = add_range-From new i1 (i1 + length names1) new [] (omega arith) tt;
  from2 = tt;
  apart = nothing;
}
  where
    nothing : MapsApart (add_range i1 (i1 + length names1) new []) []
    nothing i j z e k = From-nothing j z k
