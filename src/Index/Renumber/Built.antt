-- ===== src/Index/Renumber/Built.antt =====
-- The maps of a merge.
use codesearch.Common.{ℕ, ◌+◌, ◌%◌, ◌^◌, ◌≤◌, ◌<◌, ◌≡◌, refl, arith, ◌∙◌, ap, subst}
use codesearch.Common.{false, some, List, [], ◌∷◌, ◌++◌}
use codesearch.Common.{length, length-append}
use codesearch.Common.Strings.{Str}
use codesearch.Index.Posting.{no_id}
use codesearch.Index.Renumber.{IdRange}
use codesearch.Index.Renumber.Maps.{limit_of, skip_names, starts_below, add_range, build_maps}
use codesearch.Index.Renumber.Owners.{
  Owns, AreMaps, skip_names-own, skip_names-length, add_range-AreMaps, last_range-AreMaps,
}

path_step :
    (i1 i2 new : ℕ) (names1 own rest paths : List Str) (path limit : Str)
    (maps : List IdRange × List IdRange)
    → limit_of path ≡ some limit
    → starts_below path (own ++ rest) ≡ false
    → skip_names limit (own ++ rest) ≡ (length own, rest)
    → (new + (skip_names path names1).0) % 2 ^ 32 ≡ new + (skip_names path names1).0
    → (new + (skip_names path names1).0 + length own) % 2 ^ 32
      ≡ new + (skip_names path names1).0 + length own
    → build_maps
        (i1 + (skip_names path names1).0 + (skip_names limit (skip_names path names1).1).0)
        (i2 + length own)
        (new + (skip_names path names1).0 + length own)
        (skip_names limit (skip_names path names1).1).1
        rest
        paths
      ≡ some maps
    → build_maps i1 i2 new names1 (own ++ rest) (path ∷ paths)
      ≡ some (
        add_range i1 (i1 + (skip_names path names1).0) new maps.0,
        add_range i2 (i2 + length own) (new + (skip_names path names1).0) maps.1,
      )
unfolding build_maps
path_step i1 i2 new names1 own rest paths path limit maps e b s m n more =
    rw (e, b, s, m, n, more, build_maps) refl

built :
    (paths names1 names2 : List Str) (i1 i2 new : ℕ)
    → Owns paths names2
    → new + length names1 + length names2 ≤ no_id
    → (maps : List IdRange × List IdRange) × (build_maps i1 i2 new names1 names2 paths ≡ some maps)
      × AreMaps i1 i2 new maps.0 maps.1
unfolding build_maps
built [] names1 names2 i1 i2 new owns h = (
  (add_range i1 (i1 + length names1) new [], []),
  rw owns refl,
  last_range-AreMaps i1 i2 new names1 (omega (arith, h)),
)
built (path ∷ paths) names1 names2 i1 i2 new (limit, own, rest, l, same, b, o, r, owns) h =
    let k = (skip_names path names1).0 in
    let behind = (skip_names path names1).1 in
    let j = (skip_names limit behind).0 in
    let left = (skip_names limit behind).1 in
    let split1 = skip_names-length path names1 in
    let split2 = skip_names-length limit behind in
    let split3 : length names2 ≡ length own + length rest =
      ap length same ∙ length-append own rest in
    let (maps, run, m) =
      built paths left rest (i1 + k + j) (i2 + length own) (new + k + length own) owns
        (omega (arith, h, split1, split2, split3)) in
    (
      (add_range i1 (i1 + k) new maps.0, add_range i2 (i2 + length own) (new + k) maps.1),
      ap (λ l. build_maps i1 i2 new names1 l (path ∷ paths)) same
          ∙ path_step i1 i2 new names1 own rest paths path limit maps l
              (subst (λ l. starts_below path l ≡ false) same b) (skip_names-own limit own rest o r)
              (omega (arith, h, split1, split3)) (omega (arith, h, split1, split3)) run,
      add_range-AreMaps i1 k j i2 (length own) new maps.0 maps.1 (omega (arith, h, split1, split3))
          m,
    )

-- Where the names of the second index are those of its paths in turn, and both together have fewer
-- than 2^32 names, the maps are made. Each has its ranges in order and apart, and no new number is in both.
pub build_maps-AreMaps :
    (paths names1 names2 : List Str)
    → Owns paths names2
    → length names1 + length names2 < 2 ^ 32
    → (maps : List IdRange × List IdRange) × (build_maps 0 0 0 names1 names2 paths ≡ some maps)
      × AreMaps 0 0 0 maps.0 maps.1
build_maps-AreMaps paths names1 names2 owns h =
    built paths names1 names2 0 0 0 owns (omega (arith, h))
