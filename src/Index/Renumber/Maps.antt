-- ===== src/Index/Renumber/Maps.antt =====
-- The maps of the ids that `Merge` (index/merge.go) makes from the paths and the names.
use codesearch.Common.{ℕ, suc, ◌+◌, ◌/◌, ◌%◌, ◌^◌}
use codesearch.Common.{Bool, false, Option, none, some, List, [], ◌∷◌}
use codesearch.Common.{ltb, if◌then◌else◌, length}
use codesearch.Common.Strings.{Str, str_lt}
use codesearch.Index.Read.{◌>>=◌}
use codesearch.Index.Renumber.{IdRange}

-- `string` of a byte is the UTF-8 form of the code point with its number.
abbrev byte_string : ℕ → Str
byte_string c = if ltb c 128 then c ∷ [] else (192 + c / 64) ∷ (128 + c % 64) ∷ []

-- `path[:len(path)-1] + string(path[len(path)-1]+1)`; an empty path is a panic.
unfoldable pub limit_of : Str → Option Str
limit_of [] = none
limit_of (c ∷ []) = some (byte_string ((c + 1) % 256))
limit_of (c ∷ d ∷ path) = do limit ← limit_of (d ∷ path); some (c ∷ limit)

-- How many of the names, one after the other, are below `s`, and the names behind them.
unfoldable pub skip_names : Str → List Str → ℕ × List Str
skip_names s [] = (0, [])
skip_names s (x ∷ xs) =
    let rest = skip_names s xs in if str_lt x s then (suc rest.0, rest.1) else (0, x ∷ xs)

abbrev pub starts_below : Str → List Str → Bool
starts_below s [] = false
starts_below s (x ∷ xs) = str_lt x s

unfoldable pub add_range : ℕ → ℕ → ℕ → List IdRange → List IdRange
add_range lo hi new idmap =
    if ltb lo hi then record { lo = lo; hi = hi; new = new } ∷ idmap else idmap

-- The loop over the paths of the second index, on the names that `Name` returns from `i1` and `i2` on,
-- and what comes behind it; `none` is a panic.
unfoldable pub build_maps :
    ℕ → ℕ → ℕ → List Str → List Str → List Str → Option (List IdRange × List IdRange)
unfolding limit_of skip_names add_range
build_maps i1 i2 new names1 names2 [] = elim names2 [
  | [] ↦ some (add_range i1 (i1 + length names1) new [], [])
  | x ∷ xs ↦ none
]
build_maps i1 i2 new names1 names2 (path ∷ paths) = do
  limit ← limit_of path
  let before = skip_names path names1
  let shadowed = skip_names limit before.1
  let own = skip_names limit names2
  let lo = (new + before.0) % 2 ^ 32
  maps ←
      (if starts_below path names2
        then none
        else build_maps (i1 + before.0 + shadowed.0) (i2 + own.0) ((lo + own.0) % 2 ^ 32) shadowed.1
            own.1 paths)
  some (add_range i1 (i1 + before.0) new maps.0, add_range i2 (i2 + own.0) lo maps.1)
