-- ===== src/Index/StringSet.antt =====
-- The `stringSet` of index/regexp.go: strings in ascending order once they are cleaned.
pub mod Laws
pub mod Subset
use codesearch.Common.{ℕ, ◌≡◌, Bool, true, false, ◌&&◌, List, [], ◌∷◌, ◌++◌, map, ltb}
use codesearch.Common.{if◌then◌else◌, length}
use codesearch.Common.Strings.{Str, str_eq, str_lt}

-- The loop of `contains`.
unfoldable pub contains : List Str → Str → Bool
contains [] str = false
contains (ss ∷ s) str = if str_eq ss str then true else contains s str

-- `sort.Sort` by an order of strings: the result of any sorting is that of insertion.
unfoldable pub insert : (Str → Str → Bool) → Str → List Str → List Str
insert less x [] = x ∷ []
insert less x (y ∷ ys) = if less y x then y ∷ insert less x ys else x ∷ y ∷ ys

unfoldable pub sort : (Str → Str → Bool) → List Str → List Str
unfolding insert
sort less [] = []
sort less (x ∷ xs) = insert less x (sort less xs)

-- The loop of `clean` behind the sort: `last` is `t[w-1]`.
unfoldable pub drop_repeats : Str → List Str → List Str
drop_repeats last [] = []
drop_repeats last (str ∷ t) =
    if str_eq last str then drop_repeats last t else str ∷ drop_repeats str t

unfoldable pub compact : List Str → List Str
unfolding drop_repeats
compact [] = []
compact (str ∷ t) = str ∷ drop_repeats str t

-- `clean`, by the order of `byPrefix` or of `bySuffix`.
unfoldable pub clean_by : (Str → Str → Bool) → List Str → List Str
unfolding sort compact
clean_by less s = compact (sort less s)

abbrev pub clean : List Str → List Str
clean = clean_by str_lt

abbrev pub union : List Str → List Str → List Str
union s t = clean (s ++ t)

-- `for j < len(t) && t[j] < ss { j++ }`
unfoldable pub skip_less : Str → List Str → List Str
skip_less ss [] = []
skip_less ss (x ∷ t) = if str_lt x ss then skip_less ss t else x ∷ t

abbrev pub starts_at : Str → List Str → Bool
starts_at ss [] = false
starts_at ss (x ∷ t) = str_eq x ss

-- `isSubsetOf`: `j` never moves back.
unfoldable pub is_subset_of : List Str → List Str → Bool
is_subset_of [] t = true
is_subset_of (ss ∷ s) t =
    let left = skip_less ss t in
    let more = is_subset_of s left in if starts_at ss left then more else false

unfoldable pub min_len_from : ℕ → List Str → ℕ
min_len_from m [] = m
min_len_from m (str ∷ s) = min_len_from (if ltb (length str) m then length str else m) s

unfoldable pub min_len : List Str → ℕ
unfolding min_len_from
min_len [] = 0
min_len (str ∷ s) = min_len_from (length str) (str ∷ s)

-- The two loops of `cross`, before the set is cleaned.
unfoldable pub cross_all : List Str → List Str → List Str
cross_all [] t = []
cross_all (ss ∷ s) t = map (λ tt'. ss ++ tt') t ++ cross_all s t

abbrev pub cross : List Str → List Str → List Str
cross s t = clean (cross_all s t)
