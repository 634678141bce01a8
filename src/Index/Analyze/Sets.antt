-- ===== src/Index/Analyze/Sets.antt =====
-- The operations on string sets of index/regexp.go with their two orders, and `simplifySet`.
use codesearch.Common.{ℕ, zero, suc, ◌+◌, ◌-◌, Bool, true, false}
use codesearch.Common.{List, [], ◌∷◌, ◌++◌, map, ltb, leb, ◌==◌, if◌then◌else◌}
use codesearch.Common.{length, take, drop}
use codesearch.Common.Strings.{Str, str_lt}
use codesearch.Index.StringSet.{clean_by, compact, cross_all}
use codesearch.Index.Analyze.{max_set}

-- `bySuffix.Less`: the bytes are compared from the ends on.
unfoldable pub reversed : Str → Str
reversed [] = []
reversed (x ∷ s) = reversed s ++ (x ∷ [])

abbrev pub suffix_lt : Str → Str → Bool
suffix_lt s t = str_lt (reversed s) (reversed t)

-- `clean`, `union` and `cross` with their parameter `isSuffix`.
abbrev pub clean_set : Bool → List Str → List Str
clean_set is_suffix s = clean_by (if is_suffix then suffix_lt else str_lt) s

abbrev pub union_set : List Str → List Str → Bool → List Str
union_set s t is_suffix = clean_set is_suffix (s ++ t)

abbrev pub cross_set : List Str → List Str → Bool → List Str
cross_set s t is_suffix = clean_set is_suffix (cross_all s t)

-- A string of length `n - 1` from one of at least `n` bytes, from its front or its back.
unfoldable pub shorten : Bool → ℕ → Str → Str
shorten is_suffix n str =
    if leb n (length str)
    then (if is_suffix then drop (length str - n + 1) str else take (n - 1) str)
    else str

-- `for n := 3; n == 3 || t.size() > maxSet; n-- { … }`, from its body on.
unfoldable pub shrink : Bool → ℕ → List Str → List Str
unfolding shorten compact
shrink is_suffix zero t = t
shrink is_suffix (suc n) t =
    let t' = clean_set is_suffix (compact (map (shorten is_suffix (suc n)) t)) in
    let rest = shrink is_suffix n t' in if ltb max_set (length t') then rest else t'

-- `strings.HasPrefix(str, p)`, or `strings.HasSuffix`.
unfoldable pub has_prefix : Str → Str → Bool
has_prefix str [] = true
has_prefix [] (x ∷ p) = false
has_prefix (y ∷ str) (x ∷ p) = if x == y then has_prefix str p else false

abbrev pub is_covered : Bool → Str → Str → Bool
is_covered is_suffix str p =
    if is_suffix then has_prefix (reversed str) (reversed p) else has_prefix str p

-- The last loop of `simplifySet`; `last` is `t[w-1]`.
unfoldable pub uncovered : Bool → Str → List Str → List Str
uncovered is_suffix last [] = []
uncovered is_suffix last (str ∷ t) =
    if is_covered is_suffix str last
    then uncovered is_suffix last t
    else str ∷ uncovered is_suffix str t

unfoldable pub without_covered : Bool → List Str → List Str
unfolding uncovered
without_covered is_suffix [] = []
without_covered is_suffix (str ∷ t) = str ∷ uncovered is_suffix str t

-- What `simplifySet` makes of a set, and of the query.
unfoldable pub simplified_set : Bool → List Str → List Str
unfolding shrink without_covered
simplified_set is_suffix s = without_covered is_suffix (shrink is_suffix 3 (clean_set is_suffix s))
