-- ===== src/Index/Analyze/Simplify.antt =====
-- `addExact` and `simplify` of index/regexp.go.
use codesearch.Common.{◌-◌, Bool, true, false, ◌&&◌, ◌||◌}
use codesearch.Common.{none, some, List, ◌++◌, map, ltb, leb, if◌then◌else◌}
use codesearch.Common.{length, take, drop}
use codesearch.Common.Strings.{Str}
use codesearch.Index.StringSet.{min_len}
use codesearch.Index.Query.{and_trigrams}
use codesearch.Index.Analyze.{RegexpInfo, max_exact}
use codesearch.Index.Analyze.Sets.{clean_set, simplified_set}

-- `addExact`
unfoldable pub add_exact : RegexpInfo → RegexpInfo
add_exact info = elim info.exact [
  | none ↦ info
  | some e ↦ record info { query = and_trigrams info.query e }
]

abbrev pub simplify_prefix : RegexpInfo → RegexpInfo
simplify_prefix info = record info {
  prefix = simplified_set false info.prefix;
  query = and_trigrams info.query (clean_set false info.prefix);
}

abbrev pub simplify_suffix : RegexpInfo → RegexpInfo
simplify_suffix info = record info {
  suffix = simplified_set true info.suffix;
  query = and_trigrams info.query (clean_set true info.suffix);
}

abbrev pub front_of : Str → Str
front_of s = if ltb (length s) 3 then s else take 2 s

abbrev pub back_of : Str → Str
back_of s = if ltb (length s) 3 then s else drop (length s - 2) s

-- Whether `simplify` gives up the exact set.
abbrev pub is_too_big : Bool → List Str → Bool
is_too_big force e = ltb max_exact (length e) || ((leb 3 (min_len e) && force) || leb 4 (min_len e))

abbrev pub forget_exact : RegexpInfo → List Str → RegexpInfo
forget_exact info e = record info {
  exact = none;
  cap = 0;
  prefix = info.prefix ++ map front_of e;
  suffix = info.suffix ++ map back_of e;
  query = and_trigrams info.query e;
}

unfoldable pub simplify : Bool → RegexpInfo → RegexpInfo
unfolding simplified_set
simplify force info = elim info.exact [
  | none ↦ simplify_suffix (simplify_prefix info)
  | some e ↦
      if is_too_big force (clean_set false e)
      then simplify_suffix (simplify_prefix (forget_exact info (clean_set false e)))
      else record info { exact = some (clean_set false e) }
]
