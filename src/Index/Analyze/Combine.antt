-- ===== src/Index/Analyze/Combine.antt =====
-- `concat` and `alternate` of index/regexp.go.
use codesearch.Common.{ℕ, zero, suc, ◌+◌, Bool, true, false, not, ◌&&◌, ◌||◌}
use codesearch.Common.{Option, none, some, List, [], leb, if◌then◌else◌}
use codesearch.Common.{length}
use codesearch.Common.Strings.{Str}
use codesearch.Index.StringSet.{cross_all, min_len}
use codesearch.Index.Query.{Query, query_and, query_or, and_trigrams}
use codesearch.Index.Analyze.{RegexpInfo, max_set, have, Platform}
use codesearch.Index.Analyze.Sets.{union_set, cross_set}
use codesearch.Index.Analyze.Simplify.{add_exact, simplify}

-- The capacity behind an append of `k` elements.
abbrev pub cap_append : Platform → ℕ → ℕ → ℕ → ℕ
cap_append p cap len k = if leb (len + k) cap then cap else p.grow cap (len + k)

-- The capacity behind `k` calls of `add`.
unfoldable pub cap_adds : Platform → ℕ → ℕ → ℕ → ℕ
cap_adds p cap len zero = cap
cap_adds p cap len (suc k) = cap_adds p (cap_append p cap len 1) (len + 1) k

unfoldable pub concat_prefix : RegexpInfo → RegexpInfo → List Str
concat_prefix x y = elim x.exact [
  | some e ↦ cross_set e y.prefix false
  | none ↦ if x.can_empty then union_set x.prefix y.prefix false else x.prefix
]

unfoldable pub concat_suffix : RegexpInfo → RegexpInfo → List Str
concat_suffix x y = elim y.exact [
  | some f ↦ cross_set x.suffix f true
  | none ↦ if y.can_empty then union_set y.suffix x.suffix true else y.suffix
]

-- Whether the strings across the boundary are long enough.
abbrev pub is_bridged : RegexpInfo → RegexpInfo → Bool
is_bridged x y =
    not (have x.exact)
    && (not (have y.exact)
        && (leb (length x.suffix) max_set
            && (leb (length y.prefix) max_set && leb 3 (min_len x.suffix + min_len y.prefix))))

unfoldable pub concat_query : RegexpInfo → RegexpInfo → Query
concat_query x y =
    if is_bridged x y
    then and_trigrams (query_and x.query y.query) (cross_set x.suffix y.prefix false)
    else query_and x.query y.query

-- `concat` before its `simplify`; it leaves `canEmpty` false.
unfoldable pub concat_sets : Platform → RegexpInfo → RegexpInfo → RegexpInfo
unfolding concat_prefix concat_suffix concat_query
concat_sets p x y =
    let loose : RegexpInfo = record {
      can_empty = false;
      exact = none;
      cap = 0;
      prefix = concat_prefix x y;
      suffix = concat_suffix x y;
      query = concat_query x y;
    } in
    elim x.exact [
      | none ↦ loose
      | some e ↦ elim y.exact [
        | none ↦ loose
        | some f ↦ record {
          can_empty = false;
          exact = some (cross_set e f false);
          cap = cap_adds p 0 0 (length (cross_all e f));
          prefix = [];
          suffix = [];
          query = concat_query x y;
        }
      ]
    ]

unfoldable pub concat : Platform → RegexpInfo → RegexpInfo → RegexpInfo
unfolding concat_sets simplify
concat p x y = simplify false (concat_sets p x y)

-- An alternative of sets that are not exact.
abbrev pub either_sets : RegexpInfo → RegexpInfo → List Str → List Str → Query → RegexpInfo
either_sets x y prefix suffix q = record {
  can_empty = x.can_empty || y.can_empty;
  exact = none;
  cap = 0;
  prefix = prefix;
  suffix = suffix;
  query = q;
}

-- `alternate` before its `simplify`; `none` where an append would stay in the array of `x.exact`.
unfoldable pub alternate_sets : Platform → RegexpInfo → RegexpInfo → Option RegexpInfo
unfolding add_exact
alternate_sets p x y = elim x.exact [
  | some e ↦ elim y.exact [
    | some f ↦ some (record {
      can_empty = x.can_empty || y.can_empty;
      exact = some (union_set e f false);
      cap = cap_append p x.cap (length e) (length f);
      prefix = [];
      suffix = [];
      query = query_or x.query y.query;
    })
    | none ↦
        if leb (length e + length y.prefix) x.cap || leb (length e + length y.suffix) x.cap
        then none
        else some (
            either_sets x y (union_set e y.prefix false) (union_set e y.suffix true)
              (query_or (add_exact x).query y.query))
  ]
  | none ↦ elim y.exact [
    | some f ↦ some (
        either_sets x y (union_set x.prefix f false) (union_set x.suffix f true)
          (query_or x.query (add_exact y).query))
    | none ↦ some (
        either_sets x y (union_set x.prefix y.prefix false) (union_set x.suffix y.suffix true)
          (query_or x.query y.query))
  ]
]

unfoldable pub alternate : Platform → RegexpInfo → RegexpInfo → Option RegexpInfo
unfolding alternate_sets simplify
alternate p x y = elim (alternate_sets p x y) [
  | none ↦ none
  | some info ↦ some (simplify false info)
]
