-- ===== src/Index/Query.antt =====
-- Queries of index/regexp.go: `Query`, its simplifying `and` and `or`, and what they match.
-- The methods reuse the storage of their arguments, which no caller reads again; here they return
-- new values.
pub mod Logic
pub mod Implies
pub mod Parts
pub mod Join
pub mod Factoring
pub mod Meaning
pub mod Fuel
pub mod Trigrams
use codesearch.Common.{ℕ, zero, suc, ◌+◌, ◌<◌, Bool, true, false, not, ◌&&◌, ◌||◌}
use codesearch.Common.{List, [], ◌∷◌, ◌++◌, ltb, ◌==◌, if◌then◌else◌, length}
use codesearch.Common.Strings.{Str, str_lt}
use codesearch.Index.StringSet.{is_subset_of, union, min_len, contains, clean}

pub data QueryOp : Type 0 where
  q_all q_none q_and q_or : QueryOp

mutual
  pub data Query : Type 0 where
    query : QueryOp → List Str → Queries → Query

  pub data Queries : Type 0 where
    nil : Queries
    cons : Query → Queries → Queries

abbrev pub op_of : Query → QueryOp
op_of (query op ts qs) = op

abbrev pub trigrams_of : Query → List Str
trigrams_of (query op ts qs) = ts

abbrev pub subs_of : Query → Queries
subs_of (query op ts qs) = qs

abbrev pub length_subs : Queries → ℕ
length_subs nil = 0
length_subs (cons q qs) = suc (length_subs qs)

abbrev pub append_subs : Queries → Queries → Queries
append_subs nil rs = rs
append_subs (cons q qs) rs = cons q (append_subs qs rs)

abbrev pub op_eq : QueryOp → QueryOp → Bool
op_eq q_all q_all = true
op_eq q_none q_none = true
op_eq q_and q_and = true
op_eq q_or q_or = true
op_eq _ _ = false

-- `for i := range t { if isSubsetOf(t[i:i+1], q.Trigram) … }`
unfoldable pub any_in : List Str → List Str → Bool
any_in [] ts = false
any_in (t ∷ rest) ts = if is_subset_of (t ∷ []) ts then true else any_in rest ts

-- `trigramsImply`, with its two loops over `q.Sub`.
unfoldable mutual
  pub trigrams_imply : List Str → Query → Bool
  trigrams_imply t (query q_or ts qs) = some_implied t qs || any_in t ts
  trigrams_imply t (query q_and ts qs) = all_implied t qs && is_subset_of ts t
  trigrams_imply t (query q_all ts qs) = false
  trigrams_imply t (query q_none ts qs) = false

  pub some_implied : List Str → Queries → Bool
  some_implied t nil = false
  some_implied t (cons q qs) = trigrams_imply t q || some_implied t qs

  pub all_implied : List Str → Queries → Bool
  all_implied t nil = true
  all_implied t (cons q qs) = trigrams_imply t q && all_implied t qs

abbrev pub is_atom : Query → Bool
is_atom q = length (trigrams_of q) == 1 && length_subs (subs_of q) == 0

unfoldable pub implies : Query → Query → Bool
implies q r =
    if op_eq (op_of q) q_none || op_eq (op_of r) q_all
    then true
    else if op_eq (op_of q) q_all || op_eq (op_of r) q_none
    then false
    else if op_eq (op_of q) q_and || (op_eq (op_of q) q_or && is_atom q)
    then trigrams_imply (trigrams_of q) r
    else op_eq (op_of q) q_or
      && (op_eq (op_of r) q_or
          && (ltb 0 (length (trigrams_of q))
              && (length_subs (subs_of q) == 0 && is_subset_of (trigrams_of q) (trigrams_of r))))

-- The loops that take the common trigrams out: those, and what is left of `q` and of `r`.
pub record Factored : Type 0 where
  pub common : List Str
  pub left : List Str
  pub right : List Str

abbrev with_left : Str → Factored → Factored
with_left t f = record f { left = t ∷ f.left }

abbrev with_right : Str → Factored → Factored
with_right t f = record f { right = t ∷ f.right }

abbrev with_common : Str → Factored → Factored
with_common t f = record f { common = t ∷ f.common }

unfoldable pub factor : List Str → List Str → Factored
factor [] rts = record { common = []; left = []; right = rts }
factor (qt ∷ qts) [] = record { common = []; left = qt ∷ qts; right = [] }
factor (qt ∷ qts) (rt ∷ rts) = elim (str_lt qt rt) [
  | true ↦ with_left qt (factor qts (rt ∷ rts))
  | false ↦ elim (str_lt rt qt) [
    | true ↦ with_right rt (factor (qt ∷ qts) rts)
    | false ↦ with_common qt (factor qts rts)
  ]
]

-- `if len(q.Trigram) == 0 && len(q.Sub) == 1 { q = q.Sub[0] }`
unfoldable pub unwrap : Query → Query
unwrap (query op [] (cons q nil)) = q
unwrap (query op [] nil) = query op [] nil
unwrap (query op [] (cons q (cons r qs))) = query op [] (cons q (cons r qs))
unwrap (query op (t ∷ ts) qs) = query op (t ∷ ts) qs

-- `QAnd + QOr - op`
abbrev pub other_op : QueryOp → QueryOp
other_op q_and = q_or
other_op q_or = q_and
other_op op = op

abbrev pub pair : Query → Query → Queries
pair q r = cons q (cons r nil)

-- An AND of ORs or an OR of ANDs, with the common trigrams taken out of both. `again` is the
-- recursive call.
unfoldable pub factored :
    (Query → Query → QueryOp → Query) → Query → Query → QueryOp → Factored → Query
factored again (query qop _ qs) (query rop _ rs) op f = elim (f.common) [
  | [] ↦ query op [] (pair (query qop f.left qs) (query rop f.right rs))
  | t ∷ ts ↦
      again (query (other_op op) (t ∷ ts) nil)
        (again (query qop f.left qs) (query rop f.right rs) op) (other_op op)
]

-- The part of `andOr` behind the Boolean simplification.
unfoldable pub join_with : (Query → Query → QueryOp → Query) → Query → Query → QueryOp → Query
unfolding factored factor
join_with again q r op =
    if op_eq (op_of q) op && (op_eq (op_of r) op || is_atom r)
    then query op (union (trigrams_of q) (trigrams_of r)) (append_subs (subs_of q) (subs_of r))
    else if op_eq (op_of r) op && is_atom q
    then query op (union (trigrams_of r) (trigrams_of q)) (subs_of r)
    else if is_atom q && is_atom r
    then query op (trigrams_of q ++ trigrams_of r) (subs_of q)
    else if op_eq (op_of q) op
    then query op (trigrams_of q) (append_subs (subs_of q) (cons r nil))
    else if op_eq (op_of r) op
    then query op (trigrams_of r) (append_subs (subs_of r) (cons q nil))
    else factored again q r op (factor (trigrams_of q) (trigrams_of r))

-- `if q.implies(r) { if op == QAnd { return q }; return r }`, and the same with `q` and `r` swapped.
unfoldable pub simplified : (Query → Query → QueryOp → Query) → Query → Query → QueryOp → Query
unfolding implies join_with
simplified again q r op =
    if implies q r
    then (if op_eq op q_and then q else r)
    else if implies r q
    then (if op_eq op q_and then r else q)
    else join_with again q r op

-- `andOr`; its recursion is on fuel, and more than the trigrams of both queries is enough.
unfoldable pub and_or : ℕ → Query → Query → QueryOp → Query
unfolding simplified unwrap
and_or zero q r op = query op [] (pair q r)
and_or (suc fuel) q r op = simplified (and_or fuel) (unwrap q) (unwrap r) op

-- The trigrams of a query and of all that stands below it.
unfoldable mutual
  pub weight : Query → ℕ
  weight (query op ts qs) = length ts + weight_subs qs

  pub weight_subs : Queries → ℕ
  weight_subs nil = 0
  weight_subs (cons q qs) = weight q + weight_subs qs

unfoldable pub query_and : Query → Query → Query
unfolding and_or weight
query_and q r = and_or (suc (weight q + weight r)) q r q_and

unfoldable pub query_or : Query → Query → Query
unfolding and_or weight
query_or q r = and_or (suc (weight q + weight r)) q r q_or

abbrev pub all_query : Query
all_query = query q_all [] nil

abbrev pub none_query : Query
none_query = query q_none [] nil

-- The trigrams of a string, `tt[i : i+3]`.
unfoldable pub trigrams : Str → List Str
trigrams [] = []
trigrams (a ∷ []) = []
trigrams (a ∷ b ∷ []) = []
trigrams (a ∷ b ∷ c ∷ s) = (a ∷ b ∷ c ∷ []) ∷ trigrams (b ∷ c ∷ s)

-- The loop of `andTrigrams` over the strings of the set.
unfoldable pub or_trigrams : Query → List Str → Query
or_trigrams or [] = or
or_trigrams or (s ∷ t) = or_trigrams (query_or or (query q_and (clean (trigrams s)) nil)) t

unfoldable pub and_trigrams : Query → List Str → Query
and_trigrams q t = if ltb (min_len t) 3 then q else query_and q (or_trigrams none_query t)
