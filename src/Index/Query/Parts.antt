-- ===== src/Index/Query/Parts.antt =====
-- The meaning of a query as its two parts, its trigrams and what stands below it, joined by its
-- operation.
use codesearch.Common.{◌≡◌, refl, arith, ◌∙◌, ap, Bool, true, false, ◌||◌}
use codesearch.Common.{List, [], ◌∷◌, ◌++◌, inl, inr, Bool-cases}
use codesearch.Common.Strings.{Str}
use codesearch.Index.StringSet.{union}
use codesearch.Index.Query.{
  QueryOp, q_all, q_none, q_and, q_or, Query, query, Queries, nil, cons, op_of, append_subs, op_eq,
  is_atom, implies, other_op,
}
use codesearch.Index.Query.Logic.{
  apply, matches, holds_subs, holds_trigrams, IsJoin, holds_subs-append, holds_trigrams-append,
  holds_trigrams-union,
}

-- Two queries that do not imply one another are an AND or an OR.
pub real_op :
    (q r : Query) → implies q r ≡ false → implies r q ≡ false → IsJoin (op_of q) × IsJoin (op_of r)
unfolding implies
real_op (query q_and ts qs) (query q_and us rs) e f = (inl refl, inl refl)
real_op (query q_and ts qs) (query q_or us rs) e f = (inl refl, inr refl)
real_op (query q_or ts qs) (query q_and us rs) e f = (inr refl, inl refl)
real_op (query q_or ts qs) (query q_or us rs) e f = (inr refl, inr refl)
real_op (query q_none ts qs) r e f = ground arith
real_op (query q_all ts qs) (query q_all us rs) e f = ground arith
real_op (query q_all ts qs) (query q_none us rs) e f = ground arith
real_op (query q_all ts qs) (query q_and us rs) e f = ground arith
real_op (query q_all ts qs) (query q_or us rs) e f = ground arith
real_op (query q_and ts qs) (query q_all us rs) e f = ground arith
real_op (query q_and ts qs) (query q_none us rs) e f = ground arith
real_op (query q_or ts qs) (query q_all us rs) e f = ground arith
real_op (query q_or ts qs) (query q_none us rs) e f = ground arith

op_eq→eq : (a b : QueryOp) → op_eq a b ≡ true → a ≡ b
op_eq→eq q_all q_all e = refl
op_eq→eq q_none q_none e = refl
op_eq→eq q_and q_and e = refl
op_eq→eq q_or q_or e = refl
op_eq→eq _ _ e = ground arith

-- An operation that is not `op` is the other one.
pub op_ne→other : (a op : QueryOp) → IsJoin a → IsJoin op → op_eq a op ≡ false → a ≡ other_op op
op_ne→other q_and q_or j k e = refl
op_ne→other q_or q_and j k e = refl
op_ne→other q_and q_and j k e = ground arith
op_ne→other q_or q_or j k e = ground arith
op_ne→other _ _ j k e = ground arith

-- Boolean algebra of one operation.
exchange :
    (op : QueryOp) (a b c e : Bool)
    → IsJoin op
    → apply op (apply op a b) (apply op c e) ≡ apply op (apply op a c) (apply op b e)
exchange op a b c e (inl h) = rw h (ground arith)
exchange op a b c e (inr h) = rw h (ground arith)

module _ (d : Str → Bool) where
  -- The two parts of a query, under an operation.
  abbrev pub parts : QueryOp → List Str → Queries → Bool
  parts op ts qs = apply op (holds_trigrams op d ts) (holds_subs op d qs)

  pub matches-parts :
      (op : QueryOp) (ts : List Str) (qs : Queries)
      → IsJoin op
      → matches d (query op ts qs) ≡ parts op ts qs
  unfolding matches
  matches-parts op ts qs (inl e) = rw e
  matches-parts op ts qs (inr e) = rw e

  -- A single trigram means the same under either operation.
  atom_parts :
      (qop op : QueryOp) (ts : List Str) (qs : Queries)
      → IsJoin qop
      → IsJoin op
      → is_atom (query qop ts qs) ≡ true
      → parts qop ts qs ≡ parts op ts qs
  unfolding holds_trigrams holds_subs
  atom_parts qop op [] qs j k a = ground arith
  atom_parts qop op (t ∷ u ∷ ts) qs j k a = ground arith
  atom_parts qop op (t ∷ []) (cons q qs) j k a = ground arith
  atom_parts qop op (t ∷ []) nil (inl e) (inl f) a = rw (e, f)
  atom_parts qop op (t ∷ []) nil (inl e) (inr f) a = rw (e, f) (ground arith)
  atom_parts qop op (t ∷ []) nil (inr e) (inl f) a = rw (e, f) (ground arith)
  atom_parts qop op (t ∷ []) nil (inr e) (inr f) a = rw (e, f)

  pub same_parts :
      (qop op : QueryOp) (ts : List Str) (qs : Queries)
      → IsJoin qop
      → op_eq qop op ≡ true
      → matches d (query qop ts qs) ≡ parts op ts qs
  same_parts qop op ts qs j e =
      matches-parts qop ts qs j ∙ ap (λ o. parts o ts qs) (op_eq→eq qop op e)

  pub atom_matches :
      (qop op : QueryOp) (ts : List Str) (qs : Queries)
      → IsJoin qop
      → IsJoin op
      → is_atom (query qop ts qs) ≡ true
      → matches d (query qop ts qs) ≡ parts op ts qs
  atom_matches qop op ts qs j k a = matches-parts qop ts qs j ∙ atom_parts qop op ts qs j k a

  pub as_op :
      (qop op : QueryOp) (ts : List Str) (qs : Queries)
      → IsJoin qop
      → IsJoin op
      → (op_eq qop op || is_atom (query qop ts qs)) ≡ true
      → matches d (query qop ts qs) ≡ parts op ts qs
  as_op qop op ts qs j k e = elim (Bool-cases (op_eq qop op)) [
    | inl s ↦ same_parts qop op ts qs j s
    | inr s ↦ atom_matches qop op ts qs j k (ground arith)
  ]

  -- The parts of two queries under the operation, put together.
  pub union-parts :
      (op : QueryOp) (ts us : List Str) (qs rs : Queries)
      → IsJoin op
      → matches d (query op (union ts us) (append_subs qs rs))
        ≡ apply op (parts op ts qs) (parts op us rs)
  union-parts op ts us qs rs k =
      matches-parts op (union ts us) (append_subs qs rs) k
      ∙ rw (holds_trigrams-union d op ts us k, holds_subs-append d op qs rs)
          (exchange op (holds_trigrams op d ts) (holds_trigrams op d us) (holds_subs op d qs)
            (holds_subs op d rs) k)

  pub append_parts :
      (op : QueryOp) (ts us : List Str) (qs rs : Queries)
      → IsJoin op
      → matches d (query op (ts ++ us) (append_subs qs rs))
        ≡ apply op (parts op ts qs) (parts op us rs)
  append_parts op ts us qs rs k =
      matches-parts op (ts ++ us) (append_subs qs rs) k
      ∙ rw (holds_trigrams-append d op ts us, holds_subs-append d op qs rs)
          (exchange op (holds_trigrams op d ts) (holds_trigrams op d us) (holds_subs op d qs)
            (holds_subs op d rs) k)

  -- A query added to the parts of another.
  pub sub_parts :
      (op : QueryOp) (ts : List Str) (qs : Queries) (r : Query)
      → IsJoin op
      → matches d (query op ts (append_subs qs (cons r nil)))
        ≡ apply op (parts op ts qs) (matches d r)
  unfolding holds_subs
  sub_parts op ts qs r (inl e) = rw e (
      matches-parts q_and ts (append_subs qs (cons r nil)) (inl refl)
      ∙ rw (holds_subs-append d q_and qs (cons r nil)) (ground arith))
  sub_parts op ts qs r (inr e) = rw e (
      matches-parts q_or ts (append_subs qs (cons r nil)) (inr refl)
      ∙ rw (holds_subs-append d q_or qs (cons r nil)) (ground arith))
