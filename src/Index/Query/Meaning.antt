-- ===== src/Index/Query/Meaning.antt =====
-- `andOr` keeps the meaning: its result matches what the AND or the OR of its arguments matches.
use codesearch.Common.{ℕ, zero, suc, ◌+◌, ◌≡◌, refl, arith, ◌∙◌, ap, subst, Bool, true, ◌&&◌, ◌||◌}
use codesearch.Common.{List, [], ◌∷◌, ◌++◌, inl, inr, Bool-cases, if◌then◌else◌}
use codesearch.Common.Strings.{Str}
use codesearch.Index.Query.{
  QueryOp, q_all, q_none, q_and, q_or, Query, query, Queries, nil, cons, op_eq, is_atom, implies,
  append_subs, factor, other_op, unwrap, factored, join_with, simplified, and_or, query_and, weight,
  query_or,
}
use codesearch.Index.StringSet.{union}
use codesearch.Index.Query.Logic.{
  apply, matches, holds_trigrams, IsJoin, well_formed, well_formed_subs,
}
use codesearch.Index.Query.Implies.{implies-matches}
use codesearch.Index.Query.Parts.{
  real_op, op_ne→other, same_parts, atom_matches, as_op, union-parts, append_parts, sub_parts,
}
use codesearch.Index.Query.Factoring.{factor-IsFactored}
use codesearch.Index.Query.Join.{
  Joins, well_formed-append, well_formed-query, subs_formed, one_formed, apply_comm, pair-Joins,
  factored-Joins,
}

-- A node that is well formed and means the two queries' parts.
joined :
    (d : Str → Bool) (op : QueryOp) (q r : Query) (ts : List Str) (xs : Queries) (a b : Bool)
    → IsJoin op
    → well_formed_subs xs ≡ true
    → matches d (query op ts xs) ≡ apply op a b
    → matches d q ≡ a
    → matches d r ≡ b
    → Joins d op q r (query op ts xs)
joined d op q r ts xs a b k w m p s = record {
  formed = well_formed-query op ts xs k w;
  means = m ∙ rw (p, s);
}

flip-Joins :
    (d : Str → Bool) (op : QueryOp) (q r x : Query)
    → IsJoin op
    → Joins d op r q x
    → Joins d op q r x
flip-Joins d op q r x k j = record {
  formed = j.formed;
  means = j.means ∙ apply_comm op (matches d r) (matches d q) k;
}

-- If `q` implies `r`, their AND is `q` and their OR is `r`.
implied-Joins :
    (d : Str → Bool) (op : QueryOp) (q r : Query)
    → IsJoin op
    → well_formed q ≡ true
    → well_formed r ≡ true
    → implies q r ≡ true
    → Joins d op q r (if op_eq op q_and then q else r)
implied-Joins d op q r (inl e) wq wr i =
    rw e (record { formed = wq; means = ground (arith, implies-matches d q r i) })
implied-Joins d op q r (inr e) wq wr i =
    rw e (record { formed = wr; means = ground (arith, implies-matches d q r i) })

append-no_subs : (rs : Queries) → append_subs rs nil ≡ rs
append-no_subs nil = refl
append-no_subs (cons r rs) = ap (cons r) (append-no_subs rs)

-- An atom has nothing below it, so appending what stands below it changes nothing.
append-atom :
    (op : QueryOp) (ts : List Str) (qs rs : Queries)
    → is_atom (query op ts qs) ≡ true
    → append_subs rs qs ≡ rs
append-atom op ts nil rs a = append-no_subs rs
append-atom op ts (cons q qs) rs a = ground arith

module _ (d : Str → Bool) (again : Query → Query → QueryOp → Query)
    (sound : (q r : Query) (op : QueryOp)
      → IsJoin op
      → well_formed q ≡ true
      → well_formed r ≡ true
      → Joins d op q r (again q r op))
    (op : QueryOp) (k : IsJoin op) where
  factor-Joins :
      (qop rop : QueryOp) (ts us : List Str) (qs rs : Queries)
      → qop ≡ other_op op
      → rop ≡ other_op op
      → well_formed_subs qs ≡ true
      → well_formed_subs rs ≡ true
      → Joins d op
          (query qop ts qs)
          (query rop us rs)
          (factored again (query qop ts qs) (query rop us rs) op (factor ts us))
  factor-Joins qop rop ts us qs rs e f wq wr =
      rw (e, f)
        (factored-Joins d again sound op k ts us qs rs (factor ts us).common (factor ts us).left
          (factor ts us).right (factor-IsFactored d (other_op op) ts us (other k)) wq wr)
    where
      other : IsJoin op → IsJoin (other_op op)
      other (inl p) = rw p (inr refl)
      other (inr p) = rw p (inl refl)

  join_with-Joins :
      (qop rop : QueryOp) (ts us : List Str) (qs rs : Queries)
      → IsJoin qop
      → IsJoin rop
      → well_formed_subs qs ≡ true
      → well_formed_subs rs ≡ true
      → Joins d op
          (query qop ts qs)
          (query rop us rs)
          (join_with again (query qop ts qs) (query rop us rs) op)
  unfolding join_with
  join_with-Joins qop rop ts us qs rs j i wq wr =
      elim (Bool-cases (op_eq qop op && (op_eq rop op || is_atom (query rop us rs)))) [
        | inl e ↦ rw e (
            joined d op _ _ _ _ _ _ k (well_formed-append qs rs wq wr)
              (union-parts d op ts us qs rs k) (same_parts d qop op ts qs j (ground arith))
              (as_op d rop op us rs i k (ground arith)))
        | inr e ↦ rw e (elim (Bool-cases (op_eq rop op && is_atom (query qop ts qs))) [
          | inl f ↦ rw f (
              flip-Joins d op _ _ _ k (
                subst
                  (λ x. Joins d op (query rop us rs) (query qop ts qs) (query op (union us ts) x))
                  (append-atom qop ts qs rs (ground arith))
                  (joined d op _ _ _ _ _ _ k (well_formed-append rs qs wr wq)
                    (union-parts d op us ts rs qs k) (same_parts d rop op us rs i (ground arith))
                    (atom_matches d qop op ts qs j k (ground arith)))))
          | inr f ↦
              rw f (elim (Bool-cases (is_atom (query qop ts qs) && is_atom (query rop us rs))) [
                | inl g ↦ rw g (
                    subst
                      (λ x. Joins d op (query qop ts qs) (query rop us rs) (query op (ts ++ us) x))
                      (append-atom rop us rs qs (ground arith))
                      (joined d op _ _ _ _ _ _ k (well_formed-append qs rs wq wr)
                        (append_parts d op ts us qs rs k)
                        (atom_matches d qop op ts qs j k (ground arith))
                        (atom_matches d rop op us rs i k (ground arith))))
                | inr g ↦ rw g (elim (Bool-cases (op_eq qop op)) [
                  | inl h ↦ rw h (
                      joined d op _ _ _ _ _ _ k
                        (well_formed-append qs (cons (query rop us rs) nil) wq
                          (one_formed _ (well_formed-query rop us rs i wr)))
                        (sub_parts d op ts qs (query rop us rs) k) (same_parts d qop op ts qs j h)
                        refl)
                  | inr h ↦ rw h (elim (Bool-cases (op_eq rop op)) [
                    | inl l ↦ rw l (
                        flip-Joins d op _ _ _ k (
                          joined d op _ _ _ _ _ _ k
                            (well_formed-append rs (cons (query qop ts qs) nil) wr
                              (one_formed _ (well_formed-query qop ts qs j wq)))
                            (sub_parts d op us rs (query qop ts qs) k)
                            (same_parts d rop op us rs i l) refl))
                    | inr l ↦ rw l (
                        factor-Joins qop rop ts us qs rs (op_ne→other qop op j k h)
                          (op_ne→other rop op i k l) wq wr)
                  ])
                ])
              ])
        ])
      ]

  simplified-Joins :
      (q r : Query)
      → well_formed q ≡ true
      → well_formed r ≡ true
      → Joins d op q r (simplified again q r op)
  unfolding simplified
  simplified-Joins (query qop ts qs) (query rop us rs) wq wr =
      let q : Query = query qop ts qs in
      let r : Query = query rop us rs in
      elim (Bool-cases (implies q r)) [
        | inl e ↦ rw e (implied-Joins d op q r k wq wr e)
        | inr e ↦ rw e (elim (Bool-cases (implies r q)) [
          | inl f ↦ rw f (flip-Joins d op q r _ k (implied-Joins d op r q k wr wq f))
          | inr f ↦
              let (j, i) = real_op q r e f in
              rw f (
                join_with-Joins qop rop ts us qs rs j i (subs_formed qop ts qs wq)
                  (subs_formed rop us rs wr))
        ])
      ]

unwrap_lem :
    (d : Str → Bool) (q : Query)
    → well_formed q ≡ true
    → (well_formed (unwrap q) ≡ true) × (matches d (unwrap q) ≡ matches d q)
unfolding unwrap well_formed matches holds_trigrams
unwrap_lem d (query q_and [] (cons q nil)) w = (ground arith, ground arith)
unwrap_lem d (query q_or [] (cons q nil)) w = (ground arith, ground arith)
unwrap_lem d (query q_all [] (cons q nil)) w = ground arith
unwrap_lem d (query q_none [] (cons q nil)) w = ground arith
unwrap_lem d (query op [] nil) w = (w, refl)
unwrap_lem d (query op [] (cons q (cons r qs))) w = (w, refl)
unwrap_lem d (query op (t ∷ ts) qs) w = (w, refl)

-- Whatever the fuel, the result of `andOr` is well formed and means the AND or OR of the arguments.
pub and_or-Joins :
    (d : Str → Bool) (fuel : ℕ) (q r : Query) (op : QueryOp)
    → IsJoin op
    → well_formed q ≡ true
    → well_formed r ≡ true
    → Joins d op q r (and_or fuel q r op)
unfolding and_or
and_or-Joins d zero q r op k wq wr = pair-Joins d op q r k wq wr
and_or-Joins d (suc fuel) q r op k wq wr =
    let (fq, mq) = unwrap_lem d q wq in
    let (fr, mr) = unwrap_lem d r wr in
    let s =
      simplified-Joins d (and_or fuel) (and_or-Joins d fuel) op k (unwrap q) (unwrap r) fq fr in
    record { formed = s.formed; means = s.means ∙ rw (mq, mr) }

pub query_and-Joins :
    (d : Str → Bool) (q r : Query)
    → well_formed q ≡ true
    → well_formed r ≡ true
    → Joins d q_and q r (query_and q r)
unfolding query_and
query_and-Joins d q r = and_or-Joins d (suc (weight q + weight r)) q r q_and (inl refl)

pub query_or-Joins :
    (d : Str → Bool) (q r : Query)
    → well_formed q ≡ true
    → well_formed r ≡ true
    → Joins d q_or q r (query_or q r)
unfolding query_or
query_or-Joins d q r = and_or-Joins d (suc (weight q + weight r)) q r q_or (inr refl)

-- For well-formed queries `q.and(r)` matches exactly the texts that both match.
pub query_and-matches :
    (d : Str → Bool) (q r : Query)
    → well_formed q ≡ true
    → well_formed r ≡ true
    → matches d (query_and q r) ≡ (matches d q && matches d r)
query_and-matches d q r wq wr = (query_and-Joins d q r wq wr).means

-- For well-formed queries `q.or(r)` matches exactly the texts that one of them matches.
pub query_or-matches :
    (d : Str → Bool) (q r : Query)
    → well_formed q ≡ true
    → well_formed r ≡ true
    → matches d (query_or q r) ≡ (matches d q || matches d r)
query_or-matches d q r wq wr = (query_or-Joins d q r wq wr).means
