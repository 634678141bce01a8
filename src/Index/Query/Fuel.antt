-- ===== src/Index/Query/Fuel.antt =====
-- The fuel of `andOr`: more than the trigrams of both arguments is never used up.
use codesearch.Common.{ℕ, zero, suc, ◌+◌, ◌≤◌, ◌<◌, ◌≡◌, refl, arith, ◌∙◌, ap, true, ◌&&◌, ◌||◌}
use codesearch.Common.{List, [], ◌∷◌, inl, inr, Bool-cases, length}
use codesearch.Common.Strings.{Str}
use codesearch.Index.Query.{
  QueryOp, q_and, q_or, Query, query, Queries, nil, cons, op_of, op_eq, is_atom, Factored, factor,
  other_op, unwrap, factored, join_with, simplified, and_or, weight,
}

-- The common trigrams and what is left count for the trigrams that there were.
record IsSplit (ts us : List Str) (f : Factored) : Type 0 where
  of_left : length f.common + length f.left ≡ length ts
  of_right : length f.common + length f.right ≡ length us

factor-IsSplit : (ts us : List Str) → IsSplit ts us (factor ts us)
unfolding factor
factor-IsSplit [] us = record { of_left = omega arith; of_right = omega arith }
factor-IsSplit (t ∷ ts) [] = record { of_left = omega arith; of_right = omega arith }
factor-IsSplit (t ∷ ts) (u ∷ us) =
    ground (arith, factor-IsSplit ts (u ∷ us), factor-IsSplit (t ∷ ts) us, factor-IsSplit ts us)

abbrev Again : Type 0
Again = Query → Query → QueryOp → Query

-- Where one argument has the operation already, the recursive call is not reached.
join_with_settled :
    (a b : Again) (q r : Query) (op : QueryOp)
    → op_eq (op_of q) op ≡ true
    → join_with a q r op ≡ join_with b q r op
unfolding join_with
join_with_settled a b q r op e = rw e (elim (Bool-cases (op_eq (op_of r) op || is_atom r)) [
  | inl f ↦ rw f
  | inr f ↦ rw f (elim (Bool-cases (op_eq (op_of r) op && is_atom q)) [
    | inl g ↦ rw g
    | inr g ↦ rw g (elim (Bool-cases (is_atom q && is_atom r)) [ inl h ↦ rw h | inr h ↦ rw h ])
  ])
])

simplified_settled :
    (a b : Again) (q r : Query) (op : QueryOp)
    → op_eq (op_of q) op ≡ true
    → simplified a q r op ≡ simplified b q r op
unfolding simplified
simplified_settled a b q r op e = rw (join_with_settled a b q r op e)

op_eq_refl : (op : QueryOp) → op_eq op op ≡ true
op_eq_refl q_and = refl
op_eq_refl q_or = refl
op_eq_refl _ = refl

and_or_settled :
    (f g : ℕ) (c : Str) (cs : List Str) (s : Query) (op : QueryOp)
    → 0 < f
    → 0 < g
    → and_or f (query op (c ∷ cs) nil) s op ≡ and_or g (query op (c ∷ cs) nil) s op
unfolding and_or
and_or_settled zero g c cs s op h k = absurd (omega arith)
and_or_settled (suc f) zero c cs s op h k = absurd (omega arith)
and_or_settled (suc f) (suc g) c cs s op h k =
    simplified_settled (and_or f) (and_or g) (query op (c ∷ cs) nil) (unwrap s) op (op_eq_refl op)

module _ (f g : ℕ) (bound : ℕ)
    (agree : (q r : Query) (op : QueryOp)
      → weight q + weight r < bound
      → and_or f q r op ≡ and_or g q r op)
    (pf : bound ≤ f) (pg : bound ≤ g) where
  factored_agree :
      (qop rop op : QueryOp) (ts us : List Str) (qs rs : Queries) (common left right : List Str)
      → IsSplit ts us (record { common = common; left = left; right = right })
      → weight (query qop ts qs) + weight (query rop us rs) ≤ bound
      → factored
          (and_or f)
          (query qop ts qs)
          (query rop us rs)
          op
          (record { common = common; left = left; right = right })
        ≡ factored
            (and_or g)
            (query qop ts qs)
            (query rop us rs)
            op
            (record { common = common; left = left; right = right })
  unfolding factored weight
  factored_agree qop rop op ts us qs rs [] left right s w = refl
  factored_agree qop rop op ts us qs rs (c ∷ cs) left right s w =
      and_or_settled f g c cs _ (other_op op) (omega (arith, s.of_left)) (omega (arith, s.of_left))
      ∙ ap (λ x. and_or g (query (other_op op) (c ∷ cs) nil) x (other_op op))
          (agree (query qop left qs) (query rop right rs) op (omega (arith, s.of_left, s.of_right)))

  join_with_agree :
      (q r : Query) (op : QueryOp)
      → weight q + weight r ≤ bound
      → join_with (and_or f) q r op ≡ join_with (and_or g) q r op
  unfolding join_with
  join_with_agree (query qop ts qs) (query rop us rs) op w = rw (
      factored_agree qop rop op ts us qs rs (factor ts us).common (factor ts us).left
        (factor ts us).right (factor-IsSplit ts us) w)

  simplified_agree :
      (q r : Query) (op : QueryOp)
      → weight q + weight r ≤ bound
      → simplified (and_or f) q r op ≡ simplified (and_or g) q r op
  unfolding simplified
  simplified_agree q r op w = rw (join_with_agree q r op w)

weight-unwrap : (q : Query) → weight (unwrap q) ≤ weight q
unfolding unwrap weight
weight-unwrap (query op [] (cons q nil)) = omega arith
weight-unwrap (query op [] nil) = omega arith
weight-unwrap (query op [] (cons q (cons r qs))) = omega arith
weight-unwrap (query op (t ∷ ts) qs) = omega arith

-- The result of `andOr` is the same for every fuel above the trigrams of both queries, so the model
-- never stops before the recursion of the source does.
pub and_or_fuel :
    (f g : ℕ) (q r : Query) (op : QueryOp)
    → weight q + weight r < f
    → weight q + weight r < g
    → and_or f q r op ≡ and_or g q r op
unfolding and_or
and_or_fuel zero g q r op h k = absurd (omega arith)
and_or_fuel (suc f) zero q r op h k = absurd (omega arith)
and_or_fuel (suc f) (suc g) q r op h k =
    simplified_agree f g (weight q + weight r)
      (λ a b o w. and_or_fuel f g a b o (omega arith) (omega arith)) (omega arith) (omega arith)
      (unwrap q) (unwrap r) op (omega (arith, weight-unwrap q, weight-unwrap r))
