-- ===== src/Index/Query/Join.antt =====
-- The cases of `andOr` that make a new node: a plain pair, and a pair with its common trigrams taken
-- out.
use codesearch.Common.{◌≡◌, refl, arith, ◌∙◌, ap, sym, Bool, true}
use codesearch.Common.{List, [], ◌∷◌, inl, inr}
use codesearch.Common.Strings.{Str}
use codesearch.Index.Query.{
  QueryOp, Query, query, Queries, nil, cons, append_subs, other_op, pair, factored,
}
use codesearch.Index.Query.Logic.{
  apply, neutral, matches, holds_subs, holds_trigrams, IsJoin, well_formed, well_formed_subs,
}
use codesearch.Index.Query.Parts.{matches-parts}
use codesearch.Index.Query.Factoring.{IsFactored, distribute}

-- The result `x` is well formed and means `q` joined with `r` by `op`.
pub record Joins (d : Str → Bool) (op : QueryOp) (q r x : Query) : Type 0 where
  pub formed : well_formed x ≡ true
  pub means : matches d x ≡ apply op (matches d q) (matches d r)

pub well_formed-append :
    (qs rs : Queries)
    → well_formed_subs qs ≡ true
    → well_formed_subs rs ≡ true
    → well_formed_subs (append_subs qs rs) ≡ true
unfolding well_formed
well_formed-append nil rs p q = q
well_formed-append (cons x qs) rs p q = ground (arith, well_formed-append qs rs)

pub well_formed-query :
    (op : QueryOp) (ts : List Str) (qs : Queries)
    → IsJoin op
    → well_formed_subs qs ≡ true
    → well_formed (query op ts qs) ≡ true
unfolding well_formed
well_formed-query op ts qs (inl e) h = rw e h
well_formed-query op ts qs (inr e) h = rw e h

pub subs_formed :
    (op : QueryOp) (ts : List Str) (qs : Queries)
    → well_formed (query op ts qs) ≡ true
    → well_formed_subs qs ≡ true
unfolding well_formed
subs_formed op ts qs h = ground arith

pub one_formed : (q : Query) → well_formed q ≡ true → well_formed_subs (cons q nil) ≡ true
unfolding well_formed
one_formed q h = ground arith

pair_formed :
    (q r : Query) → well_formed q ≡ true → well_formed r ≡ true → well_formed_subs (pair q r) ≡ true
unfolding well_formed
pair_formed q r h k = ground arith

pub apply_comm : (op : QueryOp) (a b : Bool) → IsJoin op → apply op a b ≡ apply op b a
apply_comm op a b (inl e) = rw e (ground arith)
apply_comm op a b (inr e) = rw e (ground arith)

other-IsJoin : (op : QueryOp) → IsJoin op → IsJoin (other_op op)
other-IsJoin op (inl e) = rw e (inr refl)
other-IsJoin op (inr e) = rw e (inl refl)

nil_formed : well_formed_subs nil ≡ true
unfolding well_formed
nil_formed = refl

module _ (d : Str → Bool) where
  no_subs : (op : QueryOp) → holds_subs op d nil ≡ neutral op
  unfolding holds_subs
  no_subs op = refl

  neutral_left : (op : QueryOp) (a : Bool) → IsJoin op → apply op (holds_trigrams op d []) a ≡ a
  unfolding holds_trigrams
  neutral_left op a (inl e) = rw e
  neutral_left op a (inr e) = rw e

  matches-pair :
      (op : QueryOp) (q r : Query)
      → IsJoin op
      → matches d (query op [] (pair q r)) ≡ apply op (matches d q) (matches d r)
  unfolding matches holds_trigrams
  matches-pair op q r (inl e) = rw e (ground arith)
  matches-pair op q r (inr e) = rw e (ground arith)

  pub pair-Joins :
      (op : QueryOp) (q r : Query)
      → IsJoin op
      → well_formed q ≡ true
      → well_formed r ≡ true
      → Joins d op q r (query op [] (pair q r))
  pair-Joins op q r k h g = record {
    formed = well_formed-query op [] (pair q r) k (pair_formed q r h g);
    means = matches-pair op q r k;
  }

  module _ (again : Query → Query → QueryOp → Query)
      (sound : (q r : Query) (op : QueryOp)
        → IsJoin op
        → well_formed q ≡ true
        → well_formed r ≡ true
        → Joins d op q r (again q r op))
      (op : QueryOp) (k : IsJoin op) where
    taken_out :
        (a b t : Query) (c l x m y : Bool)
        → well_formed a ≡ true
        → well_formed b ≡ true
        → well_formed t ≡ true
        → matches d a ≡ apply (other_op op) l x
        → matches d b ≡ apply (other_op op) m y
        → matches d t ≡ apply (other_op op) c (neutral (other_op op))
        → (well_formed (again t (again a b op) (other_op op)) ≡ true)
          × (matches d (again t (again a b op) (other_op op))
              ≡ apply op
                  (apply (other_op op) (apply (other_op op) c l) x)
                  (apply (other_op op) (apply (other_op op) c m) y))
    taken_out a b t c l x m y fa fb ft ma mb mt =
        let s = sound a b op k fa fb in
        let o = sound t (again a b op) (other_op op) (other-IsJoin op k) ft s.formed in
        (o.formed, o.means ∙ rw (mt, s.means, ma, mb) (distribute op c l m x y k))

    pub factored-Joins :
        (ts us : List Str) (qs rs : Queries) (common left right : List Str)
        → IsFactored (other_op op) d ts us (record { common = common; left = left; right = right })
        → well_formed_subs qs ≡ true
        → well_formed_subs rs ≡ true
        → Joins d op (query (other_op op) ts qs) (query (other_op op) us rs) (
            factored again
              (query (other_op op) ts qs)
              (query (other_op op) us rs)
              op
              (record { common = common; left = left; right = right }))
    unfolding factored
    factored-Joins ts us qs rs [] left right split wq wr =
        let j = other-IsJoin op k in
        let a : Query = query (other_op op) left qs in
        let b : Query = query (other_op op) right rs in
        let p =
          pair-Joins op a b k (well_formed-query (other_op op) left qs j wq)
            (well_formed-query (other_op op) right rs j wr) in
        record {
          formed = p.formed;
          means = p.means ∙ rw (same left ts qs j split.of_left, same right us rs j split.of_right);
        }
      where
        same :
            (ls ts' : List Str) (xs : Queries)
            → IsJoin (other_op op)
            → holds_trigrams (other_op op) d ts'
              ≡ apply
                  (other_op op)
                  (holds_trigrams (other_op op) d [])
                  (holds_trigrams (other_op op) d ls)
            → matches d (query (other_op op) ls xs) ≡ matches d (query (other_op op) ts' xs)
        same ls ts' xs j e =
            matches-parts d (other_op op) ls xs j
            ∙ ap (λ v. apply (other_op op) v (holds_subs (other_op op) d xs))
                (sym (e ∙ neutral_left (other_op op) (holds_trigrams (other_op op) d ls) j))
            ∙ sym (matches-parts d (other_op op) ts' xs j)
    factored-Joins ts us qs rs (c ∷ cs) left right split wq wr =
        let j = other-IsJoin op k in
        let o = other_op op in
        let t =
          taken_out (query o left qs) (query o right rs) (query o (c ∷ cs) nil)
            (holds_trigrams o d (c ∷ cs)) (holds_trigrams o d left) (holds_subs o d qs)
            (holds_trigrams o d right) (holds_subs o d rs) (well_formed-query o left qs j wq)
            (well_formed-query o right rs j wr) (well_formed-query o (c ∷ cs) nil j nil_formed)
            (matches-parts d o left qs j) (matches-parts d o right rs j)
            (matches-parts d o (c ∷ cs) nil j
              ∙ ap (apply o (holds_trigrams o d (c ∷ cs))) (no_subs o)) in
        record {
          formed = t.0;
          means =
              t.1
              ∙ rw (
                matches-parts d o ts qs j,
                matches-parts d o us rs j,
                split.of_left,
                split.of_right,
              );
        }
