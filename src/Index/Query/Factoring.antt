-- ===== src/Index/Query/Factoring.antt =====
-- Taking out common trigrams keeps the meaning: AND and OR distribute over one another.
use codesearch.Common.{◌≡◌, refl, arith, Bool}
use codesearch.Common.{List, [], ◌∷◌, inl, inr, Bool-cases}
use codesearch.Common.Strings.{Str, str_lt, str_lt_total}
use codesearch.Index.Query.{QueryOp, q_and, q_or, Factored, factor, other_op}
use codesearch.Index.Query.Logic.{apply, neutral, holds_trigrams, IsJoin}

-- The two lists, each put together again from what was taken out and what was left.
pub record IsFactored (op : QueryOp) (d : Str → Bool) (ts us : List Str) (f : Factored)
    : Type 0 where
  pub of_left :
      holds_trigrams op d ts ≡ apply op (holds_trigrams op d f.common) (holds_trigrams op d f.left)
  pub of_right :
      holds_trigrams op d us ≡ apply op (holds_trigrams op d f.common) (holds_trigrams op d f.right)

module _ (d : Str → Bool) where
  pub factor-and : (ts us : List Str) → IsFactored q_and d ts us (factor ts us)
  unfolding factor holds_trigrams
  factor-and [] us = record { of_left = refl; of_right = refl }
  factor-and (t ∷ ts) [] = record { of_left = refl; of_right = refl }
  factor-and (t ∷ ts) (u ∷ us) = elim (Bool-cases (str_lt t u)) [
    | inl e ↦
        let ih = factor-and ts (u ∷ us) in
        rw (e, factor) (record { of_left = ground (arith, ih.of_left); of_right = ih.of_right })
    | inr e ↦ elim (Bool-cases (str_lt u t)) [
      | inl g ↦
          let ih = factor-and (t ∷ ts) us in
          rw (e, factor)
            (rw (g, factor)
              (record { of_left = ih.of_left; of_right = ground (arith, ih.of_right) }))
      | inr g ↦
          let ih = factor-and ts us in
          let same = str_lt_total t u e g in
          rw (e, factor)
            (rw (g, factor)
              (record {
                of_left = ground (arith, ih.of_left);
                of_right = rw (← same) (ground (arith, ih.of_right));
              }))
    ]
  ]

  pub factor-or : (ts us : List Str) → IsFactored q_or d ts us (factor ts us)
  unfolding factor holds_trigrams
  factor-or [] us = record { of_left = refl; of_right = refl }
  factor-or (t ∷ ts) [] = record { of_left = refl; of_right = refl }
  factor-or (t ∷ ts) (u ∷ us) = elim (Bool-cases (str_lt t u)) [
    | inl e ↦
        let ih = factor-or ts (u ∷ us) in
        rw (e, factor) (record { of_left = ground (arith, ih.of_left); of_right = ih.of_right })
    | inr e ↦ elim (Bool-cases (str_lt u t)) [
      | inl g ↦
          let ih = factor-or (t ∷ ts) us in
          rw (e, factor)
            (rw (g, factor)
              (record { of_left = ih.of_left; of_right = ground (arith, ih.of_right) }))
      | inr g ↦
          let ih = factor-or ts us in
          let same = str_lt_total t u e g in
          rw (e, factor)
            (rw (g, factor)
              (record {
                of_left = ground (arith, ih.of_left);
                of_right = rw (← same) (ground (arith, ih.of_right));
              }))
    ]
  ]

  pub factor-IsFactored :
      (op : QueryOp) (ts us : List Str) → IsJoin op → IsFactored op d ts us (factor ts us)
  factor-IsFactored op ts us (inl e) = rw e (factor-and ts us)
  factor-IsFactored op ts us (inr e) = rw e (factor-or ts us)

-- (c ∨ a) ∧ (c ∨ b) = c ∨ (a ∧ b), and the same with the operations swapped; `x` and `y` are what
-- stands below the queries.
pub distribute :
    (op : QueryOp) (c a b x y : Bool)
    → IsJoin op
    → apply
        (other_op op)
        (apply (other_op op) c (neutral (other_op op)))
        (apply op (apply (other_op op) a x) (apply (other_op op) b y))
      ≡ apply op
          (apply (other_op op) (apply (other_op op) c a) x)
          (apply (other_op op) (apply (other_op op) c b) y)
distribute op c a b x y (inl e) = rw e (ground arith)
distribute op c a b x y (inr e) = rw e (ground arith)
