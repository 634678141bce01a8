-- ===== src/Sparse/Laws.antt =====
-- The operations of the sparse set against the plain list of its members.
use codesearch.Common.{ℕ, ◌+◌, ◌%◌, ◌^◌, ◌<◌, ◌≡◌, refl, arith, sym, ◌∙◌}
use codesearch.Common.{true, false, some, List, [], ◌∷◌, ◌++◌, inl, inr}
use codesearch.Common.{ltb, if◌then◌else◌, length, get_elem?, set}
use codesearch.Common.{
  get_elem?-lt, get_elem?_bound, get_elem?-set_self, get_elem?-set_ne, length-set, length-append,
  get_elem?-append_left, get_elem?-append_last, All-append, In-of_get_elem?, get_elem?_of_In,
  length-replicate, member, member→In, In→member, Bool-cases, ltb-false,
}
use codesearch.Sparse.{Set, IsValid, new_set, reset, add, has, is_at, holds_at}
use codesearch.Sparse.Bounds.{len-le}

-- The reference for `Add`: insertion at the end of the list of members.
unfoldable pub insert : ℕ → List ℕ → List ℕ
insert x xs = if member x xs then xs else xs ++ (x ∷ [])

is_at→some : (l : List ℕ) (v x : ℕ) → is_at l v x ≡ true → get_elem? l v ≡ some x
is_at→some l v x h = ground arith

some→is_at : (l : List ℕ) (v x : ℕ) → get_elem? l v ≡ some x → is_at l v x ≡ true
some→is_at l v x h = ground arith

-- The test of `Add` and `Has` is membership.
pub holds_at-member :
    (s : Set) (v x : ℕ)
    → IsValid s
    → get_elem? s.sparse x ≡ some v
    → holds_at s v x ≡ member x s.dense
holds_at-member s v x valid e = elim (Bool-cases (member x s.dense)) [
  | inl yes' ↦
      let (i, at) = get_elem?_of_In s.dense x (member→In x s.dense yes') in
      let same : v ≡ i = ground (arith, valid.located i x at) in
      rw (yes', same, some→is_at s.dense i x at)
        (ground (arith, get_elem?_bound s.dense i at, len-le s valid, valid.small))
  | inr no' ↦ elim (Bool-cases (holds_at s v x)) [
    | inl h ↦ absurd (
        ground (
          arith,
          In→member x s.dense (In-of_get_elem? s.dense v x (is_at→some s.dense v x (ground arith))),
        ))
    | inr h ↦ rw (no', h)
  ]
]

-- A value that is added behind `dense` is located by the updated `sparse`.
located-append :
    (s : Set) (x : ℕ)
    → IsValid s
    → x < length s.sparse
    → member x s.dense ≡ false
    → (i y : ℕ) → get_elem? (s.dense ++ (x ∷ [])) i ≡ some y
    → get_elem? (set s.sparse x (length s.dense)) y ≡ some i
located-append s x valid fits absent i y e = elim (Bool-cases (ltb i (length s.dense))) [
  | inl old ↦
      let at : get_elem? s.dense i ≡ some y =
        sym (get_elem?-append_left s.dense (x ∷ []) i (ground arith)) ∙ e in
      rw
        (get_elem?-set_ne s.sparse x y (length s.dense)
          (λ p. ground (arith, In→member x s.dense (In-of_get_elem? s.dense i x (rw p at)))))
        (valid.located i y at)
  | inr new ↦
      let last : i ≡ length s.dense = omega (arith, bound, ltb-false i (length s.dense) new) in
      let same : y ≡ x = ground (arith, get_elem?-append_last s.dense x) in
      rw (same, last) (get_elem?-set_self s.sparse x (length s.dense) fits)
]
  where
    bound : i < length s.dense + 1
    bound = omega (arith, get_elem?_bound (s.dense ++ (x ∷ [])) i e, length-append s.dense (x ∷ []))

-- What `Add` returns on a valid set: nothing panics and the members are those of `insert`.
pub record Added (s : Set) (x : ℕ) (s' : Set) : Type 0 where
  pub valid : IsValid s'
  pub dense : s'.dense ≡ insert x s.dense
  pub room : length s'.sparse ≡ length s.sparse

added_new :
    (s : Set) (x : ℕ)
    → IsValid s
    → x < length s.sparse
    → member x s.dense ≡ false
    → IsValid (record s { dense = s.dense ++ (x ∷ []); sparse = set s.sparse x (length s.dense) })
added_new s x valid fits absent = record {
  small = rw (length-set s.sparse x (length s.dense)) (valid.small);
  in_range =
      rw (length-set s.sparse x (length s.dense))
        (All-append (λ y. y < length s.sparse) s.dense (x ∷ []) valid.in_range (fits, tt));
  located = located-append s x valid fits absent;
}

-- On a valid set `Add` of a value below the maximum does not panic, keeps the invariant, appends
-- the value to the members unless it is one of them, and keeps the maximum.
pub add-insert :
    (s : Set) (x : ℕ)
    → IsValid s
    → x < length s.sparse
    → (s' : Set) × (add s x ≡ some s') × Added s x s'
unfolding add insert
add-insert s x valid fits =
    let (v, e) = get_elem?-lt s.sparse x fits in
    let wide : length s.dense % 2 ^ 32 ≡ length s.dense =
      omega (arith, len-le s valid, valid.small) in
    elim (Bool-cases (member x s.dense)) [
      | inl old ↦ (
        s,
        rw (e, add) (rw (holds_at-member s v x valid e, old)),
        record { valid = valid; dense = rw old; room = refl },
      )
      | inr new ↦ (
        record s { dense = s.dense ++ (x ∷ []); sparse = set s.sparse x (length s.dense) },
        rw (e, add) (rw (holds_at-member s v x valid e, new, wide)),
        record {
          valid = added_new s x valid fits new;
          dense = rw new;
          room = length-set s.sparse x (length s.dense);
        },
      )
    ]

-- On a valid set `Has` of a value below the maximum does not panic and answers whether the value
-- is among the members, whatever stale positions `sparse` holds.
pub has-member :
    (s : Set) (x : ℕ) → IsValid s → x < length s.sparse → has s x ≡ some (member x s.dense)
unfolding has
has-member s x valid fits =
    let (v, e) = get_elem?-lt s.sparse x fits in rw (e, has) (rw (holds_at-member s v x valid e))

-- Emptying keeps the invariant, though it leaves the positions in place.
pub reset-IsValid : (s : Set) → IsValid s → IsValid (reset s)
unfolding reset
reset-IsValid s valid = record {
  small = valid.small;
  in_range = tt;
  located = λ i x e. absurd (ground arith);
}

pub new_set-IsValid : (max : ℕ) → max < 2 ^ 32 → IsValid (new_set max)
unfolding new_set
new_set-IsValid max h = record {
  small = rw (length-replicate {A = ℕ} max 0) h;
  in_range = tt;
  located = λ i x e. absurd (ground arith);
}
