-- ===== src/Index/Sort/Order.antt =====
-- The sort orders entries by trigram, and keeps the order of those with one trigram.
use codesearch.Common.{
  ℕ, zero, suc, ◌+◌, ◌-◌, ◌/◌, ◌^◌, ◌≤◌, ◌<◌, ◌≡◌, ◌⊎◌, refl, arith, ◌∙◌, sym, subst,
}
use codesearch.Common.{Bool-cases, inl, inr, some}
use codesearch.Common.{
  List, [], ◌∷◌, ◌++◌, length-append, get_elem?-append_left, get_elem?-append_last, ltb, ◌==◌,
  length, get_elem?, take, get_elem?_bound, All, In, All-In, In-of_get_elem?, get_elem?_of_In,
  replicate, length-replicate, ◌↔◌,
}
use codesearch.Index.Sort.{sort_k, digit, sort_post}
use codesearch.Index.Sort.Pass.{
  count_of, count_below, count_below-suc, count_below-zero, count_below-lt, digit-lt, Placed,
  radix_round-Placed,
}

-- The entry with the digit `r` that has `k` such entries before it.
find_nth :
    (shift : ℕ) (post : List ℕ) (r k : ℕ)
    → k < count_of shift post r
    → (v p : ℕ) × (get_elem? post v ≡ some p)
      × (digit shift p ≡ r)
      × (count_of shift (take v post) r ≡ k)
unfolding count_of
find_nth shift [] r k h = elim h [ ]
find_nth shift (p ∷ post) r k h = elim (Bool-cases (digit shift p == r)) [
  | inr e ↦
      let (v, q, at, here, before) = find_nth shift post r k (ground (arith, h, e)) in
      (suc v, q, at, here, rw e before)
  | inl e ↦ elim (Bool-cases (k == 0)) [
    | inl z ↦ (0, p, refl, ground (arith, e), ground (arith, z))
    | inr z ↦
        let (v, q, at, here, before) = find_nth shift post r (k - 1) (ground (arith, h, e, z)) in
        (suc v, q, at, here, rw e (ground (arith, z, before)))
  ]
]

find_range :
    (shift : ℕ) (post : List ℕ) (i n : ℕ)
    → i < count_below shift post n
    → (r : ℕ) × (count_below shift post r ≤ i)
      × (i < count_below shift post r + count_of shift post r)
find_range shift post i zero h = absurd (omega (arith, h, count_below-zero shift post))
find_range shift post i (suc n) h = elim (Bool-cases (ltb i (count_below shift post n))) [
  | inl e ↦ find_range shift post i n (ground arith)
  | inr e ↦ (n, ground arith, omega (arith, h, count_below-suc shift post n))
]

count_below-all : (shift : ℕ) (post : List ℕ) → count_below shift post (2 ^ sort_k) ≡ length post
unfolding count_below
count_below-all shift [] = refl
count_below-all shift (p ∷ post) = ground (arith, digit-lt shift p, count_below-all shift post)

count_of-take_le :
    (shift : ℕ) (post : List ℕ) (r m n : ℕ)
    → m ≤ n
    → count_of shift (take m post) r ≤ count_of shift (take n post) r
unfolding count_of
count_of-take_le shift post r zero n h = omega arith
count_of-take_le shift post r (suc m) zero h = absurd (omega (arith, h))
count_of-take_le shift [] r (suc m) (suc n) h = omega arith
count_of-take_le shift (p ∷ post) r (suc m) (suc n) h =
    ground (arith, count_of-take_le shift post r m n (omega arith))

-- Each pair of entries, in order, is in the relation.
abbrev pub Pairwise : (ℕ → ℕ → Type 0) → List ℕ → Type 0
Pairwise Q l = (i j a b : ℕ) → i < j → get_elem? l i ≡ some a → get_elem? l j ≡ some b → Q a b

-- By the digit, and by `Q` where those agree.
abbrev Later : ℕ → (ℕ → ℕ → Type 0) → ℕ → ℕ → Type 0
Later shift Q a b = (digit shift a < digit shift b) ⊎ ((digit shift a ≡ digit shift b) × Q a b)

-- The entry that is in cell `i` behind a round, and where it was.
record Source (shift : ℕ) (post : List ℕ) (i a : ℕ) : Type 0 where
  v : ℕ
  from : get_elem? post v ≡ some a
  low : count_below shift post (digit shift a) ≤ i
  high : i < count_below shift post (digit shift a) + count_of shift post (digit shift a)
  cell : i ≡ count_below shift post (digit shift a) + count_of shift (take v post) (digit shift a)

Source-found :
    (shift : ℕ) (post tmp out : List ℕ) (i a : ℕ)
    → Placed (count_below shift post) shift post tmp out
    → (r v p : ℕ) → get_elem? out i ≡ some a
    → count_below shift post r ≤ i
    → i < count_below shift post r + count_of shift post r
    → get_elem? post v ≡ some p
    → digit shift p ≡ r
    → count_of shift (take v post) r ≡ i - count_below shift post r
    → Source shift post i a
Source-found shift post tmp out i a placed r v p at low high from here before =
    let cell : count_below shift post r + count_of shift (take v post) r ≡ i =
      omega (arith, before, low) in
    let spot : count_below shift post (digit shift p) + count_of shift (take v post) (digit shift p)
        ≡ i =
      rw here cell in
    let landed : get_elem? out i ≡ some p =
      subst (λ x. get_elem? out x ≡ some p) spot (placed.landed v p from) in
    let same : a ≡ p = ground (arith, at, landed) in
    subst (λ x. Source shift post i x) (sym same)
      (record { v = v; from = from; low = rw here low; high = rw here high; cell = sym spot })

Placed-Source :
    (shift : ℕ) (post tmp out : List ℕ) (i a : ℕ)
    → length tmp ≡ length post
    → Placed (count_below shift post) shift post tmp out
    → get_elem? out i ≡ some a
    → Source shift post i a
Placed-Source shift post tmp out i a size placed at =
    let inside : i < length post = omega (arith, get_elem?_bound out i at, placed.size, size) in
    let (r, low, high) =
      find_range shift post i (2 ^ sort_k) (omega (arith, inside, count_below-all shift post)) in
    let (v, p, from, here, before) =
      find_nth shift post r (i - count_below shift post r) (omega (arith, low, high)) in
    Source-found shift post tmp out i a placed r v p at low high from here before

Placed-Pairwise :
    (Q : ℕ → ℕ → Type 0) (shift : ℕ) (post tmp out : List ℕ)
    → length tmp ≡ length post
    → Placed (count_below shift post) shift post tmp out
    → Pairwise Q post
    → Pairwise (Later shift Q) out
Placed-Pairwise Q shift post tmp out size placed ordered i j a b h at_i at_j =
    let sa = Placed-Source shift post tmp out i a size placed at_i in
    let sb = Placed-Source shift post tmp out j b size placed at_j in
    elim (Bool-cases (ltb (digit shift a) (digit shift b))) [
      | inl e ↦ inl (ground arith)
      | inr e ↦ elim (Bool-cases (digit shift a == digit shift b)) [
        | inl k ↦
            let same : digit shift a ≡ digit shift b = ground arith in
            inr (same, ordered sa.v sb.v a b (first_before sa sb same) sa.from sb.from)
        | inr k ↦ absurd (
            omega (
              arith,
              h,
              sa.low,
              sb.high,
              count_below-lt shift post (digit shift b) (digit shift a) (ground arith),
            ))
      ]
    ]
  where
    first_before :
        (sa : Source shift post i a) (sb : Source shift post j b)
        → digit shift a ≡ digit shift b
        → sa.v < sb.v
    first_before sa sb same = elim (Bool-cases (ltb sa.v sb.v)) [
      | inl e ↦ ground arith
      | inr e ↦
          let less = count_of-take_le shift post (digit shift a) sb.v sa.v (ground arith) in
          let turn : j
              ≡ count_below shift post (digit shift a)
                + count_of shift (take sb.v post) (digit shift a) =
            rw same sb.cell in
          absurd (omega (arith, h, less, turn, sa.cell))
    ]

entry_order :
    (Q : ℕ → ℕ → Type 0) (a b : ℕ)
    → a < 2 ^ 56
    → b < 2 ^ 56
    → Later (32 + sort_k) (Later 32 Q) a b
    → (a / 2 ^ 32 < b / 2 ^ 32) ⊎ ((a / 2 ^ 32 ≡ b / 2 ^ 32) × Q a b)
unfolding digit
entry_order Q a b ha hb (inl l) = inl (omega arith)
entry_order Q a b ha hb (inr (e, inl l)) = inl (omega arith)
entry_order Q a b ha hb (inr (e, inr (k, q))) = inr (omega arith, q)

-- What the sort promises of entries that are in the order `Q`.
pub record IsSorting (Q : ℕ → ℕ → Type 0) (post out : List ℕ) : Type 0 where
  pub size : length out ≡ length post
  pub ordered :
      Pairwise (λ a b. (a / 2 ^ 32 < b / 2 ^ 32) ⊎ ((a / 2 ^ 32 ≡ b / 2 ^ 32) × Q a b)) out
  pub same_members : (a : ℕ) → In a out ↔ In a post

Placed-In :
    (shift : ℕ) (post tmp out : List ℕ) (a : ℕ)
    → length tmp ≡ length post
    → Placed (count_below shift post) shift post tmp out
    → In a out ↔ In a post
Placed-In shift post tmp out a size placed = (
  λ h.
      let (i, at) = get_elem?_of_In out a h in
      let s = Placed-Source shift post tmp out i a size placed at in
      In-of_get_elem? post s.v a s.from,
  λ h. let (v, at) = get_elem?_of_In post a h in In-of_get_elem? out _ a (placed.landed v a at),
)

-- On entries whose trigrams have 24 bits the sort does not panic: the result has the entries that
-- were given, ordered by trigram, and entries with one trigram stay in the order `Q` they came in.
pub sort_post-IsSorting :
    (Q : ℕ → ℕ → Type 0) (post : List ℕ)
    → All (λ p. p < 2 ^ 56) post
    → Pairwise Q post
    → (out : List ℕ) × (sort_post post ≡ some out) × IsSorting Q post out
unfolding sort_post
sort_post-IsSorting Q post small ordered =
    let zeros : length (replicate {A = ℕ} (length post) 0) ≡ length post =
      length-replicate {A = ℕ} (length post) 0 in
    let (mid, first, low) = radix_round-Placed 32 post (replicate (length post) 0) zeros in
    let size : length post ≡ length mid = omega (arith, low.size, zeros) in
    let (out, second, high) = radix_round-Placed (32 + sort_k) mid post size in
    let mids = Placed-Pairwise Q 32 post (replicate (length post) 0) mid zeros low ordered in
    let outs = Placed-Pairwise (Later 32 Q) (32 + sort_k) mid post out size high mids in
    let to_mid = λ (a : ℕ). Placed-In (32 + sort_k) mid post out a size high in
    let to_post = λ (a : ℕ). Placed-In 32 post (replicate (length post) 0) mid a zeros low in
    let bound = λ (i a : ℕ) (at : get_elem? out i ≡ some a).
      All-In (λ p. p < 2 ^ 56) post small a
        ((to_post a).0 ((to_mid a).0 (In-of_get_elem? out i a at))) in
    (
      out,
      rw (first, sort_post) second,
      record {
        size = high.size;
        ordered = λ i j a b h at_i at_j.
            entry_order Q a b (bound i a at_i) (bound j b at_j) (outs i j a b h at_i at_j);
        same_members =
            λ a. (λ h. (to_post a).0 ((to_mid a).0 h), λ h. (to_mid a).1 ((to_post a).1 h));
      },
    )

pub nil-Pairwise : (Q : ℕ → ℕ → Type 0) → Pairwise Q []
nil-Pairwise Q i j a b h at_i at_j = absurd (ground arith)

pub append-Pairwise :
    (Q : ℕ → ℕ → Type 0) (l : List ℕ) (x : ℕ)
    → Pairwise Q l
    → ((a : ℕ) → In a l → Q a x)
    → Pairwise Q (l ++ (x ∷ []))
append-Pairwise Q l x ordered last i j a b h at_i at_j =
    let inside : j < length l + 1 =
      omega (arith, get_elem?_bound (l ++ (x ∷ [])) j at_j, length-append l (x ∷ [])) in
    let left : get_elem? l i ≡ some a =
      sym (get_elem?-append_left l (x ∷ []) i (omega (arith, h, inside))) ∙ at_i in
    elim (Bool-cases (ltb j (length l))) [
      | inl e ↦
          ordered i j a b h left (sym (get_elem?-append_left l (x ∷ []) j (ground arith)) ∙ at_j)
      | inr e ↦
          let end : length l ≡ j = ground arith in
          let at : get_elem? (l ++ (x ∷ [])) (length l) ≡ some b =
            subst (λ k. get_elem? (l ++ (x ∷ [])) k ≡ some b) (sym end) at_j in
          let same : b ≡ x = ground (arith, at, get_elem?-append_last l x) in
          rw same (last a (In-of_get_elem? l i a left))
    ]
