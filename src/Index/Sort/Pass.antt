-- ===== src/Index/Sort/Pass.antt =====
-- One round of the sort is stable: where each entry goes.
use codesearch.Common.{
  ℕ, zero, suc, ◌+◌, ◌^◌, ◌≤◌, ◌<◌, ◌≡◌, ◌≢◌, ◌⊎◌, refl, arith, ◌∙◌, ap, sym, subst,
}
use codesearch.Common.{Bool-cases, inl, inr, some}
use codesearch.Common.{
  List, [], ◌∷◌, ltb, ◌==◌, if◌then◌else◌, length, get_elem?, set, replicate, take,
}
use codesearch.Common.{
  length-set, length-replicate, get_elem?-set_self, get_elem?-set_ne, get_elem?-lt,
}
use codesearch.Index.Sort.{sort_k, digit, count_digits, running_sums, place, radix_round}

-- How many entries have the digit `r`, and how many have a smaller one.
unfoldable pub count_of : ℕ → List ℕ → ℕ → ℕ
count_of shift [] r = 0
count_of shift (p ∷ post) r =
    let rest = count_of shift post r in if digit shift p == r then rest + 1 else rest

unfoldable pub count_below : ℕ → List ℕ → ℕ → ℕ
count_below shift [] r = 0
count_below shift (p ∷ post) r =
    let rest = count_below shift post r in if ltb (digit shift p) r then rest + 1 else rest

pub count_below-suc :
    (shift : ℕ) (post : List ℕ) (r : ℕ)
    → count_below shift post (suc r) ≡ count_below shift post r + count_of shift post r
unfolding count_of count_below
count_below-suc shift [] r = refl
count_below-suc shift (p ∷ post) r = ground (arith, count_below-suc shift post r)

pub count_below-zero : (shift : ℕ) (post : List ℕ) → count_below shift post 0 ≡ 0
unfolding count_below
count_below-zero shift [] = refl
count_below-zero shift (p ∷ post) = ground (arith, count_below-zero shift post)

-- Digits that differ have their ranges one behind the other.
pub count_below-lt :
    (shift : ℕ) (post : List ℕ) (r s : ℕ)
    → r < s
    → count_below shift post r + count_of shift post r ≤ count_below shift post s
unfolding count_of count_below
count_below-lt shift [] r s h = omega arith
count_below-lt shift (p ∷ post) r s h = ground (arith, count_below-lt shift post r s h)

count_below-le :
    (shift : ℕ) (post : List ℕ) (r : ℕ)
    → count_below shift post r + count_of shift post r ≤ length post
unfolding count_of count_below
count_below-le shift [] r = omega arith
count_below-le shift (p ∷ post) r = ground (arith, count_below-le shift post r)

count_of-head :
    (shift p : ℕ) (post : List ℕ) (r : ℕ)
    → count_of shift (p ∷ post) r
      ≡ (if digit shift p == r then count_of shift post r + 1 else count_of shift post r)
unfolding count_of
count_of-head shift p post r = refl

pub digit-lt : (shift p : ℕ) → digit shift p < 2 ^ sort_k
unfolding digit
digit-lt shift p = omega arith

-- The array has a cell for each digit, with these values.
abbrev Holds : List ℕ → (ℕ → ℕ) → Type 0
Holds counts f =
    (length counts ≡ 2 ^ sort_k) × ((r : ℕ) → r < 2 ^ sort_k → get_elem? counts r ≡ some (f r))

abbrev write_at : ℕ → ℕ → (ℕ → ℕ) → ℕ → ℕ
write_at d v f r = if d == r then v else f r

set-Holds :
    (counts : List ℕ) (f : ℕ → ℕ) (d v : ℕ)
    → Holds counts f
    → d < 2 ^ sort_k
    → Holds (set counts d v) (write_at d v f)
set-Holds counts f d v (size, values) h = (
  length-set counts d v ∙ size,
  λ r k. elim (Bool-cases (d == r)) [
    | inl e ↦
        let same : r ≡ d = ground arith in
        rw e (rw same (get_elem?-set_self counts d v (omega arith)))
    | inr e ↦ rw e (get_elem?-set_ne counts d r v (λ same. ground arith) ∙ values r k)
  ],
)

Holds-cong :
    (counts : List ℕ) (f g : ℕ → ℕ) → ((r : ℕ) → f r ≡ g r) → Holds counts f → Holds counts g
Holds-cong counts f g e (size, values) = (size, λ r h. values r h ∙ ap some (e r))

-- A cell that moves on by an entry ends where it did.
same_end :
    (shift p : ℕ) (post : List ℕ) (f : ℕ → ℕ) (r : ℕ)
    → write_at (digit shift p) (f (digit shift p) + 1) f r + count_of shift post r
      ≡ f r + count_of shift (p ∷ post) r
unfolding count_of
same_end shift p post f r = elim (Bool-cases (digit shift p == r)) [
  | inl e ↦ let same : r ≡ digit shift p = ground arith in rw e (rw same (omega arith))
  | inr e ↦ rw e refl
]

later_start : (d r : ℕ) (f : ℕ → ℕ) → f r ≤ write_at d (f d + 1) f r
later_start d r f = elim (Bool-cases (d == r)) [
  | inl e ↦ let same : r ≡ d = ground arith in rw e (rw same (omega arith))
  | inr e ↦ rw e (omega arith)
]

count_digits-Holds :
    (shift : ℕ) (post counts : List ℕ) (f : ℕ → ℕ)
    → Holds counts f
    → (counts' : List ℕ) × (count_digits shift counts post ≡ some counts')
      × Holds counts' (λ r. f r + count_of shift post r)
unfolding count_digits count_of
count_digits-Holds shift [] counts f h =
    (counts, refl, Holds-cong counts f (λ r. f r + 0) (λ r. omega arith) h)
count_digits-Holds shift (p ∷ post) counts f h =
    let d = digit shift p in
    let (counts', run, done) =
      count_digits-Holds shift post (set counts d (f d + 1)) (write_at d (f d + 1) f)
        (set-Holds counts f d (f d + 1) h (digit-lt shift p)) in
    (
      counts',
      rw (h.1 d (digit-lt shift p), count_digits) run,
      Holds-cong counts' _ _ (same_end shift p post f) done,
    )

running_sums-get :
    (shift : ℕ) (post counts : List ℕ) (tot i j : ℕ)
    → ((k : ℕ) → k < length counts → get_elem? counts k ≡ some (count_of shift post (i + k)))
    → tot ≡ count_below shift post i
    → j < length counts
    → get_elem? (running_sums tot counts) j ≡ some (count_below shift post (i + j))
unfolding running_sums
running_sums-get shift post [] tot i j h e k = elim k [ ]
running_sums-get shift post (count ∷ counts) tot i zero h e k =
    let at : i + 0 ≡ i = omega arith in rw at (ap some e)
running_sums-get shift post (count ∷ counts) tot i (suc j) h e k =
    let here : some count ≡ some (count_of shift post (i + 0)) = h 0 (omega arith) in
    let at : i + 0 ≡ i = omega arith in
    let one : count ≡ count_of shift post i =
      subst (λ x. count ≡ count_of shift post x) at (ground arith) in
    let next : suc i + j ≡ i + suc j = omega arith in
    subst (λ x. get_elem? (running_sums (tot + count) counts) j ≡ some (count_below shift post x))
      next
      (running_sums-get shift post counts (tot + count) (suc i) j
        (λ x m.
          let step : suc i + x ≡ i + suc x = omega arith in
          subst (λ y. get_elem? counts x ≡ some (count_of shift post y)) (sym step)
            (h (suc x) (omega arith)))
        (omega (arith, count_below-suc shift post i, one, e)) (omega arith))

abbrev Room : (ℕ → ℕ) → ℕ → List ℕ → ℕ → Type 0
Room f shift post size =
    ((r : ℕ) → r < 2 ^ sort_k → f r + count_of shift post r ≤ size)
    × ((r s : ℕ) → r < s → s < 2 ^ sort_k → f r + count_of shift post r ≤ f s)

-- What placing the entries from the cells `f` on comes to: each lands behind those with its digit
-- that stand before it, and nothing else is written.
pub record Placed (f : ℕ → ℕ) (shift : ℕ) (post tmp tmp' : List ℕ) : Type 0 where
  pub size : length tmp' ≡ length tmp
  pub kept :
      (i : ℕ)
      → ((r : ℕ) → r < 2 ^ sort_k → (i < f r) ⊎ (f r + count_of shift post r ≤ i))
      → get_elem? tmp' i ≡ get_elem? tmp i
  pub landed :
      (v p : ℕ)
      → get_elem? post v ≡ some p
      → get_elem? tmp' (f (digit shift p) + count_of shift (take v post) (digit shift p)) ≡ some p

Room-tail :
    (f : ℕ → ℕ) (shift p : ℕ) (post : List ℕ) (size : ℕ)
    → Room f shift (p ∷ post) size
    → Room (write_at (digit shift p) (f (digit shift p) + 1) f) shift post size
Room-tail f shift p post size (within, apart) = (
  λ r h. omega (arith, same_end shift p post f r, within r h),
  λ r s k h.
      omega (arith, same_end shift p post f r, later_start (digit shift p) s f, apart r s k h),
)

first-Room :
    (f : ℕ → ℕ) (shift p : ℕ) (post : List ℕ) (size : ℕ)
    → Room f shift (p ∷ post) size
    → f (digit shift p) < size
unfolding count_of
first-Room f shift p post size (within, apart) =
    let most = within (digit shift p) (digit-lt shift p) in ground arith

first_counts : (shift p : ℕ) (post : List ℕ) → 0 < count_of shift (p ∷ post) (digit shift p)
unfolding count_of
first_counts shift p post = ground arith

-- The first entry's cell is outside the ranges that are left.
first_apart :
    (f : ℕ → ℕ) (shift p : ℕ) (post : List ℕ) (size r : ℕ)
    → Room f shift (p ∷ post) size
    → r < 2 ^ sort_k
    → let d = digit shift p in
      (f d < write_at d (f d + 1) f r) ⊎ (write_at d (f d + 1) f r + count_of shift post r ≤ f d)
first_apart f shift p post size r (within, apart) h =
    let d = digit shift p in
    elim (Bool-cases (ltb r d)) [
      | inl e ↦
          inr
            (omega (arith, same_end shift p post f r, apart r d (ground arith) (digit-lt shift p)))
      | inr e ↦ elim (Bool-cases (d == r)) [
        | inl k ↦ inl (rw k (omega arith))
        | inr k ↦ inl (
            omega (arith, first_counts shift p post, later_start d r f, apart d r (ground arith) h))
      ]
    ]

still_out :
    (f : ℕ → ℕ) (shift p : ℕ) (post : List ℕ) (i r : ℕ)
    → (i < f r) ⊎ (f r + count_of shift (p ∷ post) r ≤ i)
    → (i < write_at (digit shift p) (f (digit shift p) + 1) f r)
      ⊎ (write_at (digit shift p) (f (digit shift p) + 1) f r + count_of shift post r ≤ i)
still_out f shift p post i r (inl b) = inl (omega (arith, b, later_start (digit shift p) r f))
still_out f shift p post i r (inr b) = inr (omega (arith, b, same_end shift p post f r))

first_kept :
    (f : ℕ → ℕ) (shift p : ℕ) (post : List ℕ) (i : ℕ)
    → (i < f (digit shift p)) ⊎ (f (digit shift p) + count_of shift (p ∷ post) (digit shift p) ≤ i)
    → f (digit shift p) ≢ i
first_kept f shift p post i (inl b) same = absurd (omega (arith, b, same))
first_kept f shift p post i (inr b) same =
    absurd (omega (arith, b, same, first_counts shift p post))

-- Where an entry lands is the cell that is its digit's turn.
landed_next :
    (f : ℕ → ℕ) (shift x : ℕ) (post tmp tmp' : List ℕ)
    → Room f shift (x ∷ post) (length tmp)
    → Placed
        (write_at (digit shift x) (f (digit shift x) + 1) f)
        shift
        post
        (set tmp (f (digit shift x)) x)
        tmp'
    → (v p : ℕ) → get_elem? (x ∷ post) v ≡ some p
    → get_elem? tmp' (f (digit shift p) + count_of shift (take v (x ∷ post)) (digit shift p))
      ≡ some p
unfolding count_of
landed_next f shift x post tmp tmp' room done zero p e =
    let same : p ≡ x = ground arith in
    let d = digit shift x in
    let at : f d + 0 ≡ f d = omega arith in
    rw same (
      rw at (
        done.kept (f d) (λ r h. first_apart f shift x post (length tmp) r room h)
        ∙ get_elem?-set_self tmp (f d) x (first-Room f shift x post (length tmp) room)))
landed_next f shift x post tmp tmp' room done (suc v) p e =
    (subst (λ i. get_elem? tmp' i ≡ some p) (same_end shift x (take v post) f (digit shift p))
      (done.landed v p e))

place-Placed :
    (shift : ℕ) (post sort_n tmp : List ℕ) (f : ℕ → ℕ)
    → Holds sort_n f
    → Room f shift post (length tmp)
    → (tmp' : List ℕ) × (place shift sort_n post tmp ≡ some tmp') × Placed f shift post tmp tmp'
unfolding place count_of
place-Placed shift [] sort_n tmp f h room = (
  tmp,
  refl,
  record { size = refl; kept = λ i out. refl; landed = λ v p e. absurd (ground arith) },
)
place-Placed shift (p ∷ post) sort_n tmp f h room =
    let d = digit shift p in
    let o = first-Room f shift p post (length tmp) room in
    let (old, at) = get_elem?-lt tmp (f d) o in
    let (tmp', run, done) =
      place-Placed shift post (set sort_n d (f d + 1)) (set tmp (f d) p) (write_at d (f d + 1) f)
        (set-Holds sort_n f d (f d + 1) h (digit-lt shift p))
        (rw (length-set tmp (f d) p) (Room-tail f shift p post (length tmp) room)) in
    (
      tmp',
      rw (h.1 d (digit-lt shift p), at, place) run,
      record {
        size = done.size ∙ length-set tmp (f d) p;
        kept = λ i out.
            done.kept i (λ r k. still_out f shift p post i r (out r k))
            ∙ get_elem?-set_ne tmp (f d) i p
                (first_kept f shift p post i (out d (digit-lt shift p)));
        landed = landed_next f shift p post tmp tmp' room done;
      },
    )

length-running_sums : (tot : ℕ) (counts : List ℕ) → length (running_sums tot counts) ≡ length counts
unfolding running_sums
length-running_sums tot [] = refl
length-running_sums tot (count ∷ counts) = ap suc (length-running_sums (tot + count) counts)

get_elem?-replicate : (n i : ℕ) → i < n → get_elem? {A = ℕ} (replicate n 0) i ≡ some 0
get_elem?-replicate zero i h = elim h [ ]
get_elem?-replicate (suc n) zero h = refl
get_elem?-replicate (suc n) (suc i) h = get_elem?-replicate n i (omega arith)

running_sums-Holds :
    (shift : ℕ) (post counts : List ℕ)
    → Holds counts (λ r. 0 + count_of shift post r)
    → Holds (running_sums 0 counts) (count_below shift post)
running_sums-Holds shift post counts (size, values) = (
  length-running_sums 0 counts ∙ size,
  λ r h.
      let at : 0 + r ≡ r = omega arith in
      subst (λ i. get_elem? (running_sums 0 counts) r ≡ some (count_below shift post i)) at
        (running_sums-get shift post counts 0 0 r all (sym (count_below-zero shift post))
          (omega (arith, size, h))),
)
  where
    all : (k : ℕ) → k < length counts → get_elem? counts k ≡ some (count_of shift post (0 + k))
    all k h =
        let at : k ≡ 0 + k = omega arith in
        let none_yet : 0 + count_of shift post k ≡ count_of shift post k = omega arith in
        subst (λ i. get_elem? counts k ≡ some (count_of shift post i)) at
          (values k (omega (arith, size, h)) ∙ ap some none_yet)

-- A round on arrays of one length does not panic, and places each entry.
pub radix_round-Placed :
    (shift : ℕ) (post tmp : List ℕ)
    → length tmp ≡ length post
    → (out : List ℕ) × (radix_round shift post tmp ≡ some out)
      × Placed (count_below shift post) shift post tmp out
unfolding radix_round
radix_round-Placed shift post tmp size =
    let (counts, run, held) =
      count_digits-Holds shift post (replicate (2 ^ sort_k) 0) (λ r. 0)
        (length-replicate {A = ℕ} (2 ^ sort_k) 0, get_elem?-replicate (2 ^ sort_k)) in
    let (out, rest, placed) =
      place-Placed shift post (running_sums 0 counts) tmp (count_below shift post)
        (running_sums-Holds shift post counts held)
        (
          λ r h. rw size (count_below-le shift post r),
          λ r s k h. count_below-lt shift post r s k,
        ) in
    (out, rw (run, radix_round) rest, placed)
