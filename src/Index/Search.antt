-- ===== src/Index/Search.antt =====
-- `sort.Search` of Go's library, the binary search that the index reader calls.
use codesearch.Common.{ℕ, zero, suc, ◌+◌, ◌/◌, ◌≤◌, ◌<◌, ◌≡◌, arith, Bool, true, false}
use codesearch.Common.{ltb, Bool-cases, inl, inr, tests}

-- `for i < j { h := (i + j) / 2; if !f(h) { i = h + 1 } else { j = h } }`
pub search_loop : ℕ → ℕ → ℕ → (ℕ → Bool) → ℕ
search_loop zero i j f = i
search_loop (suc fuel) i j f = elim (ltb i j) [
  | false ↦ i
  | true ↦ elim (f ((i + j) / 2)) [
    | false ↦ search_loop fuel ((i + j) / 2 + 1) j f
    | true ↦ search_loop fuel i ((i + j) / 2) f
  ]
]

-- Each round shortens the range, so `n` rounds are enough.
unfoldable pub search : ℕ → (ℕ → Bool) → ℕ
unfolding search_loop
search n f = search_loop n 0 n f

-- `r` is the first index of [0, n) at which `f` holds, and `n` if there is none.
pub record IsFirst (n : ℕ) (f : ℕ → Bool) (r : ℕ) : Type 0 where
  pub bound : r ≤ n
  pub below : (i : ℕ) → i < r → f i ≡ false
  pub here : r < n → f r ≡ true

-- Once `f` holds in [0, n), it holds up to `n`.
abbrev pub IsMonotone : ℕ → (ℕ → Bool) → Type 0
IsMonotone n f = (i j : ℕ) → i ≤ j → j < n → f i ≡ true → f j ≡ true

module _ (n : ℕ) (f : ℕ → Bool) (mono : IsMonotone n f) where
  falls : (h : ℕ) → h < n → f h ≡ false → (i : ℕ) → i < h + 1 → f i ≡ false
  falls h p e i lt = elim (Bool-cases (f i)) [
    | inl t ↦ absurd (ground (arith, mono i h (omega arith) p t))
    | inr t ↦ t
  ]

  search_loop-IsFirst :
      (fuel i j : ℕ)
      → i ≤ j
      → j ≤ n
      → j ≤ i + fuel
      → ((k : ℕ) → k < i → f k ≡ false)
      → (j < n → f j ≡ true)
      → IsFirst n f (search_loop fuel i j f)
  unfolding search_loop
  search_loop-IsFirst zero i j p q r low high = record {
    bound = omega arith;
    below = low;
    here = λ lt. let same : i ≡ j = omega arith in rw same (high (omega arith));
  }
  search_loop-IsFirst (suc fuel) i j p q r low high = elim (Bool-cases (ltb i j)) [
    | inr done ↦
        rw (done, search_loop)
          (record {
            bound = omega arith;
            below = low;
            here = λ lt. let same : i ≡ j = omega tests in rw same (high (omega tests));
          })
    | inl more ↦ elim (Bool-cases (f ((i + j) / 2))) [
      | inr e ↦
          rw (more, search_loop)
            (rw e (
              search_loop-IsFirst fuel ((i + j) / 2 + 1) j (omega tests) q (omega tests)
                (falls _ (omega tests) e) high))
      | inl e ↦
          rw (more, search_loop)
            (rw e (
              search_loop-IsFirst fuel i ((i + j) / 2) (omega tests) (omega tests) (omega tests) low
                (λ _. e)))
    ]
  ]

  pub search-IsFirst : IsFirst n f (search n f)
  unfolding search
  search-IsFirst =
      search_loop-IsFirst n 0 n (omega arith) (omega arith) (omega arith)
        (λ k lt. absurd (omega arith)) (λ lt. absurd (omega arith))
