-- ===== src/Index/Varint.antt =====
-- `writeUvarint` of index/write.go, and `binary.Uvarint` of Go's library, which reads it back.
use Prim.Native.Nat.{bit_or}
use codesearch.Common.{ℕ, ◌+◌, ◌*◌, ◌/◌, ◌%◌, ◌^◌, ◌<◌, ◌≡◌, arith, ◌&&◌, ◌||◌}
use codesearch.Common.{Option, none, some, List, [], ◌∷◌, ◌++◌, ltb, ◌==◌, if◌then◌else◌}
use codesearch.Common.{inl, inr, Bool-cases, tests, ap, ◌∙◌}
use codesearch.Common.Bits.{or_top_bit}

-- `byte(x)` and `byte(x | 0x80)`
abbrev low_byte : ℕ → ℕ
low_byte x = x % 256

abbrev more_byte : ℕ → ℕ
more_byte x = bit_or x 0x80 % 256

-- The bytes that `writeUvarint` appends; `x` is a uint32.
unfoldable pub write_uvarint : ℕ → List ℕ
write_uvarint x =
    if ltb x (2 ^ 7)
    then low_byte x ∷ []
    else if ltb x (2 ^ 14)
    then more_byte x ∷ low_byte (x / 2 ^ 7) ∷ []
    else if ltb x (2 ^ 21)
    then more_byte x ∷ more_byte (x / 2 ^ 7) ∷ low_byte (x / 2 ^ 14) ∷ []
    else if ltb x (2 ^ 28)
    then more_byte x ∷ more_byte (x / 2 ^ 7) ∷ more_byte (x / 2 ^ 14) ∷ low_byte (x / 2 ^ 21) ∷ []
    else more_byte x
      ∷ more_byte (x / 2 ^ 7)
      ∷ more_byte (x / 2 ^ 14)
      ∷ more_byte (x / 2 ^ 21)
      ∷ low_byte (x / 2 ^ 28)
      ∷ []

-- `binary.Uvarint`: `none` stands for a count that is not positive (the buffer is too short, or
-- the value does not fit 64 bits); the bits that `|=` joins are disjoint, so they are added.
unfoldable pub uvarint_loop : List ℕ → ℕ → ℕ → ℕ → Option (ℕ × List ℕ)
uvarint_loop [] i x s = none
uvarint_loop (b ∷ bs) i x s =
    let more = uvarint_loop bs (i + 1) ((x + b % 128 * 2 ^ s) % 2 ^ 64) (s + 7) in
    if ltb b 0x80
    then (if ltb 9 i || (i == 9 && ltb 1 b) then none else some ((x + b * 2 ^ s) % 2 ^ 64, bs))
    else more

unfoldable pub uvarint : List ℕ → Option (ℕ × List ℕ)
unfolding uvarint_loop
uvarint bs = uvarint_loop bs 0 0 0

-- One round on a byte with its top bit set, and on a last byte.
more_round :
    (x i acc s : ℕ) (rest : List ℕ)
    → uvarint_loop (more_byte x ∷ rest) i acc s
      ≡ uvarint_loop rest (i + 1) ((acc + x % 128 * 2 ^ s) % 2 ^ 64) (s + 7)
unfolding uvarint_loop
more_round x i acc s rest = ground (arith, or_top_bit x)

last_round :
    (x i acc s : ℕ) (rest : List ℕ)
    → x < 128
    → i < 9
    → uvarint_loop (low_byte x ∷ rest) i acc s ≡ some ((acc + x * 2 ^ s) % 2 ^ 64, rest)
unfolding uvarint_loop
last_round x i acc s rest h k = ground arith

-- `binary.Uvarint` reads back the uint32 that `writeUvarint` wrote and leaves what follows.
pub uvarint-write_uvarint :
    (x : ℕ) (rest : List ℕ) → x < 2 ^ 32 → uvarint (write_uvarint x ++ rest) ≡ some (x, rest)
unfolding uvarint write_uvarint
uvarint-write_uvarint x rest h = elim (Bool-cases (ltb x (2 ^ 7))) [
  | inl a ↦ rw a (last_round x 0 0 0 rest (omega tests) (omega arith) ∙ value (omega (tests, a)))
  | inr a ↦ rw a (elim (Bool-cases (ltb x (2 ^ 14))) [
    | inl b ↦ rw b (
        more_round x 0 0 0 _
        ∙ last_round (x / 2 ^ 7) 1 _ 7 rest (omega tests) (omega arith)
        ∙ value (omega tests))
    | inr b ↦ rw b (elim (Bool-cases (ltb x (2 ^ 21))) [
      | inl c ↦ rw c (
          more_round x 0 0 0 _
          ∙ more_round (x / 2 ^ 7) 1 _ 7 _
          ∙ last_round (x / 2 ^ 14) 2 _ 14 rest (omega tests) (omega arith)
          ∙ value (omega tests))
      | inr c ↦ rw c (elim (Bool-cases (ltb x (2 ^ 28))) [
        | inl d ↦ rw d (
            more_round x 0 0 0 _
            ∙ more_round (x / 2 ^ 7) 1 _ 7 _
            ∙ more_round (x / 2 ^ 14) 2 _ 14 _
            ∙ last_round (x / 2 ^ 21) 3 _ 21 rest (omega tests) (omega arith)
            ∙ value (omega tests))
        | inr d ↦ rw d (
            more_round x 0 0 0 _
            ∙ more_round (x / 2 ^ 7) 1 _ 7 _
            ∙ more_round (x / 2 ^ 14) 2 _ 14 _
            ∙ more_round (x / 2 ^ 21) 3 _ 21 _
            ∙ last_round (x / 2 ^ 28) 4 _ 28 rest (omega tests) (omega arith)
            ∙ value (omega tests))
      ])
    ])
  ])
]
  where
    value : {y : ℕ} → y ≡ x → ◌≡◌ {A = Option (ℕ × List ℕ)} (some (y, rest)) (some (x, rest))
    value e = ap (λ (t : ℕ). some (t, rest)) e
