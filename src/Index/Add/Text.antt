-- ===== src/Index/Add/Text.antt =====
-- A file is indexed exactly if it is text, and under exactly its trigrams.
use codesearch.Common.{
  ℕ, suc, ◌+◌, ◌*◌, ◌/◌, ◌%◌, ◌^◌, ◌≤◌, ◌<◌, ◌≡◌, refl, arith, ◌∙◌, ap, sym, subst,
}
use codesearch.Common.{Bool, true, false, ◌&&◌, ◌||◌, Bool-cases, inl, inr}
use codesearch.Common.{
  some, List, [], ◌∷◌, ◌++◌, ltb, leb, ◌==◌, if◌then◌else◌, length, member, All,
}
use codesearch.Sparse.{Set, len, IsValid}
use codesearch.Sparse.Laws.{insert, add-insert}
use codesearch.Index.Add.{
  max_file_len, max_line_len, valid_utf8, Progress, Reason, Scanned, reading, skipped, add_trigram,
  shift_in, check_byte, take_byte, invalid_utf8, too_long, long_lines, take_bytes,
}

-- The numbers of the trigrams of a string.
unfoldable pub trigram_codes : List ℕ → List ℕ
trigram_codes [] = []
trigram_codes (a ∷ []) = []
trigram_codes (a ∷ b ∷ []) = []
trigram_codes (a ∷ b ∷ c ∷ s) = (a * 2 ^ 16 + b * 2 ^ 8 + c) ∷ trigram_codes (b ∷ c ∷ s)

-- Every two bytes in a row may stand in UTF-8, a NUL before the first.
unfoldable pub pairs_valid : ℕ → List ℕ → Bool
pairs_valid prev [] = true
pairs_valid prev (c ∷ s) = valid_utf8 prev c && pairs_valid c s

-- No line is longer than the bound, its end included; the current one has `linelen` bytes.
unfoldable pub lines_fit : ℕ → List ℕ → Bool
lines_fit linelen [] = true
lines_fit linelen (c ∷ s) =
    leb (linelen + 1) max_line_len && lines_fit (if c == 10 then 0 else linelen + 1) s

abbrev pub is_text : List ℕ → Bool
is_text s = pairs_valid 0 s && (leb (length s) max_file_len && lines_fit 0 s)

-- The codes that are added from `s` on, behind `n` bytes of which `a` and `b` are the last.
unfoldable pub codes_from : ℕ → ℕ → ℕ → List ℕ → List ℕ
codes_from n a b [] = []
codes_from n a b (c ∷ s) =
    let rest = codes_from (n + 1) b c s in
    if leb 3 (n + 1) then (a * 2 ^ 16 + b * 2 ^ 8 + c) ∷ rest else rest

unfoldable pub fits : ℕ → ℕ → ℕ → List ℕ → Bool
fits n linelen b s = pairs_valid b s && (leb (n + length s) max_file_len && lines_fit linelen s)

member-append_last : (y x : ℕ) (xs : List ℕ) → member y (xs ++ (x ∷ [])) ≡ (member y xs || y == x)
unfolding member
member-append_last y x [] = ground arith
member-append_last y x (z ∷ xs) = ground (arith, member-append_last y x xs)

member-insert : (y x : ℕ) (xs : List ℕ) → member y (insert x xs) ≡ (member y xs || y == x)
unfolding insert
member-insert y x xs = elim (Bool-cases (member x xs)) [
  | inr e ↦ rw (e, insert) (member-append_last y x xs)
  | inl e ↦ elim (Bool-cases (y == x)) [
    | inl k ↦ let same : y ≡ x = ground arith in rw (e, insert) (rw same (ground (arith, e)))
    | inr k ↦ rw (e, k, insert) (ground arith)
  ]
]

-- What a scan of text comes to, and one of anything else.
abbrev pub Scans : Progress → Bool → List ℕ → ℕ → Scanned → Type 0
Scans t true codes n o =
    (t' : Progress) × (o ≡ reading t')
    × IsValid t'.set
    × (length t'.set.sparse ≡ 2 ^ 24)
    × (t'.n ≡ n)
    × ((x : ℕ) → member x t'.set.dense ≡ (member x t.set.dense || member x codes))
Scans t false codes n o = (r : Reason) × (set : Set) × (o ≡ skipped r set)

-- The set behind a byte.
added :
    (set : Set) (n tv : ℕ)
    → IsValid set
    → length set.sparse ≡ 2 ^ 24
    → tv < 2 ^ 24
    → (set' : Set) × (add_trigram set n tv ≡ some set')
      × IsValid set'
      × (length set'.sparse ≡ 2 ^ 24)
      × ((x : ℕ) → member x set'.dense ≡ (member x set.dense || (leb 3 n && x == tv)))
added set n tv v size small = elim (Bool-cases (leb 3 n)) [
  | inr e ↦ (set, rw e refl, v, size, λ x. rw e (ground arith))
  | inl e ↦
      let (set', run, a) = add-insert set tv v (omega arith) in
      (
        set',
        rw e run,
        a.valid,
        omega (arith, a.room),
        λ x. rw e (ap (member x) a.dense ∙ member-insert x tv set.dense),
      )
]

shift_in_lem :
    (tv a b c : ℕ)
    → tv % 2 ^ 16 ≡ a * 2 ^ 8 + b
    → a < 2 ^ 8
    → b < 2 ^ 8
    → c < 2 ^ 8
    → shift_in tv c ≡ a * 2 ^ 16 + b * 2 ^ 8 + c
shift_in_lem tv a b c h ha hb hc = omega arith

-- The tests on one byte.
abbrev byte_fits : ℕ → ℕ → ℕ → ℕ → Bool
byte_fits n linelen b c =
    valid_utf8 b c && (leb (n + 1) max_file_len && leb (linelen + 1) max_line_len)

fits_step :
    (n linelen b c : ℕ) (s : List ℕ)
    → fits n linelen b (c ∷ s)
      ≡ (byte_fits n linelen b c && fits (n + 1) (if c == 10 then 0 else linelen + 1) c s)
unfolding fits pairs_valid lines_fit
fits_step n linelen b c s =
    let size : leb (n + suc (length s)) max_file_len
        ≡ (leb (n + 1) max_file_len && leb (n + 1 + length s) max_file_len) =
      ground arith in
    rw size (
      regroup (valid_utf8 b c) (pairs_valid c s) (leb (n + 1) max_file_len)
        (leb (n + 1 + length s) max_file_len) (leb (linelen + 1) max_line_len)
        (lines_fit (if c == 10 then 0 else linelen + 1) s))
  where
    regroup :
        (a b c d e f : Bool)
        → ((a && b) && ((c && d) && (e && f))) ≡ ((a && (c && e)) && (b && (d && f)))
    regroup a b c d e f = ground arith

-- What the tests on a byte come to.
abbrev Checked : Set → ℕ → Progress → ℕ → Bool → Scanned → Type 0
Checked set tv t c true o =
    o
    ≡ reading
        (record { set = set; tv = tv; n = t.n + 1; linelen = if c == 10 then 0 else t.linelen + 1 })
Checked set tv t c false o = (r : Reason) × (o ≡ skipped r set)

check_byte-Checked :
    (set : Set) (tv b c : ℕ) (t : Progress)
    → tv / 2 ^ 8 % 2 ^ 8 ≡ b
    → tv % 2 ^ 8 ≡ c
    → Checked set tv t c (byte_fits t.n t.linelen b c) (check_byte set tv t c)
unfolding check_byte
check_byte-Checked set tv b c t hb hc = elim (Bool-cases (valid_utf8 b c)) [
  | inr u ↦ rw (check_byte, hb, hc, u) (invalid_utf8, refl)
  | inl u ↦ elim (Bool-cases (leb (t.n + 1) max_file_len)) [
    | inr l ↦
        let over : ltb max_file_len (t.n + 1) ≡ true = ground arith in
        rw (check_byte, hb, hc, u, l, over) (too_long, refl)
    | inl l ↦
        let under : ltb max_file_len (t.n + 1) ≡ false = ground arith in
        elim (Bool-cases (leb (t.linelen + 1) max_line_len)) [
          | inr m ↦
              let over : ltb max_line_len (t.linelen + 1) ≡ true = ground arith in
              rw (check_byte, hb, hc, u, l, under, m, over) (long_lines, refl)
          | inl m ↦
              let short : ltb max_line_len (t.linelen + 1) ≡ false = ground arith in
              rw (check_byte, hb, hc, u, l, under, m, short) refl
        ]
  ]
]

codes_step :
    (n a b c x : ℕ) (s : List ℕ) (old : Bool)
    → (old || member x (codes_from n a b (c ∷ s))) ≡ (
        (old || (leb 3 (n + 1) && x == a * 2 ^ 16 + b * 2 ^ 8 + c))
        || member x (codes_from (n + 1) b c s))
unfolding codes_from member
codes_step n a b c x s old = elim (Bool-cases (leb 3 (n + 1))) [
  | inl e ↦ rw e (ground arith)
  | inr e ↦ rw e (ground arith)
]

-- A scan of the rest is one of the whole, with the byte before it.
Scans-step :
    (t t₁ : Progress) (q : Bool) (n a b c m : ℕ) (s : List ℕ) (o : Scanned)
    → ((x : ℕ)
        → member x t₁.set.dense
          ≡ (member x t.set.dense || (leb 3 (n + 1) && x == a * 2 ^ 16 + b * 2 ^ 8 + c)))
    → Scans t₁ q (codes_from (n + 1) b c s) m o
    → Scans t q (codes_from n a b (c ∷ s)) m o
Scans-step t t₁ true n a b c m s o here (t₂, run, v, size, len, members) = (
  t₂,
  run,
  v,
  size,
  len,
  λ x.
      members x
      ∙ ap (λ z. z || member x (codes_from (n + 1) b c s)) (here x)
      ∙ sym (codes_step n a b c x s (member x t.set.dense)),
)
Scans-step t t₁ false n a b c m s o here h = h

fits_nil : (n linelen b : ℕ) → n ≤ max_file_len → fits n linelen b [] ≡ true
unfolding fits pairs_valid lines_fit
fits_nil n linelen b h = ground arith

no_codes : (n a b x : ℕ) (old : Bool) → old ≡ (old || member x (codes_from n a b []))
unfolding codes_from member
no_codes n a b x old = ground arith

take_nil : (t : Progress) → take_bytes t [] ≡ reading t
unfolding take_bytes
take_nil t = refl

take_read :
    (t t' : Progress) (c : ℕ) (s : List ℕ)
    → take_byte t c ≡ reading t'
    → take_bytes t (c ∷ s) ≡ take_bytes t' s
unfolding take_bytes
take_read t t' c s e = rw (e, take_bytes) refl

take_skipped :
    (t : Progress) (c : ℕ) (s : List ℕ) (r : Reason) (set : Set)
    → take_byte t c ≡ skipped r set
    → take_bytes t (c ∷ s) ≡ skipped r set
unfolding take_bytes
take_skipped t c s r set e = rw (e, take_bytes) refl

took :
    (t : Progress) (c : ℕ) (set : Set)
    → add_trigram t.set (t.n + 1) (shift_in t.tv c) ≡ some set
    → take_byte t c ≡ check_byte set (shift_in t.tv c) t c
unfolding take_byte
took t c set e = rw (e, take_byte) refl

abbrev step : Set → Progress → ℕ → Progress
step set t c = record {
  set = set;
  tv = shift_in t.tv c;
  n = t.n + 1;
  linelen = if c == 10 then 0 else t.linelen + 1;
}

pub take_bytes-Scans :
    (s : List ℕ) (t : Progress) (a b : ℕ)
    → IsValid t.set
    → length t.set.sparse ≡ 2 ^ 24
    → t.tv % 2 ^ 16 ≡ a * 2 ^ 8 + b
    → a < 2 ^ 8
    → b < 2 ^ 8
    → All (λ c. c < 2 ^ 8) s
    → t.n ≤ max_file_len
    → Scans t (fits t.n t.linelen b s) (codes_from t.n a b s) (t.n + length s) (take_bytes t s)
take_bytes-Scans [] t a b v size h ha hb hs hn =
    rw (fits_nil t.n t.linelen b hn, take_nil t)
      (t, refl, v, size, omega arith, λ x. no_codes t.n a b x (member x t.set.dense))
take_bytes-Scans (c ∷ s) t a b v size h ha hb hs hn =
    let tv : ℕ = shift_in t.tv c in
    let code = shift_in_lem t.tv a b c h ha hb hs.0 in
    let (set, run, w, room, members) = added t.set (t.n + 1) tv v size (omega (arith, code)) in
    let checked = check_byte-Checked set tv b c t (omega (arith, code)) (omega (arith, code)) in
    let byte : take_byte t c ≡ check_byte set tv t c = took t c set run in
    elim (Bool-cases (byte_fits t.n t.linelen b c)) [
      | inl e ↦
          let ok : check_byte set tv t c ≡ reading (step set t c) =
            subst (λ q. Checked set tv t c q (check_byte set tv t c)) e checked in
          let one : fits t.n t.linelen b (c ∷ s)
              ≡ fits (t.n + 1) (if c == 10 then 0 else t.linelen + 1) c s =
            fits_step t.n t.linelen b c s ∙ rw e refl in
          let len : t.n + suc (length s) ≡ t.n + 1 + length s = omega arith in
          rw (take_read t (step set t c) c s (byte ∙ ok), one, len)
            (Scans-step t (step set t c) _ t.n a b c _ s _ (λ x. members x ∙ rw code refl)
              (take_bytes-Scans s (step set t c) b c w room (omega (arith, code)) hb hs.0 hs.1
                (ground (arith, e))))
      | inr e ↦
          let (r, bad) = subst (λ q. Checked set tv t c q (check_byte set tv t c)) e checked in
          let one : fits t.n t.linelen b (c ∷ s) ≡ false =
            fits_step t.n t.linelen b c s ∙ rw e refl in
          rw (take_skipped t c s r set (byte ∙ bad), one) (r, set, refl)
    ]
