-- ===== src/Cache/Sound.antt =====
-- The states of the cache in which the index, the list and the tokens agree.
use codesearch.Common.{ℕ, ◌+◌, ◌<◌, ◌≡◌, refl, arith, ap, sym}
use codesearch.Common.{true, false, ◌==◌, Bool-cases}
use codesearch.Common.{Option, some, List, [], ◌∷◌, ◌++◌, inl, inr, In}
use codesearch.Common.{In-append_cases}
use codesearch.Cache.{Object, Ref, loading, entry, Cache, put, remove, object_of}

-- The bytes of the bodies of some objects.
unfoldable pub bytes_of : (ℕ → Object) → List ℕ → ℕ
bytes_of f [] = 0
bytes_of f (o ∷ os) = (f o).body + bytes_of f os

unfoldable pub Once : List ℕ → Type 0
Once [] = Unit {0}
Once (o ∷ os) = (In o os → ⊥) × Once os

pub record IsSound (s : Cache) : Type 0 where
  pub indexed :
      (k : ℕ) (r : Ref)
      → s.items k ≡ some r
      → (object_of r < s.next) × ((s.objects (object_of r)).key ≡ k)
  pub pending :
      (k o : ℕ)
      → s.items k ≡ some (loading o)
      → ((s.objects o).done ≡ false) × (0 < (s.objects o).count)
  pub ready :
      (k o : ℕ)
      → s.items k ≡ some (entry o)
      → ((s.objects o).done ≡ true) × ((s.objects o).failed ≡ false)
  pub idle :
      (k o : ℕ)
      → s.items k ≡ some (entry o)
      → (s.objects o).count ≡ 0
      → ((s.objects o).element ≡ true) × In o s.lru
  pub fresh : (o : ℕ) → o < s.next → (s.objects o).done ≡ false → (s.objects o).failed ≡ false
  pub running :
      (o : ℕ)
      → o < s.next
      → (s.objects o).done ≡ false
      → 0 < (s.objects o).count
      → s.items ((s.objects o).key) ≡ some (loading o)
  pub live :
      (o : ℕ)
      → o < s.next
      → (s.objects o).done ≡ true
      → (s.objects o).failed ≡ false
      → 0 < (s.objects o).count
      → s.items ((s.objects o).key) ≡ some (entry o)
  pub listed :
      (o : ℕ)
      → In o s.lru
      → (o < s.next) × ((s.objects o).count ≡ 0) × (s.items ((s.objects o).key) ≡ some (entry o))
  pub once : Once s.lru
  pub tallied : s.in_lru.credit ≡ s.in_lru.debit + bytes_of s.objects s.lru

loading_inj : (o p : ℕ) → ◌≡◌ {A = Option Ref} (some (loading o)) (some (loading p)) → o ≡ p
loading_inj o p e = ground arith

entry_inj : (o p : ℕ) → ◌≡◌ {A = Option Ref} (some (entry o)) (some (entry p)) → o ≡ p
entry_inj o p e = ground arith

pub In-remove : (q o : ℕ) (xs : List ℕ) → In q (remove o xs) → In q xs
unfolding remove
In-remove q o [] i = i
In-remove q o (x ∷ xs) i = elim (Bool-cases (x == o)) [
  | inl e ↦ ground arith
  | inr e ↦ ground (arith, In-remove q o xs)
]

pub remove-Once : (o : ℕ) (xs : List ℕ) → Once xs → Once (remove o xs)
unfolding remove Once
remove-Once o [] h = tt
remove-Once o (x ∷ xs) h = elim (Bool-cases (x == o)) [
  | inl e ↦ rw e h.1
  | inr e ↦ rw e (((λ i. h.0 (In-remove x o xs i)), remove-Once o xs h.1))
]

pub In-remove_ne : (o : ℕ) (xs : List ℕ) → Once xs → In o (remove o xs) → ⊥
unfolding remove Once
In-remove_ne o [] h i = i
In-remove_ne o (x ∷ xs) h i = elim (Bool-cases (x == o)) [
  | inl e ↦ ground (arith, h.0)
  | inr e ↦ ground (arith, In-remove_ne o xs h.1)
]

pub In-remove_of_ne : (q o : ℕ) (xs : List ℕ) → (q == o) ≡ false → In q xs → In q (remove o xs)
unfolding remove
In-remove_of_ne q o [] n i = i
In-remove_of_ne q o (x ∷ xs) n (inl e) = elim (Bool-cases (x == o)) [
  | inl k ↦ ground arith
  | inr k ↦ rw k (inl e)
]
In-remove_of_ne q o (x ∷ xs) n (inr i) = elim (Bool-cases (x == o)) [
  | inl k ↦ rw k i
  | inr k ↦ rw k (inr (In-remove_of_ne q o xs n i))
]

pub bytes_of-remove :
    (f : ℕ → Object) (o : ℕ) (xs : List ℕ)
    → In o xs
    → (f o).body + bytes_of f (remove o xs) ≡ bytes_of f xs
unfolding remove bytes_of
bytes_of-remove f o [] i = elim i [ ]
bytes_of-remove f o (x ∷ xs) i = elim (Bool-cases (x == o)) [
  | inl e ↦
      let itself : (o == o) ≡ true = ground arith in
      let same : x ≡ o = ground arith in rw same (rw itself refl)
  | inr e ↦ let rest : In o xs = ground arith in rw e (omega (arith, bytes_of-remove f o xs rest))
]

pub bytes_of-put :
    (f : ℕ → Object) (o : ℕ) (v : Object) (xs : List ℕ)
    → (v.body ≡ (f o).body)
    → bytes_of (put f o v) xs ≡ bytes_of f xs
unfolding bytes_of
bytes_of-put f o v [] e = refl
bytes_of-put f o v (x ∷ xs) e = ground (arith, bytes_of-put f o v xs e)

pub Once-last : (xs : List ℕ) (o : ℕ) → Once xs → (In o xs → ⊥) → Once (xs ++ (o ∷ []))
unfolding Once
Once-last [] o h n = ((λ i. i), tt)
Once-last (x ∷ xs) o h n = (
  (λ i. elim (In-append_cases x xs (o ∷ []) i) [
    | inl j ↦ h.0 j
    | inr (inl e) ↦ n (inl (sym e))
    | inr (inr j) ↦ j
  ]),
  Once-last xs o h.1 (λ i. n (inr i)),
)

pub bytes_of-append :
    (f : ℕ → Object) (xs : List ℕ) (o : ℕ)
    → bytes_of f (xs ++ (o ∷ [])) ≡ bytes_of f xs + (f o).body
unfolding bytes_of
bytes_of-append f [] o = omega arith
bytes_of-append f (x ∷ xs) o = omega (arith, bytes_of-append f xs o)

pub bytes_of-put_out :
    (f : ℕ → Object) (o : ℕ) (v : Object) (xs : List ℕ)
    → (In o xs → ⊥)
    → bytes_of (put f o v) xs ≡ bytes_of f xs
unfolding bytes_of
bytes_of-put_out f o v [] n = refl
bytes_of-put_out f o v (x ∷ xs) n =
    let other : (x == o) ≡ false = ground (arith, n) in
    rw other (ap (λ b. (f x).body + b) (bytes_of-put_out f o v xs (λ i. n (inr i))))

-- All tokens together: those that are available, those of `lru` and those in use.
abbrev pub credits : Cache → ℕ
credits s = s.available.credit + s.in_lru.credit + s.in_use.credit

abbrev pub debits : Cache → ℕ
debits s = s.available.debit + s.in_lru.debit + s.in_use.debit

abbrev pub Balanced : Cache → Cache → Type 0
Balanced s s' = credits s' + debits s ≡ credits s + debits s'
