-- ===== src/Cache/Steps.antt =====
-- Acquires and releases keep the cache sound.
use codesearch.Common.{ℕ, ◌+◌, ◌<◌, ◌≡◌, refl, arith, subst, ◌∙◌, ap, sym, ◌⊎◌}
use codesearch.Common.{true, false, ◌==◌, Bool-cases}
use codesearch.Common.{some, [], ◌∷◌, inl, inr, In}
use codesearch.Common.{In-append_cases, In-append_left, In-append_right}
use codesearch.Cache.{plus, minus, Object, entry, Cache, put, remove, retire}
use codesearch.Cache.Sound.{
  IsSound, In-remove, remove-Once, In-remove_ne, In-remove_of_ne, bytes_of-remove, bytes_of-put,
  Once-last, bytes_of-append,
}

-- The cache behind an acquire of an entry that nobody held.
abbrev pub taken : ℕ → Cache → Cache
taken o s = record s {
  objects = put s.objects o (record (s.objects o) { count = 1; element = false });
  lru = remove o s.lru;
  in_lru = minus s.in_lru (s.objects o).body;
  in_use = plus s.in_use (s.objects o).body;
}

pub itself : (o : ℕ) → (o == o) ≡ true
itself o = ground arith

module _ (s : Cache) (v : IsSound s) where
  pub taken-IsSound :
      (k o : ℕ) → s.items k ≡ some (entry o) → (s.objects o).count ≡ 0 → IsSound (taken o s)
  taken-IsSound k o e z =
      let here = v.idle k o e z in
      let rdy = v.ready k o e in
      let idx = v.indexed k (entry o) e in
      record {
        indexed = λ k r e. ground (arith, v.indexed k r e);
        pending = λ k p e. ground (arith, v.pending k p e);
        ready = λ k p e. ground (arith, v.ready k p e);
        idle = λ k p e z. elim (Bool-cases (p == o)) [
          | inl q ↦ absurd (ground arith)
          | inr q ↦
              let i = v.idle k p e (ground arith) in rw q (i.0, In-remove_of_ne p o s.lru q i.1)
        ];
        fresh = λ p h d. ground (arith, v.fresh p h);
        running = λ p h d c. ground (arith, v.running p h);
        live = λ p h d f c. elim (Bool-cases (p == o)) [
          | inl q ↦ let same : p ≡ o = ground arith in rw same (ground arith)
          | inr q ↦ ground (arith, v.live p h)
        ];
        listed = λ p i. elim (Bool-cases (p == o)) [
          | inl q ↦
              let same : p ≡ o = ground arith in
              absurd (In-remove_ne o s.lru v.once (subst (λ x. In x (remove o s.lru)) same i))
          | inr q ↦ ground (arith, v.listed p (In-remove p o s.lru i))
        ];
        once = remove-Once o s.lru v.once;
        tallied = omega (
          arith,
          v.tallied,
          bytes_of-remove s.objects o s.lru here.1,
          bytes_of-put s.objects o (record (s.objects o) { count = 1; element = false })
              (remove o s.lru) refl,
        );
      }

  -- Another count for an object that is held, and stays held unless its load failed.
  pub recount-IsSound :
      (o n : ℕ)
      → 0 < (s.objects o).count
      → (0 < n) ⊎ (((s.objects o).done ≡ true) × ((s.objects o).failed ≡ true))
      → IsSound (record s { objects = put s.objects o (record (s.objects o) { count = n }) })
  recount-IsSound o n c h = record {
    indexed = λ k r e. ground (arith, v.indexed k r e);
    pending = λ k p e. ground (arith, v.pending k p e);
    ready = λ k p e. ground (arith, v.ready k p e);
    idle = λ k p e z. ground (arith, v.idle k p e, v.ready k p e);
    fresh = λ p h d. ground (arith, v.fresh p h);
    running = λ p l d m. ground (arith, v.running p l);
    live = λ p l d f m. elim (Bool-cases (p == o)) [
      | inl q ↦
          let same : p ≡ o = ground arith in
          let at = v.live o (subst (λ x. x < s.next) same l) (ground arith) (ground arith) c in
          rw (same, itself o) at
      | inr q ↦ ground (arith, v.live p l)
    ];
    listed = λ p i. ground (arith, v.listed p i);
    once = v.once;
    tallied =
        v.tallied
        ∙ ap (λ b. s.in_lru.debit + b)
            (sym (bytes_of-put s.objects o (record (s.objects o) { count = n }) s.lru refl));
  }

  pub retire-IsSound :
      (o : ℕ)
      → o < s.next
      → (s.objects o).count ≡ 1
      → (s.objects o).done ≡ true
      → (s.objects o).failed ≡ false
      → IsSound (retire o s)
  unfolding retire
  retire-IsSound o h c d f =
      let at = v.live o h d f (omega arith) in
      let new : Object = record (s.objects o) { count = 0; element = true } in
      let new_objects = put s.objects o new in
      let at_new : (new_objects o).body ≡ (s.objects o).body = rw (itself o) refl in
      record {
        indexed = λ k r e. ground (arith, v.indexed k r e);
        pending = λ k p e. ground (arith, v.pending k p e);
        ready = λ k p e. ground (arith, v.ready k p e);
        idle = λ k p e z. elim (Bool-cases (p == o)) [
          | inl q ↦
              let same : p ≡ o = ground arith in
              rw (same, itself o) (refl, In-append_right o s.lru (o ∷ []) (inl refl))
          | inr q ↦
              let i = v.idle k p e (ground arith) in rw q (i.0, In-append_left p s.lru (o ∷ []) i.1)
        ];
        fresh = λ p h d. ground (arith, v.fresh p h);
        running = λ p h d c. ground (arith, v.running p h);
        live = λ p h d f c. ground (arith, v.live p h);
        listed = λ p i. elim (In-append_cases p s.lru (o ∷ []) i) [
          | inl j ↦ ground (arith, v.listed p j)
          | inr (inl q) ↦ rw (q, itself o) (h, refl, at)
          | inr (inr q) ↦ elim q [ ]
        ];
        once = Once-last s.lru o v.once (λ i. ground (arith, v.listed o i));
        tallied = omega (
          arith,
          v.tallied,
          bytes_of-append new_objects s.lru o,
          bytes_of-put s.objects o new s.lru refl,
          at_new,
        );
      }
