-- ===== src/Cache/Loads.antt =====
-- Loads keep the cache sound: their start, the evictions before it, and their end.
use codesearch.Common.{ℕ, ◌+◌, ◌<◌, ◌≡◌, refl, arith, ◌∙◌, ap, sym, ◌⊎◌}
use codesearch.Common.{true, false, ltb, ◌==◌, Bool-cases}
use codesearch.Common.{none, some, inl, inr}
use codesearch.Cache.{Object, Ref, loading, entry, Cache, put, object_of, finish, start_load}
use codesearch.Cache.Sound.{IsSound, bytes_of-put, bytes_of-put_out}
use codesearch.Cache.Steps.{itself}

module _ (s : Cache) (v : IsSound s) where
  -- What `items` still holds behind a deletion is another object.
  pub kept :
      (o k : ℕ) (r : Ref)
      → put s.items ((s.objects o).key) none k ≡ some r
      → (s.items k ≡ some r) × ((object_of r == o) ≡ false) × ((k == (s.objects o).key) ≡ false)
  kept o k r e = elim (Bool-cases (k == (s.objects o).key)) [
    | inl q ↦ ground arith
    | inr q ↦
        let at : s.items k ≡ some r = ground arith in
        let idx = v.indexed k r at in (at, ground (arith, idx.1), q)
  ]

  -- Two objects that `items` holds have two keys.
  pub apart :
      (o p : ℕ) (q r : Ref)
      → s.items ((s.objects o).key) ≡ some q
      → object_of q ≡ o
      → s.items ((s.objects p).key) ≡ some r
      → object_of r ≡ p
      → (p == o) ≡ false
      → ((s.objects p).key == (s.objects o).key) ≡ false
  apart o p q r e f g h n = elim (Bool-cases ((s.objects p).key == (s.objects o).key)) [
    | inl k ↦
        let same : (s.objects p).key ≡ (s.objects o).key = ground arith in
        let one : s.items ((s.objects p).key) ≡ s.items ((s.objects o).key) = ap s.items same in
        absurd (ground arith)
    | inr k ↦ k
  ]

  elsewhere :
      (k : ℕ)
      → s.items k ≡ none
      → (p : ℕ) (r : Ref) → s.items ((s.objects p).key) ≡ some r
      → ((s.objects p).key == k) ≡ false
  elsewhere k e p r f = elim (Bool-cases ((s.objects p).key == k)) [
    | inl b ↦
        let same : (s.objects p).key ≡ k = ground arith in
        let one : s.items ((s.objects p).key) ≡ s.items k = ap s.items same in absurd (ground arith)
    | inr b ↦ b
  ]

  -- A load that `items` holds, or whose key it does not have, has another key than what it holds.
  other_key :
      (o p : ℕ) (r : Ref)
      → (s.items ((s.objects o).key) ≡ some (loading o)) ⊎ (s.items ((s.objects o).key) ≡ none)
      → s.items ((s.objects p).key) ≡ some r
      → object_of r ≡ p
      → (p == o) ≡ false
      → ((s.objects p).key == (s.objects o).key) ≡ false
  other_key o p r (inl at) g h n = apart o p (loading o) r at refl g h n
  other_key o p r (inr at) g h n = elsewhere ((s.objects o).key) at p r g

  pub fail-IsSound :
      (o : ℕ)
      → o < s.next
      → (s.objects o).done ≡ false
      → (s.items ((s.objects o).key) ≡ some (loading o)) ⊎ (s.items ((s.objects o).key) ≡ none)
      → IsSound (finish o true s)
  unfolding finish
  fail-IsSound o h d at =
      let new : Object = record (s.objects o) { body = 0; done = true; failed = true } in
      record {
        indexed = λ k r e. let m = kept o k r e in rw m.1 (v.indexed k r m.0);
        pending = λ k p e. let m = kept o k (loading p) e in rw m.1 (v.pending k p m.0);
        ready = λ k p e. let m = kept o k (entry p) e in rw m.1 (v.ready k p m.0);
        idle = λ k p e z. let m = kept o k (entry p) e in rw m.1 (v.idle k p m.0 (ground arith));
        fresh = λ p l e. ground (arith, v.fresh p l);
        running = λ p l e c. elim (Bool-cases (p == o)) [
          | inl q ↦ ground arith
          | inr q ↦
              let other = v.running p l (ground arith) (ground arith) in
              let n = other_key o p (loading p) at other refl q in rw (q, n) other
        ];
        live = λ p l e f c. elim (Bool-cases (p == o)) [
          | inl q ↦ ground arith
          | inr q ↦
              let other = v.live p l (ground arith) (ground arith) (ground arith) in
              let n = other_key o p (entry p) at other refl q in rw (q, n) other
        ];
        listed = λ p i. elim (Bool-cases (p == o)) [
          | inl q ↦ ground (arith, v.listed p i)
          | inr q ↦
              let l = v.listed p i in let n = other_key o p (entry p) at (l.2) refl q in rw (q, n) l
        ];
        once = v.once;
        tallied =
            v.tallied
            ∙ ap (λ b. s.in_lru.debit + b)
                (sym (bytes_of-put_out s.objects o new s.lru (λ i. ground (arith, v.listed o i))));
      }

  -- What `items` holds behind an insertion.
  stored :
      (l k : ℕ) (q r : Ref)
      → put s.items l (some q) k ≡ some r
      → ((k ≡ l) × (q ≡ r)) ⊎ (((k == l) ≡ false) × (s.items k ≡ some r))
  stored l k q r e = elim (Bool-cases (k == l)) [
    | inl b ↦ inl (ground arith, ground arith)
    | inr b ↦ inr (b, ground arith)
  ]

  held_done :
      (o : ℕ)
      → o < s.next
      → (s.objects o).done ≡ false
      → 0 < (s.objects o).count
      → IsSound (finish o false s)
  unfolding finish
  held_done o h d held =
      let at = v.running o h d held in
      let positive : ltb 0 ((s.objects o).count) ≡ true = ground arith in
      let ok : (s.objects o).failed ≡ false = v.fresh o h d in
      let new : Object = record (s.objects o) { done = true } in
      let key : ℕ = (s.objects o).key in
      rw positive (record {
        indexed = λ k r e. elim (stored key k (entry o) r e) [
          | inl m ↦ let same = sym m.1 in rw (same, m.0, itself o) (h, refl)
          | inr m ↦ ground (arith, v.indexed k r m.1)
        ];
        fresh = λ p l e. ground (arith, v.fresh p l);
        pending = λ k p e. elim (stored key k (entry o) (loading p) e) [
          | inl m ↦ ground arith
          | inr m ↦ ground (arith, v.pending k p m.1, v.indexed k (loading p) m.1)
        ];
        ready = λ k p e. elim (stored key k (entry o) (entry p) e) [
          | inl m ↦ ground arith
          | inr m ↦ ground (arith, v.ready k p m.1)
        ];
        idle = λ k p e z. elim (stored key k (entry o) (entry p) e) [
          | inl m ↦ ground arith
          | inr m ↦ ground (arith, v.idle k p m.1)
        ];
        running = λ p l e c. elim (Bool-cases (p == o)) [
          | inl q ↦ ground arith
          | inr q ↦
              let other = v.running p l (ground arith) (ground arith) in
              let n = apart o p (loading o) (loading p) at refl other refl q in rw (q, n) other
        ];
        live = λ p l e f c. elim (Bool-cases (p == o)) [
          | inl q ↦ let same : p ≡ o = ground arith in rw (same, itself o, itself key) refl
          | inr q ↦
              let other = v.live p l (ground arith) (ground arith) (ground arith) in
              let n = apart o p (loading o) (entry p) at refl other refl q in rw (q, n) other
        ];
        listed = λ p i. elim (Bool-cases (p == o)) [
          | inl q ↦ ground (arith, v.listed p i)
          | inr q ↦
              let l = v.listed p i in
              let n = apart o p (loading o) (entry p) at refl (l.2) refl q in rw (q, n) l
        ];
        once = v.once;
        tallied =
            v.tallied
            ∙ ap (λ b. s.in_lru.debit + b) (sym (bytes_of-put s.objects o new s.lru refl));
      })

  -- A load that nobody holds any more is stored nowhere.
  left_done :
      (o : ℕ)
      → o < s.next
      → (s.objects o).done ≡ false
      → (s.objects o).count ≡ 0
      → IsSound (finish o false s)
  unfolding finish
  left_done o h d zero =
      let none_held : ltb 0 ((s.objects o).count) ≡ false = ground arith in
      let new : Object = record (s.objects o) { done = true } in
      rw none_held (record {
        indexed = λ k r e. ground (arith, v.indexed k r e);
        fresh = λ p l e. ground (arith, v.fresh p l);
        pending = λ k p e. ground (arith, v.pending k p e);
        ready = λ k p e. ground (arith, v.ready k p e);
        idle = λ k p e z. ground (arith, v.idle k p e);
        running = λ p l e c. ground (arith, v.running p l);
        live = λ p l e f c. ground (arith, v.live p l);
        listed = λ p i. ground (arith, v.listed p i);
        once = v.once;
        tallied =
            v.tallied
            ∙ ap (λ b. s.in_lru.debit + b) (sym (bytes_of-put s.objects o new s.lru refl));
      })

  pub done-IsSound : (o : ℕ) → o < s.next → (s.objects o).done ≡ false → IsSound (finish o false s)
  done-IsSound o h d = elim (Bool-cases (ltb 0 ((s.objects o).count))) [
    | inl c ↦ held_done o h d (ground arith)
    | inr c ↦ left_done o h d (ground arith)
  ]

  -- The last release of a load that is not done: it leaves `items`, and its tokens stay in use.
  pub leave-IsSound :
      (o : ℕ)
      → o < s.next
      → (s.objects o).done ≡ false
      → 0 < (s.objects o).count
      → IsSound (record s {
        objects = put s.objects o (record (s.objects o) { count = 0 });
        items = put s.items ((s.objects o).key) none;
      })
  leave-IsSound o h d held =
      let at : (s.items ((s.objects o).key) ≡ some (loading o))
          ⊎ (s.items ((s.objects o).key) ≡ none) =
        inl (v.running o h d held) in
      let new : Object = record (s.objects o) { count = 0 } in
      record {
        indexed = λ k r e. let m = kept o k r e in rw m.1 (v.indexed k r m.0);
        pending = λ k p e. let m = kept o k (loading p) e in rw m.1 (v.pending k p m.0);
        ready = λ k p e. let m = kept o k (entry p) e in rw m.1 (v.ready k p m.0);
        idle = λ k p e z. let m = kept o k (entry p) e in rw m.1 (v.idle k p m.0 (ground arith));
        fresh = λ p l e. ground (arith, v.fresh p l);
        running = λ p l e c. elim (Bool-cases (p == o)) [
          | inl q ↦ ground arith
          | inr q ↦
              let other = v.running p l (ground arith) (ground arith) in
              rw (q, other_key o p (loading p) at other refl q) other
        ];
        live = λ p l e f c. elim (Bool-cases (p == o)) [
          | inl q ↦ ground arith
          | inr q ↦
              let other = v.live p l (ground arith) (ground arith) (ground arith) in
              rw (q, other_key o p (entry p) at other refl q) other
        ];
        listed = λ p i. elim (Bool-cases (p == o)) [
          | inl q ↦ ground (arith, v.listed p i)
          | inr q ↦ let l = v.listed p i in rw (q, other_key o p (entry p) at (l.2) refl q) l
        ];
        once = v.once;
        tallied =
            v.tallied
            ∙ ap (λ b. s.in_lru.debit + b) (sym (bytes_of-put s.objects o new s.lru refl));
      }

  pub start_load-IsSound : (k tokens : ℕ) → s.items k ≡ none → IsSound (start_load k tokens s)
  unfolding start_load
  start_load-IsSound k tokens none_at =
      let new : Object = record {
        key = k;
        body = tokens;
        count = 1;
        done = false;
        failed = false;
        element = false;
      } in
      record {
        indexed = λ l r e. elim (stored k l (loading s.next) r e) [
          | inl m ↦ let same = sym m.1 in rw (same, m.0, itself s.next) (omega arith, refl)
          | inr m ↦ ground (arith, v.indexed l r m.1)
        ];
        fresh = λ p l e. ground (arith, v.fresh p);
        pending = λ l p e. elim (stored k l (loading s.next) (loading p) e) [
          | inl m ↦ ground arith
          | inr m ↦ ground (arith, v.pending l p m.1, v.indexed l (loading p) m.1)
        ];
        ready = λ l p e. elim (stored k l (loading s.next) (entry p) e) [
          | inl m ↦ ground arith
          | inr m ↦ ground (arith, v.ready l p m.1, v.indexed l (entry p) m.1)
        ];
        idle = λ l p e z. elim (stored k l (loading s.next) (entry p) e) [
          | inl m ↦ ground arith
          | inr m ↦ ground (arith, v.idle l p m.1, v.indexed l (entry p) m.1)
        ];
        running = λ p l e c. elim (Bool-cases (p == s.next)) [
          | inl q ↦ let same : p ≡ s.next = ground arith in rw (same, itself s.next, itself k) refl
          | inr q ↦
              let other = v.running p (ground arith) (ground arith) (ground arith) in
              rw (q, elsewhere k none_at p (loading p) other) other
        ];
        live = λ p l e f c. elim (Bool-cases (p == s.next)) [
          | inl q ↦ ground arith
          | inr q ↦
              let other = v.live p (ground arith) (ground arith) (ground arith) (ground arith) in
              rw (q, elsewhere k none_at p (entry p) other) other
        ];
        listed = λ p i.
            let l = v.listed p i in
            let q : (p == s.next) ≡ false = ground arith in
            rw (q, elsewhere k none_at p (entry p) l.2) (omega arith, l.1, l.2);
        once = v.once;
        tallied =
            v.tallied
            ∙ ap (λ b. s.in_lru.debit + b)
                (sym (
                  bytes_of-put_out s.objects s.next new s.lru
                    (λ i. ground (arith, v.listed s.next i))));
      }
