-- ===== src/Cache/Calls.antt =====
-- Each call ends without a panic in a sound cache with as many tokens.
use codesearch.Common.{ℕ, ◌+◌, ◌-◌, ◌≤◌, ◌<◌, ◌≡◌, refl, arith, subst, sym, ◌⊎◌}
use codesearch.Common.{Bool, true, false, ◌||◌, ◌==◌, Bool-cases}
use codesearch.Common.{Option, none, some, inl, inr, Option-cases}
use codesearch.Common.Int.{ℤ}
use codesearch.Cache.{
  Ref, loading, entry, Cache, put, object_of, acquire, inner_acquire, try_load, Loaded, loaded,
  bad_params, finish, retire, release, is_negative, to_ℕ,
}
use codesearch.Cache.Sound.{IsSound, Balanced}
use codesearch.Cache.Steps.{taken-IsSound, recount-IsSound, retire-IsSound}
use codesearch.Cache.Loads.{fail-IsSound, done-IsSound, leave-IsSound}
use codesearch.Cache.Evictions.{admit_lem}

-- What a caller holds: an entry that was acquired for it and that it has not released.
abbrev pub IsHeld : Cache → Ref → Type 0
IsHeld s (loading o) = (o < s.next) × (0 < (s.objects o).count)
IsHeld s (entry o) =
    (o < s.next)
    × (0 < (s.objects o).count)
    × ((s.objects o).done ≡ true)
    × ((s.objects o).failed ≡ false)

is_counted : (s : Cache) (r : Ref) → IsHeld s r → 0 < (s.objects (object_of r)).count
is_counted s (loading o) h = h.1
is_counted s (entry o) h = h.1

module _ (s : Cache) (v : IsSound s) where
  acquire_lem :
      (k : ℕ) (r : Ref)
      → s.items k ≡ some r
      → (s' : Cache) × (acquire (object_of r) s ≡ some s')
        × IsSound s'
        × Balanced s s'
        × (s'.available ≡ s.available)
  unfolding acquire
  acquire_lem k (loading o) e =
      let (d, c) = v.pending k o e in
      let held : ((s.objects o).count == 0) ≡ false = ground arith in
      (
        _,
        rw held refl,
        recount-IsSound s v o ((s.objects o).count + 1) c (inl (omega arith)),
        refl,
        refl,
      )
  acquire_lem k (entry o) e = elim (Bool-cases ((s.objects o).count == 0)) [
    | inl z ↦
        let none_held : (s.objects o).count ≡ 0 = ground arith in
        let (el, i) = v.idle k o e none_held in
        (_, rw z (rw el refl), taken-IsSound s v k o e none_held, omega arith, refl)
    | inr z ↦ (
      _,
      rw z refl,
      recount-IsSound s v o ((s.objects o).count + 1) (ground arith) (inl (omega arith)),
      refl,
      refl,
    )
  ]

  pub inner_acquire_lem :
      (k : ℕ)
      → (r : Option Ref) × (s' : Cache) × (inner_acquire k s ≡ some (r, s'))
        × IsSound s'
        × Balanced s s'
        × (s'.available ≡ s.available)
        × ((r ≡ none) → (s'.items k ≡ none))
  unfolding inner_acquire
  inner_acquire_lem k = elim (Option-cases (s.items k)) [
    | inl e ↦ (none, s, rw (e, inner_acquire) refl, v, refl, refl, λ _. e)
    | inr (r, e) ↦
        let (s', run, w, sum, same) = acquire_lem k r e in
        (some r, s', rw (e, inner_acquire) (rw run refl), w, sum, same, λ f. ground arith)
  ]

  -- `tryLoad` ends without a panic in a sound cache with as many tokens. Where the limit counts it
  -- never takes more than is available.
  pub try_load_lem :
      (k : ℕ) (from length : ℤ) (ignore_limit : Bool)
      → (out : Loaded) × (s' : Cache) × (try_load k from length ignore_limit s ≡ some (out, s'))
        × IsSound s'
        × Balanced s s'
        × ((ignore_limit ≡ false)
            → s.available.debit ≤ s.available.credit
            → s'.available.debit ≤ s'.available.credit)
  unfolding try_load
  try_load_lem k from length ignore_limit =
      elim (Bool-cases (is_negative from || is_negative length)) [
        | inl t ↦ (bad_params, s, rw t refl, v, refl, λ i h. h)
        | inr t ↦ behind_acquire t (inner_acquire_lem k)
      ]
    where
      behind_acquire :
          (is_negative from || is_negative length) ≡ false
          → (r : Option Ref) × (s' : Cache) × (inner_acquire k s ≡ some (r, s'))
            × IsSound s'
            × Balanced s s'
            × (s'.available ≡ s.available)
            × ((r ≡ none) → (s'.items k ≡ none))
          → (out : Loaded) × (s' : Cache) × (try_load k from length ignore_limit s ≡ some (out, s'))
            × IsSound s'
            × Balanced s s'
            × ((ignore_limit ≡ false)
                → s.available.debit ≤ s.available.credit
                → s'.available.debit ≤ s'.available.credit)
      behind_acquire t (some e, s₁, run, w, sum, same, absent) =
          (loaded e, s₁, rw t (rw run refl), w, sum, λ i h. rw same h)
      behind_acquire t (none, s₁, run, w, sum, same, absent) =
          let (out, s₂, admitted, w₂, sum₂, room) =
            admit_lem k (to_ℕ length) ignore_limit s₁ w (absent refl) in
          (out, s₂, rw t (rw run admitted), w₂, omega (arith, sum, sum₂), λ i h. room i (rw same h))

  retire_lem :
      (o : ℕ)
      → o < s.next
      → (s.objects o).count ≡ 1
      → (s.objects o).done ≡ true
      → (s.objects o).failed ≡ false
      → IsSound (retire o s) × Balanced s (retire o s)
  unfolding retire
  retire_lem o h c d f = (retire-IsSound s v o h c d f, omega arith)

  done_release_lem :
      (o : ℕ)
      → IsHeld s (loading o)
      → (s.objects o).count ≡ 1
      → (s.objects o).done ≡ true
      → IsSound (release (loading o) s) × Balanced s (release (loading o) s)
  unfolding release
  done_release_lem o h c d =
      let zero : ((s.objects o).count - 1 == 0) ≡ true = ground arith in
      elim (Bool-cases ((s.objects o).failed)) [
        | inl f ↦
            let counted : Cache = record s {
              objects = put s.objects o (record (s.objects o) { count = (s.objects o).count - 1 });
            } in
            let run : release (loading o) s ≡ counted = rw (zero, d, f) refl in
            subst (λ t. IsSound t × Balanced s t) (sym run)
              (recount-IsSound s v o ((s.objects o).count - 1) h.1 (inr (d, f)), refl)
        | inr f ↦
            let run : release (loading o) s ≡ retire o s = rw (zero, d, f) refl in
            subst (λ t. IsSound t × Balanced s t) (sym run) (retire_lem o h.0 c d f)
      ]

  early_release_lem :
      (o : ℕ)
      → IsHeld s (loading o)
      → (s.objects o).count ≡ 1
      → (s.objects o).done ≡ false
      → IsSound (release (loading o) s) × Balanced s (release (loading o) s)
  unfolding release
  early_release_lem o h c d =
      let zero : ((s.objects o).count - 1 == 0) ≡ true = ground arith in
      let none_left : (s.objects o).count - 1 ≡ 0 = omega (arith, c) in
      let left : Cache = record s {
        objects = put s.objects o (record (s.objects o) { count = 0 });
        items = put s.items ((s.objects o).key) none;
      } in
      let run : release (loading o) s ≡ left = rw (zero, d, none_left) refl in
      subst (λ t. IsSound t × Balanced s t) (sym run) (leave-IsSound s v o h.0 d h.1, refl)

  last_release_lem :
      (r : Ref)
      → IsHeld s r
      → (s.objects (object_of r)).count ≡ 1
      → IsSound (release r s) × Balanced s (release r s)
  unfolding release
  last_release_lem (entry o) h c =
      let zero : ((s.objects o).count - 1 == 0) ≡ true = ground arith in
      rw zero (retire_lem o h.0 c (ground arith) (ground arith))
  last_release_lem (loading o) h c = elim (Bool-cases ((s.objects o).done)) [
    | inl d ↦ done_release_lem o h c d
    | inr d ↦ early_release_lem o h c d
  ]

  pub release_lem : (r : Ref) → IsHeld s r → IsSound (release r s) × Balanced s (release r s)
  unfolding release retire
  release_lem r held = elim (Bool-cases ((s.objects (object_of r)).count - 1 == 0)) [
    | inr t ↦ rw t (
      recount-IsSound s v (object_of r) ((s.objects (object_of r)).count - 1) (is_counted s r held)
          (inl (ground arith)),
      refl,
    )
    | inl t ↦
        let one : (s.objects (object_of r)).count ≡ 1 = ground (arith, is_counted s r held) in
        last_release_lem r held one
  ]

  pub finish_lem :
      (o : ℕ) (failed : Bool)
      → o < s.next
      → (s.objects o).done ≡ false
      → (failed ≡ false) ⊎ ((0 < (s.objects o).count) ⊎ (s.items ((s.objects o).key) ≡ none))
      → IsSound (finish o failed s) × Balanced s (finish o failed s)
  unfolding finish
  finish_lem o true h d (inl e) = ground (arith, e)
  finish_lem o true h d (inr (inl c)) =
      (fail-IsSound s v o h d (inl (v.running o h d c)), omega arith)
  finish_lem o true h d (inr (inr free)) = (fail-IsSound s v o h d (inr free), omega arith)
  finish_lem o false h d k = (done-IsSound s v o h d, refl)
