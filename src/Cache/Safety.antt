-- ===== src/Cache/Safety.antt =====
-- The calls of the cache as steps, and what holds in every state that they reach.
use codesearch.Common.{ℕ, ◌+◌, ◌≤◌, ◌<◌, ◌≡◌, ◌≢◌, refl, arith, subst, ◌∙◌, ap, sym, ◌⊎◌}
use codesearch.Common.{Bool, false}
use codesearch.Common.{Option, none, some}
use codesearch.Common.Int.{ℤ}
use codesearch.Cache.{Ref, Cache, inner_acquire, try_load, Loaded, finish, release, new_cache}
use codesearch.Cache.Sound.{bytes_of, Once, IsSound, Balanced, credits, debits}
use codesearch.Cache.Calls.{IsHeld, inner_acquire_lem, try_load_lem, release_lem, finish_lem}

-- The calls in the order in which they take the mutex.
pub data Step : Cache → Cache → Type 0 where
  acquires : {s s' : Cache} (k : ℕ) (r : Option Ref) → inner_acquire k s ≡ some (r, s') → Step s s'
  loads :
      {s s' : Cache} (k : ℕ) (from length : ℤ) (ignore_limit : Bool) (out : Loaded)
      → try_load k from length ignore_limit s ≡ some (out, s')
      → Step s s'
  finishes :
      {s : Cache} (o : ℕ) (failed : Bool)
      → o < s.next
      → (s.objects o).done ≡ false
      → Step s (finish o failed s)
  releases : {s : Cache} (r : Ref) → IsHeld s r → Step s (release r s)

pub data Reach (limit : ℕ) : Cache → Type 0 where
  begin : Reach limit (new_cache limit)
  later : {s s' : Cache} → Reach limit s → Step s s' → Reach limit s'

-- A load that fails is still held, or its key is not in `items`: nobody has loaded it again since
-- the last release.
abbrev pub IsTimely : {s s' : Cache} → Step s s' → Type 0
IsTimely (acquires k r e) = Unit
IsTimely (loads k from length ignore_limit out e) = Unit
IsTimely {s} (finishes o failed h d) =
    (failed ≡ false) ⊎ ((0 < (s.objects o).count) ⊎ (s.items ((s.objects o).key) ≡ none))
IsTimely (releases r h) = Unit

abbrev pub AreTimely : {limit : ℕ} {s : Cache} → Reach limit s → Type 0
AreTimely begin = Unit
AreTimely (later r st) = AreTimely r × IsTimely st

some_pair_inj :
    {A : Type 0} {a b : A} {s t : Cache}
    → ◌≡◌ {A = Option (A × Cache)} (some (a, s)) (some (b, t))
    → s ≡ t
some_pair_inj {a} {s} e = ap (λ o. elim o [ none ↦ s | some p ↦ p.1 ]) e

new_cache-IsSound : (limit : ℕ) → IsSound (new_cache limit)
unfolding Once bytes_of
new_cache-IsSound limit = record {
  indexed = λ k r e. ground arith;
  fresh = λ o h d. absurd (omega arith);
  pending = λ k o e. ground arith;
  ready = λ k o e. ground arith;
  idle = λ k o e z. ground arith;
  running = λ o h d c. absurd (omega arith);
  live = λ o h d f c. absurd (omega arith);
  listed = λ o i. elim i [ ];
  once = tt;
  tallied = refl;
}

Step-IsSound :
    {s s' : Cache} → IsSound s → (st : Step s s') → IsTimely st → IsSound s' × Balanced s s'
Step-IsSound {s} v (acquires k r e) y =
    let (r₁, s₁, run, w, sum, same, absent) = inner_acquire_lem s v k in
    let one = some_pair_inj (sym e ∙ run) in
    subst (λ t. IsSound t × Balanced s t) (sym one) (w, sum)
Step-IsSound {s} v (loads k from length ignore_limit out e) y =
    let (out₁, s₁, run, w, sum, room) = try_load_lem s v k from length ignore_limit in
    let one = some_pair_inj (sym e ∙ run) in
    subst (λ t. IsSound t × Balanced s t) (sym one) (w, sum)
Step-IsSound {s} v (finishes o failed h d) y = finish_lem s v o failed h d y
Step-IsSound {s} v (releases r h) y = release_lem s v r h

-- Where no load fails after its last release while a newer load has its key, every state that the
-- calls reach is sound, and its tokens, available, of the list and in use, add up to the limit that
-- the cache was made with.
pub Reach-IsSound :
    (limit : ℕ) (s : Cache) (r : Reach limit s)
    → AreTimely r
    → IsSound s × (credits s ≡ limit + debits s)
Reach-IsSound limit s begin y = (new_cache-IsSound limit, omega arith)
Reach-IsSound limit s (later r st) (y, z) =
    let (v, sum) = Reach-IsSound limit _ r y in
    let (w, same) = Step-IsSound v st z in (w, omega (arith, sum, same))

-- Where no load fails after its last release while a newer load has its key, in every state that the
-- calls reach `Acquire` and `tryLoad` end without a panic, and a load under the limit keeps the
-- available tokens from being negative.
pub Reach-safe :
    (limit : ℕ) (s : Cache) (r : Reach limit s)
    → AreTimely r
    → ((k : ℕ) → inner_acquire k s ≢ none)
      × ((k : ℕ) (from length : ℤ) (ignore_limit : Bool)
          → (out : Loaded) × (s' : Cache) × (try_load k from length ignore_limit s ≡ some (out, s'))
            × ((ignore_limit ≡ false)
                → s.available.debit ≤ s.available.credit
                → s'.available.debit ≤ s'.available.credit))
Reach-safe limit s r y =
    let v = (Reach-IsSound limit s r y).0 in
    (
      (λ k e. let (r₁, s₁, run, w, sum, same, absent) = inner_acquire_lem s v k in ground arith),
      λ k from length ignore_limit.
          let (out, s', run, w, sum, room) = try_load_lem s v k from length ignore_limit in
          (out, s', run, room),
    )
