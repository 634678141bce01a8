-- ===== src/Cache/Runs.antt =====
-- Runs of the cache, and its theorems at a run.
use codesearch.Common.{
  ℕ, ◌+◌, ◌≤◌, ◌<◌, ◌≡◌, ◌≢◌, refl, arith, Bool, true, false, none, some, inl, inr,
}
use codesearch.Common.Int.{ℤ, pos}
use codesearch.Cache.{
  loading, Cache, Loaded, loaded, inner_acquire, try_load, finish, release, new_cache, retire,
  start_load, admit, over_limit, evict,
}
use codesearch.Cache.Sound.{IsSound, credits, debits}
use codesearch.Cache.Safety.{
  Reach, AreTimely, begin, later, loads, finishes, releases, Reach-IsSound, Reach-safe,
}

-- One entry of four bytes was loaded and released.
abbrev one_entry : Cache
one_entry = release (loading 0) (finish 0 false (start_load 7 4 (new_cache 10)))

-- Behind it another load is released before it is done, and fails.
abbrev left_load : Cache
left_load = finish 1 true (release (loading 1) (start_load 8 4 one_entry))

left_load-Reach : (r : Reach 10 left_load) × AreTimely r
unfolding try_load inner_acquire admit over_limit evict start_load finish release retire
left_load-Reach = (
  later
      (later
        (later
          (later
            (later (later begin (loads 7 (pos 0) (pos 4) false (loaded (loading 0)) refl))
              (finishes 0 false (omega arith) refl))
            (releases (loading 0) (omega arith, omega arith)))
          (loads 8 (pos 0) (pos 4) false (loaded (loading 1)) refl))
        (releases (loading 1) (omega arith, omega arith)))
      (finishes 1 true (omega arith) refl),
  ((((((tt, tt), inl refl), tt), tt), tt), inr (inr refl)),
)

Reach-IsSound_example : IsSound left_load × (credits left_load ≡ 10 + debits left_load)
Reach-IsSound_example = Reach-IsSound 10 left_load left_load-Reach.0 left_load-Reach.1

Reach-safe_example :
    ((k : ℕ) → inner_acquire k left_load ≢ none)
    × ((k : ℕ) (from length : ℤ) (ignore_limit : Bool)
        → (out : Loaded) × (s' : Cache) × (try_load k from length ignore_limit left_load
            ≡ some (out, s'))
          × ((ignore_limit ≡ false)
              → left_load.available.debit ≤ left_load.available.credit
              → s'.available.debit ≤ s'.available.credit))
Reach-safe_example = Reach-safe 10 left_load left_load-Reach.0 left_load-Reach.1

-- Where the last release comes before the load is done, and the load then ends without an error,
-- nobody holds the entry and it is in no list, and its tokens stay in use.
abbrev leaked : Cache
leaked = finish 0 false (release (loading 0) (start_load 7 4 (new_cache 10)))

leaked_item : leaked.items 7 ≡ none
unfolding finish release start_load
leaked_item = refl

leaked_tokens : leaked.in_use ≡ record { credit = 4; debit = 0 }
unfolding finish release start_load
leaked_tokens = refl

-- Where the key is loaded again before the released load fails, the failure takes the new load out
-- of `items`; a third load then shares the key, and evicting both panics. The calls reach this state,
-- by a failure that is not timely.
abbrev doubled : Cache
doubled = release (loading 2) (
    release (loading 1) (
      finish 2 false (
        finish 1 false (
          start_load 7 4 (
            finish 0 true
              (start_load 7 4 (release (loading 0) (start_load 7 4 (new_cache 10)))))))))

below_three : (1 < 3) × (2 < 3) × (0 < 1)
below_three = omega arith

doubled-Reach : Reach 10 doubled
unfolding try_load inner_acquire admit over_limit evict start_load finish release retire
doubled-Reach =
    later
      (later
        (later
          (later
            (later
              (later
                (later
                  (later (later begin (loads 7 (pos 0) (pos 4) false (loaded (loading 0)) refl))
                    (releases (loading 0) (omega arith, omega arith)))
                  (loads 7 (pos 0) (pos 4) true (loaded (loading 1)) refl))
                (finishes 0 true (omega arith) refl))
              (loads 7 (pos 0) (pos 4) true (loaded (loading 2)) refl))
            (finishes 1 false below_three.0 refl))
          (finishes 2 false below_three.1 refl))
        (releases (loading 1) (below_three.0, below_three.2)))
      (releases (loading 2) (below_three.1, below_three.2))

doubled_panics : try_load 9 (pos 0) (pos 10) false doubled ≡ none
unfolding try_load inner_acquire admit over_limit evict start_load finish release retire
doubled_panics = refl
