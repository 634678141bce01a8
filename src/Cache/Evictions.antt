-- ===== src/Cache/Evictions.antt =====
-- Evictions: each takes what it removes out of the tokens of `lru` and makes it available.
use codesearch.Common.{ℕ, ◌+◌, ◌≤◌, ◌≡◌, refl, arith, subst, ap}
use codesearch.Common.{Bool, true, false, ◌==◌, Bool-cases}
use codesearch.Common.{Option, none, some, List, [], ◌∷◌, inl, inr, tests, In}
use codesearch.Cache.{
  plus, minus, Ref, loading, entry, Cache, put, start_load, evict, short_of, over_limit, admit,
  Loaded, loaded, memory_pressure,
}
use codesearch.Cache.Sound.{bytes_of, Once, IsSound, Balanced}
use codesearch.Cache.Loads.{kept, apart, start_load-IsSound}

-- The cache behind the eviction of the entry at the back of `lru`.
abbrev evicted : ℕ → List ℕ → Cache → Cache
evicted o rest s = record s {
  items = put s.items ((s.objects o).key) none;
  available = plus s.available (s.objects o).body;
  in_lru = minus s.in_lru (s.objects o).body;
  lru = rest;
}

module _ (s : Cache) (o : ℕ) (rest : List ℕ) (v : IsSound (record s { lru = o ∷ rest })) where
  evicted-IsSound : IsSound (evicted o rest s)
  unfolding Once bytes_of
  evicted-IsSound =
      let t : Cache = record s { lru = o ∷ rest } in
      let first = v.listed o (inl refl) in
      record {
        indexed = λ k r e. let m = kept t v o k r e in v.indexed k r m.0;
        fresh = v.fresh;
        pending = λ k p e. let m = kept t v o k (loading p) e in v.pending k p m.0;
        ready = λ k p e. let m = kept t v o k (entry p) e in v.ready k p m.0;
        idle = λ k p e z.
            let m = kept t v o k (entry p) e in
            let i = v.idle k p m.0 z in (i.0, ground (arith, i.1, m.1));
        running = λ p l d c.
            let other = v.running p l d c in
            let q : (p == o) ≡ false = ground (arith, v.ready _ o (first.2)) in
            rw (apart t v o p (entry o) (loading p) (first.2) refl other refl q) other;
        live = λ p l d f c.
            let other = v.live p l d f c in
            let q : (p == o) ≡ false = ground (arith, first.1) in
            rw (apart t v o p (entry o) (entry p) (first.2) refl other refl q) other;
        listed = λ p i.
            let l = v.listed p (inr i) in
            let q : (p == o) ≡ false = elim (Bool-cases (p == o)) [
              | inl b ↦
                  let same : p ≡ o = ground arith in
                  absurd (v.once.0 (subst (λ x. In x rest) same i))
              | inr b ↦ b
            ] in
            rw (apart t v o p (entry o) (entry p) (first.2) refl (l.2) refl q) l;
        once = v.once.1;
        tallied = omega (arith, v.tallied);
      }

-- What evictions leave: a sound cache with as many tokens, in which there is room or nothing more
-- to evict.
pub record Evicted (s : Cache) (tokens : ℕ) (s' : Cache) : Type 0 where
  pub sound : IsSound s'
  pub absent : (k : ℕ) → s.items k ≡ none → s'.items k ≡ none
  pub room : short_of s'.available tokens ≡ true → s'.lru ≡ []
  pub in_use : s'.in_use ≡ s.in_use
  pub balance :
      s'.available.credit + s'.in_lru.credit + (s.available.debit + s.in_lru.debit)
      ≡ s.available.credit + s.in_lru.credit + (s'.available.debit + s'.in_lru.debit)

put-none : (f : ℕ → Option Ref) (l k : ℕ) → f k ≡ none → put f l none k ≡ none
put-none f l k e = ground arith

pub evict_lem :
    (tokens : ℕ) (os : List ℕ) (s : Cache)
    → IsSound (record s { lru = os })
    → (s' : Cache) × (evict tokens os s ≡ some s') × Evicted s tokens s'
unfolding evict
evict_lem tokens [] s v = (
  record s { lru = [] },
  refl,
  record { sound = v; absent = λ k e. e; room = λ e. refl; in_use = refl; balance = refl },
)
evict_lem tokens (o ∷ rest) s v = elim (Bool-cases (short_of s.available tokens)) [
  | inr e ↦ (
    record s { lru = o ∷ rest },
    rw (e, evict) refl,
    record {
      sound = v;
      absent = λ k e. e;
      room = λ f. ground arith;
      in_use = refl;
      balance = refl;
    },
  )
  | inl e ↦
      let first = v.listed o (inl refl) in
      let (s', run, r) = evict_lem tokens rest (evicted o (s.lru) s) (evicted-IsSound s o rest v) in
      (
        s',
        rw (e, evict) (rw (first.2) run),
        record {
          sound = r.sound;
          absent = λ k e. r.absent k (put-none s.items ((s.objects o).key) k e);
          room = r.room;
          in_use = r.in_use;
          balance = omega (arith, r.balance);
        },
      )
]

fits :
    (tokens : ℕ) (ignore_limit : Bool) (s : Cache)
    → over_limit tokens ignore_limit s ≡ false
    → ignore_limit ≡ false
    → tokens + s.available.debit + s.in_lru.debit ≤ s.available.credit + s.in_lru.credit
unfolding over_limit
fits tokens ignore_limit s t i = ground arith

nothing_left : (s : Cache) → IsSound s → s.lru ≡ [] → s.in_lru.credit ≡ s.in_lru.debit
unfolding bytes_of
nothing_left s v e =
    let none : bytes_of s.objects s.lru ≡ 0 = rw e refl in omega (arith, v.tallied, none)

room_made :
    (tokens : ℕ) (s s' : Cache)
    → Evicted s tokens s'
    → tokens + s.available.debit + s.in_lru.debit ≤ s.available.credit + s.in_lru.credit
    → s'.available.debit + tokens ≤ s'.available.credit
room_made tokens s s' r h = elim (Bool-cases (short_of s'.available tokens)) [
  | inl e ↦ omega (arith, nothing_left s' r.sound (r.room e), r.balance)
  | inr e ↦ omega tests
]

-- Behind its acquire `tryLoad` ends without a panic in a sound cache. Where the limit counts and
-- it loads, there was room.
pub admit_lem :
    (k tokens : ℕ) (ignore_limit : Bool) (s : Cache)
    → IsSound s
    → s.items k ≡ none
    → (out : Loaded) × (s' : Cache) × (admit k tokens ignore_limit s ≡ some (out, s'))
      × IsSound s'
      × Balanced s s'
      × ((ignore_limit ≡ false)
          → s.available.debit ≤ s.available.credit
          → s'.available.debit ≤ s'.available.credit)
unfolding admit over_limit
admit_lem k tokens ignore_limit s v e = elim (Bool-cases (over_limit tokens ignore_limit s)) [
  | inl t ↦ (memory_pressure, s, rw t refl, v, refl, λ i h. h)
  | inr t ↦
      let (s', run, r) = evict_lem tokens s.lru s v in
      (
        loaded (loading s'.next),
        start_load k tokens s',
        rw t (rw run refl),
        start_load-IsSound s' r.sound k tokens (r.absent k e),
        omega (arith, r.balance, ap (λ t. t.credit) r.in_use, ap (λ t. t.debit) r.in_use),
        λ i h. room_made tokens s s' r (fits tokens ignore_limit s t i),
      )
]
