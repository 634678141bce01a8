-- ===== src/Cache.antt =====
-- The shard cache, cmd/cindex-serve/cache/cache.go: its state and one function for each call that
-- holds the mutex. `none` is a panic. A key is a number, and an object is the `loading` that a load
-- makes together with its `entry`; objects are told apart by the order of their making.
pub mod Sound
pub mod Steps
pub mod Loads
pub mod Evictions
pub mod Calls
pub mod Safety
pub mod Runs
use codesearch.Common.{ℕ, zero, suc, ◌+◌, ◌-◌, ◌≡◌, Bool, true, false, not, ◌&&◌, ◌||◌}
use codesearch.Common.{Option, none, some, List, [], ◌∷◌, ◌++◌, if◌then◌else◌, ltb, ◌==◌}
use codesearch.Common.Int.{ℤ, pos, negsuc}
use codesearch.Index.Read.{◌>>=◌}

-- An int64 that may be negative, as what was added to it and what was taken from it. It does not
-- wrap: that takes 2 ^ 32 loads of the largest length.
pub record Tally : Type 0 where
  pub credit : ℕ
  pub debit : ℕ

abbrev pub plus : Tally → ℕ → Tally
plus t n = record { credit = t.credit + n; debit = t.debit }

abbrev pub minus : Tally → ℕ → Tally
minus t n = record { credit = t.credit; debit = t.debit + n }

-- `body` is its length; `element` is whether it is not nil.
pub record Object : Type 0 where
  pub key : ℕ
  pub body : ℕ
  pub count : ℕ
  pub done : Bool
  pub failed : Bool
  pub element : Bool

-- What `items` holds: a `*loading`, or the `*entry` inside one.
pub data Ref : Type 0 where
  loading entry : ℕ → Ref

-- `lru` from its back to its front.
pub record Cache : Type 0 where
  pub items : ℕ → Option Ref
  pub objects : ℕ → Object
  pub next : ℕ
  pub lru : List ℕ
  pub available : Tally
  pub in_lru : Tally
  pub in_use : Tally

abbrev pub put {ℓ} : {A : Type ℓ} → (ℕ → A) → ℕ → A → ℕ → A
put f k v q = if q == k then v else f q

unfoldable pub remove : ℕ → List ℕ → List ℕ
remove o [] = []
remove o (x ∷ xs) = if x == o then xs else x ∷ remove o xs

-- `entry.acquire`; removing a nil element panics.
unfoldable pub acquire : ℕ → Cache → Option Cache
acquire o s =
    let e = s.objects o in
    if e.count == 0
    then (if e.element
        then some (record s {
          objects = put s.objects o (record e { count = 1; element = false });
          lru = remove o s.lru;
          in_lru = minus s.in_lru e.body;
          in_use = plus s.in_use e.body;
        })
        else none)
    else some (record s { objects = put s.objects o (record e { count = e.count + 1 }) })

abbrev pub object_of : Ref → ℕ
object_of (loading o) = o
object_of (entry o) = o

-- `innerAcquire`, with the entry that it returns; `none` inside is nil.
unfoldable pub inner_acquire : ℕ → Cache → Option (Option Ref × Cache)
unfolding acquire
inner_acquire k s = elim (s.items k) [
  | none ↦ some (none, s)
  | some e ↦ elim (acquire (object_of e) s) [ none ↦ none | some s' ↦ some (some e, s') ]
]

abbrev pub entry_at : Option Ref → Option ℕ
entry_at (some (entry o)) = some o
entry_at (some (loading o)) = none
entry_at none = none

-- `c.available < tokens`
abbrev pub short_of : Tally → ℕ → Bool
short_of t tokens = ltb t.credit (tokens + t.debit)

-- The loop that evicts from the back of `lru`; the type assertion panics where the key of what it
-- removes is not in `items`, or is loading.
unfoldable pub evict : ℕ → List ℕ → Cache → Option Cache
evict tokens [] s = some (record s { lru = [] })
evict tokens (o ∷ rest) s = elim (short_of s.available tokens) [
  | false ↦ some (record s { lru = o ∷ rest })
  | true ↦ elim (entry_at (s.items (s.objects o).key)) [
    | none ↦ none
    | some p ↦ evict tokens rest (record s {
      items = put s.items (s.objects o).key none;
      available = plus s.available (s.objects p).body;
      in_lru = minus s.in_lru (s.objects p).body;
    })
  ]
]

-- What `tryLoad` returns: an error for the parameters, `ErrMemoryPressure`, or an entry.
pub data Loaded : Type 0 where
  bad_params memory_pressure : Loaded
  loaded : Ref → Loaded

abbrev pub is_negative : ℤ → Bool
is_negative (pos n) = false
is_negative (negsuc n) = true

abbrev pub to_ℕ : ℤ → ℕ
to_ℕ (pos n) = n
to_ℕ (negsuc n) = 0

-- The new object and the tokens of its body.
unfoldable pub start_load : ℕ → ℕ → Cache → Cache
start_load k tokens s = record s {
  objects =
      put s.objects s.next (record {
        key = k;
        body = tokens;
        count = 1;
        done = false;
        failed = false;
        element = false;
      });
  items = put s.items k (some (loading s.next));
  next = suc s.next;
  available = minus s.available tokens;
  in_use = plus s.in_use tokens;
}

-- `!params.IgnoreLimit && c.available+c.inLRU < tokens`
unfoldable pub over_limit : ℕ → Bool → Cache → Bool
over_limit tokens ignore_limit s =
    not ignore_limit
    && ltb (s.available.credit + s.in_lru.credit) (tokens + s.available.debit + s.in_lru.debit)

-- `tryLoad` behind its first acquire.
unfoldable pub admit : ℕ → ℕ → Bool → Cache → Option (Loaded × Cache)
unfolding over_limit evict start_load
admit k tokens ignore_limit s =
    if over_limit tokens ignore_limit s
    then some (memory_pressure, s)
    else (do s' ← evict tokens s.lru s; some (loaded (loading s'.next), start_load k tokens s'))

unfoldable pub try_load : ℕ → ℤ → ℤ → Bool → Cache → Option (Loaded × Cache)
unfolding inner_acquire admit
try_load k start length ignore_limit s =
    if is_negative start || is_negative length
    then some (bad_params, s)
    else elim (inner_acquire k s) [
      | none ↦ none
      | some (some e, s') ↦ some (loaded e, s')
      | some (none, s') ↦ admit k (to_ℕ length) ignore_limit s'
    ]

-- `finish`, with whether the load failed.
unfoldable pub finish : ℕ → Bool → Cache → Cache
finish o failed s =
    let l = s.objects o in
    if failed
    then record s {
      objects = put s.objects o (record l { body = 0; done = true; failed = true });
      items = put s.items l.key none;
      in_use = minus s.in_use l.body;
      available = plus s.available l.body;
    }
    else record s {
      objects = put s.objects o (record l { done = true });
      items = if ltb 0 l.count then put s.items l.key (some (entry o)) else s.items;
    }

-- The end of a last release: the entry goes to the front of `lru`.
unfoldable pub retire : ℕ → Cache → Cache
retire o s =
    let e = s.objects o in
    record s {
      objects = put s.objects o (record e { count = 0; element = true });
      lru = s.lru ++ (o ∷ []);
      in_lru = plus s.in_lru e.body;
      in_use = minus s.in_use e.body;
    }

-- `Release`, by a caller that holds the entry. The last release of a load that is not done takes
-- it out of `items`, and waits for it.
unfoldable pub release : Ref → Cache → Cache
unfolding retire
release r s =
    let o = object_of r in
    let e = s.objects o in
    let counted = record s { objects = put s.objects o (record e { count = e.count - 1 }) } in
    if not (e.count - 1 == 0) then counted else elim r [
      | entry _ ↦ retire o s
      | loading _ ↦
          if e.done
          then (if e.failed then counted else retire o s)
          else record counted { items = put s.items e.key none }
    ]

-- A `prepare`, which is not shared; `entry` is `none` while it is nil.
pub record Prepare : Type 0 where
  pub key : ℕ
  pub from : ℤ
  pub length : ℤ
  pub ignore_limit : Bool
  pub prepared : Option Ref

-- `Acquire`: an entry, or a `prepare`.
pub data Acquired : Type 0 where
  shared : Ref → Acquired
  to_load : Prepare → Acquired

unfoldable pub acquire_entry : ℕ → ℤ → ℤ → Bool → Cache → Option (Acquired × Cache)
unfolding inner_acquire
acquire_entry k from length ignore_limit s = elim (inner_acquire k s) [
  | none ↦ none
  | some (some e, s') ↦ some (shared e, s')
  | some (none, s') ↦ some (
    to_load (record {
      key = k;
      from = from;
      length = length;
      ignore_limit = ignore_limit;
      prepared = none;
    }),
    s',
  )
]

-- What `Get` of a `prepare` comes to before it reads the entry: the error of `Size`, what
-- `tryLoad` refused, or an entry.
pub data Got : Type 0 where
  size_failed : Got
  refused : Loaded → Got
  got : Ref → Got

abbrev pub is_zero : ℤ → Bool
is_zero (pos n) = n == 0
is_zero (negsuc n) = false

unfoldable pub load_prepared : Prepare → Cache → Option (Got × Prepare × Cache)
unfolding try_load
load_prepared p s = elim (try_load p.key p.from p.length p.ignore_limit s) [
  | none ↦ none
  | some (loaded e, s') ↦ some (got e, record p { prepared = some e }, s')
  | some (bad_params, s') ↦ some (refused bad_params, p, s')
  | some (memory_pressure, s') ↦ some (refused memory_pressure, p, s')
]

-- `prepare.Get`; `size` is what the loader's `Size` returns, and `none` its error.
unfoldable pub prepare_get : Option ℤ → Prepare → Cache → Option (Got × Prepare × Cache)
unfolding load_prepared
prepare_get size p s = elim (p.prepared) [
  | some e ↦ some (got e, p, s)
  | none ↦
      if is_zero p.length
      then elim size [
        | none ↦ some (size_failed, p, s)
        | some n ↦ load_prepared (record p { length = n }) s
      ]
      else load_prepared p s
]

-- `Release` of a `prepare`; a nil entry is none of the cases.
unfoldable pub release_prepared : Prepare → Cache → Cache
unfolding release
release_prepared p s = elim (p.prepared) [ none ↦ s | some e ↦ release e s ]

abbrev pub new_cache : ℕ → Cache
new_cache limit = record {
  items = λ _. none;
  objects =
      λ _. record { key = 0; body = 0; count = 0; done = false; failed = false; element = false };
  next = 0;
  lru = [];
  available = record { credit = limit; debit = 0 };
  in_lru = record { credit = 0; debit = 0 };
  in_use = record { credit = 0; debit = 0 };
}
