-- ===== src/Sparse/Histories.antt =====
-- What the calls of a sparse set come to, one after the other.
use codesearch.Common.{ℕ, ◌≤◌, ◌<◌, ◌^◌, ◌≡◌, refl, arith, ◌∙◌, subst}
use codesearch.Common.{Option, none, some, List, [], ◌∷◌, length, member, All, length-replicate}
use codesearch.Sparse.{Set, IsValid, new_set, reset, add, has, len}
use codesearch.Sparse.Bounds.{Distinct, dense-Distinct, len-le}
use codesearch.Sparse.Laws.{insert, add-insert, has-member, reset-IsValid, new_set-IsValid}

-- A call that changes the set.
pub data Call : Type 0 where
  adds : ℕ → Call
  resets : Call

abbrev pub call : Call → Set → Option Set
call (adds x) s = add s x
call resets s = some (reset s)

abbrev pub calls : List Call → Set → Option Set
calls [] s = some s
calls (c ∷ cs) s = elim (call c s) [ none ↦ none | some s' ↦ calls cs s' ]

-- The reference: the members in the order of their insertion.
abbrev pub members_after : List Call → List ℕ → List ℕ
members_after [] xs = xs
members_after (adds x ∷ cs) xs = members_after cs (insert x xs)
members_after (resets ∷ cs) xs = members_after cs []

-- What is added is below the maximum.
abbrev pub IsWithin : ℕ → List Call → Type 0
IsWithin max [] = Unit
IsWithin max (adds x ∷ cs) = (x < max) × IsWithin max cs
IsWithin max (resets ∷ cs) = IsWithin max cs

-- The set has the given members, each once and below the maximum, and no more of them than that;
-- `Has` answers by them.
pub record Holds (max : ℕ) (s : Set) (xs : List ℕ) : Type 0 where
  pub members : s.dense ≡ xs
  pub once : Distinct s.dense
  pub in_range : All (λ x. x < max) s.dense
  pub size : len s ≤ max
  pub asked : (x : ℕ) → x < max → has s x ≡ some (member x xs)

IsValid-Holds : (max : ℕ) (s : Set) → IsValid s → length s.sparse ≡ max → Holds max s s.dense
IsValid-Holds max s v e = record {
  members = refl;
  once = dense-Distinct s v;
  in_range = subst (λ n. All (λ x. x < n) s.dense) e v.in_range;
  size = subst (λ n. len s ≤ n) e (len-le s v);
  asked = λ x h. has-member s x v (omega (arith, h, e));
}

calls_hold :
    (max : ℕ) (cs : List Call) (s : Set)
    → IsValid s
    → length s.sparse ≡ max
    → IsWithin max cs
    → (s' : Set) × (calls cs s ≡ some s') × Holds max s' (members_after cs s.dense)
calls_hold max [] s v e h = (s, refl, IsValid-Holds max s v e)
calls_hold max (adds x ∷ cs) s v e (l, h) =
    let (s₁, run, a) = add-insert s x v (omega (arith, l, e)) in
    let (s₂, more, holds) = calls_hold max cs s₁ a.valid (a.room ∙ e) h in
    (s₂, rw (run, calls) more, subst (λ xs. Holds max s₂ (members_after cs xs)) a.dense holds)
calls_hold max (resets ∷ cs) s v e h =
    let (s₂, more, holds) = calls_hold max cs (reset s) (reset-IsValid s v) (unfold reset in e) h in
    let none_left : (reset s).dense ≡ [] = unfold reset in refl in
    (s₂, more, subst (λ xs. Holds max s₂ (members_after cs xs)) none_left holds)

-- Whatever values below the maximum are added to a new set, and whenever it is reset, no call
-- panics. The set then has exactly the values that were added since, in the order of their first
-- insertion, each once, and never more than the maximum; `Has` answers by them.
pub calls-Holds :
    (max : ℕ) (cs : List Call)
    → max < 2 ^ 32
    → IsWithin max cs
    → (s : Set) × (calls cs (new_set max) ≡ some s) × Holds max s (members_after cs [])
calls-Holds max cs small h =
    let (s, run, holds) = calls_hold max cs (new_set max) (new_set-IsValid max small) room h in
    let none_yet : (new_set max).dense ≡ [] = unfold new_set in refl in
    (s, run, subst (λ xs. Holds max s (members_after cs xs)) none_yet holds)
  where
    room : length (new_set max).sparse ≡ max
    room = unfold new_set in length-replicate {A = ℕ} max 0
