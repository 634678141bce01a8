-- ===== src/Sparse/Runs.antt =====
-- Concrete runs of the sparse set, and its theorems at concrete inputs.
use codesearch.Common.{◌≡◌, refl, arith, some, List, [], ◌∷◌, member}
use codesearch.Sparse.{Set, IsValid, new_set, reset, add, has}
use codesearch.Sparse.Histories.{Call, adds, resets, calls, members_after, Holds, calls-Holds}
use codesearch.Sparse.Laws.{Added, add-insert, has-member, reset-IsValid, new_set-IsValid}

abbrev four : Set
four = record { dense = []; sparse = 0 ∷ 0 ∷ 0 ∷ 0 ∷ [] }

abbrev two_three : Set
two_three = record { dense = 2 ∷ 3 ∷ []; sparse = 0 ∷ 0 ∷ 0 ∷ 1 ∷ [] }

add_twice : add two_three 3 ≡ some two_three
unfolding add
add_twice = refl

four-IsValid : IsValid four
unfolding new_set
four-IsValid = new_set-IsValid 4 (omega arith)

add-insert_example : (s' : Set) × (add four 2 ≡ some s') × Added four 2 s'
add-insert_example = add-insert four 2 four-IsValid (omega arith)

has-member_example : has four 2 ≡ some (member 2 [])
has-member_example = has-member four 2 four-IsValid (omega arith)

abbrev some_calls : List Call
some_calls = adds 3 ∷ adds 1 ∷ resets ∷ adds 1 ∷ adds 2 ∷ adds 1 ∷ []

calls-Holds_example :
    (s : Set) × (calls some_calls (new_set 4) ≡ some s) × Holds 4 s (members_after some_calls [])
calls-Holds_example = calls-Holds 4 some_calls (omega arith) (omega arith)

reset-IsValid_example : IsValid (reset four)
reset-IsValid_example = reset-IsValid four four-IsValid
