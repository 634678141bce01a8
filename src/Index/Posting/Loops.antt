-- ===== src/Index/Posting/Loops.antt =====
-- The loops over a reader, as operations on ascending lists.
use codesearch.Common.{ℕ, zero, suc, ◌<◌, ◌≡◌, refl, arith, ◌∙◌}
use codesearch.Common.{some, List, [], ◌∷◌, ◌++◌}
use codesearch.Common.{length, All, member, IsAscending}
use codesearch.Index.Posting.{
  PostReader, skip_below, copy_below, drop_equal, list_loop, and_loop, or_loop,
}
use codesearch.Index.Posting.Reads.{
  Yields, keep, starts_with-skip_below, member-skip_below, skip_below-IsAscending,
}

pub list_loop_lem :
    (xs : List ℕ) (fuel : ℕ) (r : PostReader)
    → Yields r xs
    → length xs < fuel
    → list_loop fuel r ≡ some xs
unfolding list_loop
list_loop_lem xs zero r y h = absurd (omega arith)
list_loop_lem [] (suc fuel) r y h = rw (y.1, list_loop)
list_loop_lem (x ∷ xs) (suc fuel) r y h =
    rw (y.1, list_loop) (rw (list_loop_lem xs fuel y.0 y.3 (omega arith), y.2))

-- What is left of the other list after its values up to `x`.
abbrev pub past : ℕ → List ℕ → List ℕ
past x list = drop_equal x (skip_below x list)

member-past :
    (x later : ℕ) (list : List ℕ) → x < later → member later (past x list) ≡ member later list
member-past x later list h = drop (skip_below x list) ∙ member-skip_below x later list h
  where
    drop : (l : List ℕ) → member later (drop_equal x l) ≡ member later l
    drop [] = refl
    drop (y ∷ l) = unfold member in ground arith

pub past-IsAscending : (x : ℕ) (list : List ℕ) → IsAscending list → IsAscending (past x list)
past-IsAscending x list s = drop (skip_below x list) (skip_below-IsAscending x list s)
  where
    drop : (l : List ℕ) → IsAscending l → IsAscending (drop_equal x l)
    drop [] t = tt
    drop (y ∷ l) t = ground arith

keep-past : (x : ℕ) (xs list : List ℕ) → All (λ y. x < y) xs → keep xs (past x list) ≡ keep xs list
unfolding keep
keep-past x [] list h = refl
keep-past x (y ∷ xs) list h = rw (member-past x y list h.0, keep-past x xs list h.1)

-- `postingAnd` returns the ids that the reader yields and the list holds.
pub and_loop_lem :
    (xs : List ℕ) (fuel : ℕ) (r : PostReader) (list : List ℕ)
    → Yields r xs
    → length xs < fuel
    → IsAscending xs
    → IsAscending list
    → and_loop fuel r list ≡ some (keep xs list)
unfolding and_loop
and_loop_lem xs zero r list y h s t = absurd (omega arith)
and_loop_lem [] (suc fuel) r list y h s t = unfold keep in rw (y.1, and_loop)
and_loop_lem (x ∷ xs) (suc fuel) r list y h s t =
    let id = y.0.fileid in
    let above : All (λ z. id < z) xs = rw y.2 (s.0) in
    rw (← y.2) (
      rw (y.1, and_loop)
        (rw
          (
            and_loop_lem xs fuel y.0 (past id list) y.3 (omega arith) s.1
                (past-IsAscending id list t),
            starts_with-skip_below id list t,
            keep-past id xs list above,
          )
          (unfold keep in refl)))

-- The reference for `postingOr`.
unfoldable pub join : List ℕ → List ℕ → List ℕ
join [] list = list
join (x ∷ xs) list = copy_below x list ++ (x ∷ join xs (past x list))

pub or_loop_lem :
    (xs : List ℕ) (fuel : ℕ) (r : PostReader) (list : List ℕ)
    → Yields r xs
    → length xs < fuel
    → or_loop fuel r list ≡ some (join xs list)
unfolding or_loop join
or_loop_lem xs zero r list y h = absurd (omega arith)
or_loop_lem [] (suc fuel) r list y h = rw (y.1, or_loop)
or_loop_lem (x ∷ xs) (suc fuel) r list y h =
    rw (← y.2)
      (rw (y.1, or_loop) (rw (or_loop_lem xs fuel y.0 (past y.0.fileid list) y.3 (omega arith))))
