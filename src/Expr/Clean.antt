-- ===== src/Expr/Clean.antt =====
-- What `cleanRegexp` leaves.
use codesearch.Common.{ℕ, ◌≡◌, refl, false, Bool-cases, inl, inr}
use codesearch.Expr.Parse.{
  empty_match, no_match, capture, concat, other, Regexp, regexp, Regexps, nil, cons, is_empty_match,
  drop_empty, kept_concat, captured, clean_regexp, clean_subs,
}

abbrev NoEmpty : Regexps → Type 0
NoEmpty nil = Unit {0}
NoEmpty (cons re res) = (is_empty_match re ≡ false) × NoEmpty res

-- No capture of an expression and no concatenation of an empty match, at any depth.
abbrev mutual
  pub IsClean : Regexp → Type 0
  IsClean (regexp capture info subs) = subs ≡ nil
  IsClean (regexp concat info subs) = NoEmpty subs × AreClean subs
  IsClean (regexp empty_match info subs) = AreClean subs
  IsClean (regexp no_match info subs) = AreClean subs
  IsClean (regexp (other n) info subs) = AreClean subs

  pub AreClean : Regexps → Type 0
  AreClean nil = Unit {0}
  AreClean (cons re res) = IsClean re × AreClean res

drop_empty-NoEmpty : (res : Regexps) → NoEmpty (drop_empty res)
unfolding drop_empty
drop_empty-NoEmpty nil = tt
drop_empty-NoEmpty (cons re res) = elim (Bool-cases (is_empty_match re)) [
  | inl e ↦ rw e (drop_empty-NoEmpty res)
  | inr e ↦ rw e (e, drop_empty-NoEmpty res)
]

drop_empty-AreClean : (res : Regexps) → AreClean res → AreClean (drop_empty res)
unfolding drop_empty
drop_empty-AreClean nil c = tt
drop_empty-AreClean (cons re res) c = elim (Bool-cases (is_empty_match re)) [
  | inl e ↦ rw e (drop_empty-AreClean res c.1)
  | inr e ↦ rw e (c.0, drop_empty-AreClean res c.1)
]

kept_concat-IsClean :
    (info : ℕ) (subs res : Regexps)
    → AreClean subs
    → NoEmpty res
    → AreClean res
    → IsClean (kept_concat info subs res)
kept_concat-IsClean info subs nil a n c = a
kept_concat-IsClean info subs (cons re res) a n c = (n, c)

captured-IsClean : (info : ℕ) (res : Regexps) → AreClean res → IsClean (captured info res)
captured-IsClean info nil c = refl
captured-IsClean info (cons re res) c = c.0

mutual
  unfolding clean_regexp

  one-IsClean : (re : Regexp) → IsClean (clean_regexp re)
  one-IsClean (regexp capture info subs) =
      captured-IsClean info (clean_subs subs) (all-AreClean subs)
  one-IsClean (regexp concat info subs) =
      kept_concat-IsClean info (clean_subs subs) (drop_empty (clean_subs subs)) (all-AreClean subs)
        (drop_empty-NoEmpty (clean_subs subs))
        (drop_empty-AreClean (clean_subs subs) (all-AreClean subs))
  one-IsClean (regexp empty_match info subs) = all-AreClean subs
  one-IsClean (regexp no_match info subs) = all-AreClean subs
  one-IsClean (regexp (other n) info subs) = all-AreClean subs

  all-AreClean : (res : Regexps) → AreClean (clean_subs res)
  all-AreClean nil = tt
  all-AreClean (cons re res) = (one-IsClean re, all-AreClean res)

-- `cleanRegexp` leaves no capture of an expression and no empty match in a concatenation, at any
-- depth.
pub clean_regexp-IsClean : (re : Regexp) → IsClean (clean_regexp re)
clean_regexp-IsClean = one-IsClean
