-- ===== src/Index/Analyze/Folding.antt =====
-- Literals whose case is folded: the class of a letter has the whole orbit of `SimpleFold`.
use mathlib.Core.List.{append_assoc}
use codesearch.Common.{ℕ, zero, suc, ◌≡◌, ◌⊎◌, refl, arith, ◌∙◌, ap, sym, subst}
use codesearch.Common.{true, Bool-cases, inl, inr, Option, some}
use codesearch.Common.{List, [], ◌∷◌, ◌++◌, map, In, ◌==◌}
use codesearch.Common.Strings.{Str}
use codesearch.Index.Analyze.{
  RegexpInfo, RuneClass, rune_pairs, Platform, rune_bytes, empty_string_info,
}
use codesearch.Index.Analyze.Combine.{concat}
use codesearch.Index.Analyze.Walk.{
  orbit, one_range, folded_class, analyze_class, folded_letters, analyze_literal,
}
use codesearch.Index.Analyze.Cover.{append_end}
use codesearch.Index.Analyze.Keep.{Tells}
use codesearch.Index.Analyze.Concat.{concat-Tells, concat-IsFormed}
use codesearch.Index.Analyze.Texts.{
  iterate, FoldsTo, IsCyclic, Folded, InRanges, InClass, ClassText,
}
use codesearch.Index.Analyze.Cases.{TellsAll, analyze_class-TellsAll, empty_string-TellsAll, weaken}

-- The runes of an orbit from `x` on are closed under `SimpleFold`, but for the step back to `r`.
record IsOrbit (f : ℕ → ℕ) (r x : ℕ) (l : List ℕ) : Type 0 where
  first : (x ≡ r) ⊎ In x l
  closed : (y : ℕ) → In y l → (f y ≡ r) ⊎ In (f y) l

orbit-IsOrbit :
    (f : ℕ → ℕ) (n r x : ℕ)
    → iterate f n x ≡ r
    → (l : List ℕ) × (orbit f n r x ≡ some l) × IsOrbit f r x l
unfolding orbit
orbit-IsOrbit f zero r x h =
    let e : (x == r) ≡ true = ground (arith, h) in
    ([], rw e refl, record { first = inl h; closed = λ y i. absurd i })
orbit-IsOrbit f (suc n) r x h = elim (Bool-cases (x == r)) [
  | inl e ↦
      ([], rw (e, orbit) refl, record { first = inl (ground (arith, e)); closed = λ y i. absurd i })
  | inr e ↦
      let (l, run, k) = orbit-IsOrbit f n r (f x) h in
      (
        x ∷ l,
        rw (e, run, orbit) refl,
        record {
          first = inr (inl refl);
          closed = λ y i. elim i [
            | inl same ↦
                subst (λ z. (f z ≡ r) ⊎ In (f z) (x ∷ l)) (sym same)
                  (elim k.first [ inl b ↦ inl b | inr j ↦ inr (inr j) ])
            | inr j ↦ elim (k.closed y j) [ inl b ↦ inl b | inr m ↦ inr (inr m) ]
          ];
        },
      )
]

orbit_all :
    (f : ℕ → ℕ) (r : ℕ) (l : List ℕ)
    → IsOrbit f r (f r) l
    → (k y : ℕ) → In y (r ∷ l)
    → In (iterate f k y) (r ∷ l)
orbit_all f r l o zero y i = i
orbit_all f r l o (suc k) y i = orbit_all f r l o k (f y) (elim i [
  | inl e ↦ elim o.first [
    | inl g ↦ inl (ap f e ∙ g)
    | inr g ↦ inr (subst (λ z. In (f z) l) (sym e) g)
  ]
  | inr j ↦ o.closed y j
])

InRanges-map : (l : List ℕ) (r : ℕ) → In r l → InRanges (map one_range l) r
InRanges-map [] r i = elim i [ ]
InRanges-map (x ∷ l) r (inl e) = inl (omega (arith, e), omega (arith, e))
InRanges-map (x ∷ l) r (inr i) = inr (InRanges-map l r i)

-- The loop over `SimpleFold` ends, with a class that has all runes that it reaches.
folded_class_lem :
    (p : Platform) (r : ℕ)
    → IsCyclic p
    → (c : RuneClass) × (folded_class p r ≡ some c) × ((r' : ℕ) → FoldsTo p r r' → InClass c r')
unfolding folded_class
folded_class_lem p r cyclic =
    let (l, run, o) =
      orbit-IsOrbit p.simple_fold (p.fold_steps r) r (p.simple_fold r) (cyclic.returns r) in
    (
      rune_pairs (map one_range (r ∷ l)),
      rw (run, folded_class) refl,
      λ r' (k, e).
          subst (λ x. InRanges (map one_range (r ∷ l)) x) e
            (InRanges-map (r ∷ l) (iterate p.simple_fold k r)
              (orbit_all p.simple_fold r l o k r (inl refl))),
    )

-- The letters that are read are followed by those of the rest.
abbrev Extended : Platform → (Str → Type 0) → List ℕ → Str → Type 0
Extended p P rs s = (u v : Str) × (s ≡ u ++ v) × P u × Folded p rs v

-- An outcome that is there, with what it tells.
abbrev pub TellsThere : (Str → Type 0) → Option RegexpInfo → Type 0
TellsThere P o = (info : RegexpInfo) × (o ≡ some info) × TellsAll P info

folded_letters-TellsThere :
    (p : Platform) (P : Str → Type 0) (info : RegexpInfo) (rs : List ℕ)
    → IsCyclic p
    → TellsAll P info
    → TellsThere (Extended p P rs) (folded_letters p info rs)
unfolding folded_letters
folded_letters-TellsThere p P info [] cyclic (w, h) = (
  info,
  refl,
  (
    w,
    λ s (u, v, e, k, m).
        subst (λ x. Tells info x) (sym (e ∙ ap (λ x. u ++ x) m ∙ sym (append_end u))) (h u k),
  ),
)
folded_letters-TellsThere p P info (r ∷ rs) cyclic (w, h) =
    let (c, there, within) = folded_class_lem p r cyclic in
    let letter = analyze_class-TellsAll p c in
    let Q = λ (s : Str). (u v : Str) × (s ≡ u ++ v) × P u × ClassText c v in
    let (i, run, (wf, all)) =
      folded_letters-TellsThere p Q (concat p info (analyze_class p c)) rs cyclic (
        concat-IsFormed p info (analyze_class p c) w letter.0,
        λ s (u, v, e, k, m).
            subst (λ x. Tells (concat p info (analyze_class p c)) x) (sym e)
              (concat-Tells p info (analyze_class p c) u v w letter.0 (h u k) (letter.1 v m)),
      ) in
    (
      i,
      rw (there, folded_letters) run,
      (
        wf,
        λ s (u, v, e, k, (r', t, g, folds, more)). all s (
          u ++ rune_bytes r',
          t,
          e ∙ ap (λ x. u ++ x) g ∙ sym (append_assoc u (rune_bytes r') t),
          (u, rune_bytes r', refl, k, (r', within r' folds, refl)),
          more,
        ),
      ),
    )

pub Folded-TellsThere :
    (p : Platform) (rs : List ℕ) → IsCyclic p → TellsThere (Folded p rs) (analyze_literal p true rs)
unfolding analyze_literal
Folded-TellsThere p [] cyclic = (empty_string_info, refl, empty_string-TellsAll)
Folded-TellsThere p (r ∷ []) cyclic =
    let (c, there, within) = folded_class_lem p r cyclic in
    (
      analyze_class p c,
      rw (there, analyze_literal) refl,
      weaken (Folded p (r ∷ [])) (ClassText c) _
          (λ s (r', v, e, folds, last). (
            r',
            within r' folds,
            e ∙ ap (λ x. rune_bytes r' ++ x) last ∙ sym (append_end (rune_bytes r')),
          ))
          (analyze_class-TellsAll p c),
    )
Folded-TellsThere p (r ∷ t ∷ rs) cyclic =
    let (i, run, all) =
      folded_letters-TellsThere p (λ s. s ≡ []) empty_string_info (r ∷ t ∷ rs) cyclic
        empty_string-TellsAll in
    (
      i,
      run,
      weaken (Folded p (r ∷ t ∷ rs)) (Extended p (λ s. s ≡ []) (r ∷ t ∷ rs)) _
          (λ s k. ([], s, refl, refl, k)) all,
    )
