-- ===== src/Index/Add/Keep.antt =====
-- The entries that `Add` keeps: those in memory wait in the order of their files, and each file of
-- flushed entries ascends, as the merge demands.
use codesearch.Common.{ℕ, ◌/◌, ◌^◌, ◌≤◌, ◌<◌, ◌≡◌, ◌≢◌, ◌⊎◌, ◌↔◌, refl, arith}
use codesearch.Common.{inl, inr, Option, some, List, [], ◌∷◌, ◌++◌}
use codesearch.Common.{
  length, All, In, All-append, In-append_left, In-append_right, In-append_cases,
}
use codesearch.Index.Sort.{sort_post}
use codesearch.Index.Sort.Order.{Pairwise, IsSorting, sort_post-IsSorting, nil-Pairwise}
use codesearch.Index.Add.{Writer, npost, entry_fileid, flush_post}

-- An entry of an earlier file, or another one of the same.
abbrev pub ByTurn : ℕ → ℕ → Type 0
ByTurn a b = (entry_fileid a < entry_fileid b) ⊎ ((entry_fileid a ≡ entry_fileid b) × (a ≢ b))

-- What holds between two calls: the entries in memory fit, they are in turn, and what is flushed
-- ascends.
pub record IsOrdered (w : Writer) : Type 0 where
  pub room : length w.post ≤ npost
  pub small : All (λ p. p < 2 ^ 56) w.post
  pub turns : Pairwise ByTurn w.post
  pub chunks : All (Pairwise (λ a b. a < b)) w.post_files

abbrev pub flat : List (List ℕ) → List ℕ
flat [] = []
flat (l ∷ ls) = l ++ flat ls

-- All the entries of a writer.
abbrev pub entries : Writer → List ℕ
entries w = flat w.post_files ++ w.post

In-flat_append :
    (p : ℕ) (ls : List (List ℕ)) (l : List ℕ)
    → In p (flat (ls ++ (l ∷ []))) ↔ (In p (flat ls) ⊎ In p l)
In-flat_append p [] l = (
  λ h. elim (In-append_cases p l [] h) [ inl a ↦ inr a | inr n ↦ absurd n ],
  λ h. elim h [ inl n ↦ absurd n | inr a ↦ In-append_left p l [] a ],
)
In-flat_append p (x ∷ ls) l = (
  λ h. elim (In-append_cases p x (flat (ls ++ (l ∷ []))) h) [
    | inl a ↦ inl (In-append_left p x (flat ls) a)
    | inr b ↦ elim ((In-flat_append p ls l).0 b) [
      | inl c ↦ inl (In-append_right p x (flat ls) c)
      | inr d ↦ inr d
    ]
  ],
  λ h. elim h [
    | inl a ↦ elim (In-append_cases p x (flat ls) a) [
      | inl b ↦ In-append_left p x (flat (ls ++ (l ∷ []))) b
      | inr c ↦ In-append_right p x (flat (ls ++ (l ∷ []))) ((In-flat_append p ls l).1 (inl c))
    ]
    | inr b ↦ In-append_right p x (flat (ls ++ (l ∷ []))) ((In-flat_append p ls l).1 (inr b))
  ],
)

ascend : (a b : ℕ) → (a / 2 ^ 32 < b / 2 ^ 32) ⊎ ((a / 2 ^ 32 ≡ b / 2 ^ 32) × ByTurn a b) → a < b
ascend a b (inl l) = omega arith
ascend a b (inr (e, inl l)) = omega arith
ascend a b (inr (e, inr (k, ne))) = absurd (ne (omega arith))

-- What a flush comes to.
abbrev pub Flushed : Writer → Option Writer → Type 0
Flushed w o =
    (w' : Writer) × (o ≡ some w')
    × IsOrdered w'
    × (w'.post ≡ [])
    × (w'.num_name ≡ w.num_name)
    × ((p : ℕ) → In p (entries w') ↔ In p (entries w))

moved :
    (p : ℕ) (files : List (List ℕ)) (post out : List ℕ)
    → In p out ↔ In p post
    → In p (flat (files ++ (out ∷ [])) ++ []) ↔ In p (flat files ++ post)
moved p files post out same = (
  λ h. elim (In-append_cases p (flat (files ++ (out ∷ []))) [] h) [
    | inr n ↦ absurd n
    | inl a ↦ elim ((In-flat_append p files out).0 a) [
      | inl b ↦ In-append_left p (flat files) post b
      | inr c ↦ In-append_right p (flat files) post (same.0 c)
    ]
  ],
  λ h. In-append_left p (flat (files ++ (out ∷ []))) [] (
      (In-flat_append p files out).1
        (elim (In-append_cases p (flat files) post h) [ inl a ↦ inl a | inr b ↦ inr (same.1 b) ])),
)

sorted-Flushed :
    (w : Writer) (out : List ℕ)
    → IsOrdered w
    → 0 < length w.post
    → sort_post w.post ≡ some out
    → IsSorting ByTurn w.post out
    → Flushed w (flush_post w)
unfolding flush_post
sorted-Flushed w [] ordered some_posts run sorted = absurd (omega (arith, sorted.size, some_posts))
sorted-Flushed w (q ∷ qs) ordered some_posts run sorted =
    let done : Writer = record w { post = []; post_files = w.post_files ++ ((q ∷ qs) ∷ []) } in
    (
      done,
      rw (run, flush_post) refl,
      record {
        room = omega arith;
        small = tt;
        turns = nil-Pairwise ByTurn;
        chunks =
            All-append (Pairwise (λ a b. a < b)) w.post_files ((q ∷ qs) ∷ []) ordered.chunks
              (λ i j a b h at_i at_j. ascend a b (sorted.ordered i j a b h at_i at_j), tt);
      },
      refl,
      refl,
      λ p. moved p w.post_files w.post (q ∷ qs) (sorted.same_members p),
    )

-- A flush of entries in turn writes a file that ascends strictly, and keeps the entries.
pub flush_post-Flushed : (w : Writer) → IsOrdered w → 0 < length w.post → Flushed w (flush_post w)
flush_post-Flushed w ordered some_posts =
    let (out, run, sorted) = sort_post-IsSorting ByTurn w.post ordered.small ordered.turns in
    sorted-Flushed w out ordered some_posts run sorted
