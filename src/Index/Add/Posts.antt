-- ===== src/Index/Add/Posts.antt =====
-- The loop of `Add` that keeps an entry for each trigram of a file.
use codesearch.Common.{ℕ, ◌^◌, ◌<◌, ◌≡◌, ◌≢◌, ◌⊎◌, ◌↔◌, refl, arith, ◌∙◌, sym, subst}
use codesearch.Common.{Bool-cases, inl, inr, Option, some, List, [], ◌∷◌, ◌++◌}
use codesearch.Common.{
  leb, length, All, In, All-append, In-append_left, In-append_right, In-append_cases, length-append,
}
use codesearch.Index.Sort.Order.{append-Pairwise}
use codesearch.Index.Add.{Writer, npost, make_post_entry, make_room, add_posts}
use codesearch.Index.Add.Keep.{IsOrdered, ByTurn, entries, flat, flush_post-Flushed}

abbrev pub IsDistinct : List ℕ → Type 0
IsDistinct [] = Unit
IsDistinct (t ∷ ts) = ¬ In t ts × IsDistinct ts

-- What making room comes to.
abbrev Roomy : Writer → Option Writer → Type 0
Roomy w o =
    (w' : Writer) × (o ≡ some w')
    × IsOrdered w'
    × (length w'.post < npost)
    × (w'.num_name ≡ w.num_name)
    × ((p : ℕ) → In p w'.post → In p w.post)
    × ((p : ℕ) → In p (entries w') ↔ In p (entries w))

make_room-Roomy : (w : Writer) → IsOrdered w → Roomy w (make_room w)
unfolding make_room
make_room-Roomy w ordered = elim (Bool-cases (leb npost (length w.post))) [
  | inr e ↦
      (w, rw (e, make_room) refl, ordered, ground arith, refl, λ p h. h, λ p. (λ h. h, λ h. h))
  | inl e ↦
      let (w', run, kept, empty, num, same) = flush_post-Flushed w ordered (ground arith) in
      (
        w',
        rw (e, make_room) run,
        kept,
        rw empty (omega arith),
        num,
        λ p h. absurd (subst (λ l. In p l) empty h),
        same,
      )
]

-- What holds before the loop adds `ts` for the file `fid`.
pub record IsPosting (fid : ℕ) (ts : List ℕ) (w : Writer) : Type 0 where
  pub ordered : IsOrdered w
  pub fresh : (p t : ℕ) → In p w.post → In t ts → ByTurn p (make_post_entry t fid)
  pub small : All (λ t. t < 2 ^ 24) ts
  pub distinct : IsDistinct ts

abbrev pub posted : ℕ → List ℕ → List ℕ
posted fid [] = []
posted fid (t ∷ ts) = make_post_entry t fid ∷ posted fid ts

same_file :
    (t t' fid : ℕ) → fid < 2 ^ 32 → t ≢ t' → ByTurn (make_post_entry t fid) (make_post_entry t' fid)
same_file t t' fid h ne = inr (omega arith, λ e. ne (omega arith))

next-IsPosting :
    (fid t : ℕ) (ts : List ℕ) (w w₁ : Writer)
    → fid < 2 ^ 32
    → IsPosting fid (t ∷ ts) w
    → IsOrdered w₁
    → length w₁.post < npost
    → ((p : ℕ) → In p w₁.post → In p w.post)
    → IsPosting fid ts (record w₁ { post = w₁.post ++ (make_post_entry t fid ∷ []) })
next-IsPosting fid t ts w w₁ h posting ordered room older =
    let e : ℕ = make_post_entry t fid in
    record {
      ordered = record {
        room = omega (arith, room, length-append w₁.post (e ∷ []));
        small =
            All-append (λ p. p < 2 ^ 56) w₁.post (e ∷ []) ordered.small
              (omega (arith, h, posting.small.0), tt);
        turns =
            append-Pairwise ByTurn w₁.post e ordered.turns
              (λ a k. posting.fresh a t (older a k) (inl refl));
        chunks = ordered.chunks;
      };
      fresh = λ p t' k m. elim (In-append_cases p w₁.post (e ∷ []) k) [
        | inl a ↦ posting.fresh p t' (older p a) (inr m)
        | inr (inl q) ↦
            rw q (same_file t t' fid h (λ r. posting.distinct.0 (subst (λ x. In x ts) (sym r) m)))
        | inr (inr n) ↦ absurd n
      ];
      small = posting.small.1;
      distinct = posting.distinct.1;
    }

entry_added :
    (p e : ℕ) (old post : List ℕ)
    → In p (old ++ (post ++ (e ∷ []))) ↔ (In p (old ++ post) ⊎ (p ≡ e))
entry_added p e old post = (
  λ h. elim (In-append_cases p old (post ++ (e ∷ [])) h) [
    | inl a ↦ inl (In-append_left p old post a)
    | inr b ↦ elim (In-append_cases p post (e ∷ []) b) [
      | inl c ↦ inl (In-append_right p old post c)
      | inr (inl q) ↦ inr q
      | inr (inr n) ↦ absurd n
    ]
  ],
  λ h. elim h [
    | inr q ↦ In-append_right p old (post ++ (e ∷ [])) (In-append_right p post (e ∷ []) (inl q))
    | inl a ↦ elim (In-append_cases p old post a) [
      | inl b ↦ In-append_left p old (post ++ (e ∷ [])) b
      | inr c ↦ In-append_right p old (post ++ (e ∷ [])) (In-append_left p post (e ∷ []) c)
    ]
  ],
)

chain : {A B C D E F : Type 0} → A ↔ (B ⊎ C) → B ↔ (D ⊎ E) → D ↔ F → A ↔ (F ⊎ (E ⊎ C))
chain f g k = (
  λ a. elim (f.0 a) [
    | inr c ↦ inr (inr c)
    | inl b ↦ elim (g.0 b) [ inl d ↦ inl (k.0 d) | inr e ↦ inr (inl e) ]
  ],
  λ a. elim a [
    | inl x ↦ f.1 (inl (g.1 (inl (k.1 x))))
    | inr (inl e) ↦ f.1 (inl (g.1 (inr e)))
    | inr (inr c) ↦ f.1 (inr c)
  ],
)

-- From entries in memory that are in turn, with a file id of 32 bits and distinct trigrams of 24 bits
-- for which the file has no entry in memory, the loop does not panic. What is in memory is in turn
-- and fits behind it, every file it flushed ascends strictly, and the entries are those from before
-- with one for each trigram.
pub add_posts-IsOrdered :
    (fid : ℕ) (ts : List ℕ) (w : Writer)
    → fid < 2 ^ 32
    → IsPosting fid ts w
    → (w' : Writer) × (add_posts fid ts w ≡ some w')
      × IsOrdered w'
      × (w'.num_name ≡ w.num_name)
      × ((p : ℕ) → In p (entries w') ↔ (In p (entries w) ⊎ In p (posted fid ts)))
unfolding add_posts
add_posts-IsOrdered fid [] w h p =
    (w, refl, p.ordered, refl, λ x. (λ k. inl k, λ k. elim k [ inl a ↦ a | inr n ↦ absurd n ]))
add_posts-IsOrdered fid (t ∷ ts) w h posting =
    let (w₁, run, ordered, room, num, older, same) = make_room-Roomy w posting.ordered in
    let e : ℕ = make_post_entry t fid in
    let w₂ : Writer = record w₁ { post = w₁.post ++ (e ∷ []) } in
    let (w', rest, kept, num', all) =
      add_posts-IsOrdered fid ts w₂ h (next-IsPosting fid t ts w w₁ h posting ordered room older) in
    (
      w',
      rw (run, add_posts) rest,
      kept,
      num' ∙ num,
      λ p. chain (all p) (entry_added p e (flat w₁.post_files) w₁.post) (same p),
    )
