-- ===== src/Shard/Loops.antt =====
-- The loops of `PostingQuery` over the trigrams of a node.
use codesearch.Common.{ℕ, ◌≡◌, refl, arith, ◌∙◌, Bool, true, false, not, ◌&&◌, ◌||◌}
use codesearch.Common.{Option, none, some, List, [], ◌∷◌, inl, inr, Bool-cases}
use codesearch.Common.{Option-cases}
use codesearch.Common.Strings.{Str}
use codesearch.Index.Query.{q_and, q_or}
use codesearch.Index.Query.Logic.{holds_trigrams}
use codesearch.Index.Answer.{trigram_code}
use codesearch.Index.Answer.Spec.{is_trigram, all_trigrams}
use codesearch.Index.Answer.Trigrams.{code_of_trigram, and_assoc, or_assoc}
use codesearch.Shard.{
  Bitmaps, PostingLists, Flow, returns, continues, load, find, restrict_to, and_trigram_loop,
  or_into, or_trigram_loop, not_found_trigrams,
}
use codesearch.Shard.Find.{IsSorted, index_of, find_trigram-index_of}

abbrev pub is_cons : List Str → Bool
is_cons [] = false
is_cons (t ∷ ts) = true

abbrev pub has_filter : {B : Type 0} → Option B → Bool
has_filter none = false
has_filter (some f) = true

-- What the roaring library documents of the methods, `holds` being `Contains`.
pub record BitmapLaws {B : Type 0} (rb : Bitmaps B) (holds : B → ℕ → Bool) : Type 0 where
  pub new_law : (i : ℕ) → holds (rb.new_bitmap) i ≡ false
  pub and_law : (a b : B) (i : ℕ) → holds (rb.bit_and a b) i ≡ (holds a i && holds b i)
  pub or_law : (a b : B) (i : ℕ) → holds (rb.bit_or a b) i ≡ (holds a i || holds b i)
  pub and_not_law : (a b : B) (i : ℕ) → holds (rb.and_not a b) i ≡ (holds a i && not (holds b i))
  pub xor_law :
      (a b : B) (i : ℕ)
      → holds (rb.xor a b) i ≡ ((holds a i && not (holds b i)) || (holds b i && not (holds a i)))
  pub empty_law : (a : B) (i : ℕ) → rb.is_empty a ≡ true → holds a i ≡ false

-- The posting lists of documents, of which document `i` has the trigrams that `docs i` says.
pub record Serves {B : Type 0} (rb : Bitmaps B) (holds : B → ℕ → Bool) (p : PostingLists)
    (docs : ℕ → Str → Bool) : Type 0 where
  pub codes : List ℕ
  pub sorted : IsSorted p codes
  pub stored :
      (t : Str) (c j : ℕ)
      → is_trigram t ≡ true
      → trigram_code t ≡ some c
      → index_of c codes ≡ some j
      → (b : B) × (load rb p j (rb.new_bitmap) ≡ some b) × ((i : ℕ) → holds b i ≡ docs i t)
  pub absent :
      (t : Str) (c i : ℕ)
      → is_trigram t ≡ true
      → trigram_code t ≡ some c
      → index_of c codes ≡ none
      → docs i t ≡ false

module _ {B : Type 0} (rb : Bitmaps B) (holds : B → ℕ → Bool) (laws : BitmapLaws rb holds)
    (p : PostingLists) (docs : ℕ → Str → Bool) (serves : Serves rb holds p docs) where
  -- What a filter lets through; `none` is nil, no filter.
  abbrev pub passes : Option B → ℕ → Bool
  passes none i = true
  passes (some f) i = holds f i

  -- The members of a bitmap that is joined to; `none` is nil, nothing yet.
  abbrev pub listed : Option B → ℕ → Bool
  listed none i = false
  listed (some l) i = holds l i

  pub find_lem :
      (t : Str)
      → is_trigram t ≡ true
      → (b : B) × (find rb p t ≡ some b) × ((i : ℕ) → holds b i ≡ docs i t)
  unfolding find
  find_lem t h =
      let (c, code) = code_of_trigram t h in
      let search = find_trigram-index_of rb p (serves.codes) (serves.sorted) c (rb.new_bitmap) in
      elim (Option-cases (index_of c (serves.codes))) [
        | inl e ↦ (
          rb.new_bitmap,
          rw code (rw search (rw e refl)),
          λ i. laws.new_law i ∙ (let d = serves.absent t c i h code e in rw d refl),
        )
        | inr (j, e) ↦
            let (b, read, members) = serves.stored t c j h code e in
            (b, rw code (rw search (rw e read)), members)
      ]

  passes-restrict_to :
      (filter : Option B) (l : B) (i : ℕ)
      → holds (restrict_to rb p filter l) i ≡ (passes filter i && holds l i)
  passes-restrict_to none l i = refl
  passes-restrict_to (some f) l i = ground (arith, laws.and_law l f i)

  abbrev pub FlowOk : (ℕ → Bool) → Flow B → Type 0
  FlowOk q (returns l) = (i : ℕ) → (holds l i ≡ false) × (q i ≡ false)
  FlowOk q (continues f) = (i : ℕ) → passes f i ≡ q i

  pub FlowOk-ext :
      (q r : ℕ → Bool) (flow : Flow B) → ((i : ℕ) → q i ≡ r i) → FlowOk q flow → FlowOk r flow
  FlowOk-ext q r (returns l) h ok = λ i. ((ok i).0, rw (← h i) (ok i).1)
  FlowOk-ext q r (continues f) h ok = λ i. ok i ∙ h i

  pub and_trigram_loop_lem :
      (filter : Option B) (ts : List Str)
      → all_trigrams ts ≡ true
      → (flow : Flow B) × (and_trigram_loop rb p filter ts ≡ some flow)
        × FlowOk (λ i. passes filter i && holds_trigrams q_and (docs i) ts) flow
        × ((f : Option B) → flow ≡ continues f → has_filter f ≡ (has_filter filter || is_cons ts))
  unfolding and_trigram_loop holds_trigrams all_trigrams
  and_trigram_loop_lem filter [] h =
      (continues filter, refl, (λ i. ground arith), λ f e. ground arith)
  and_trigram_loop_lem filter (t ∷ ts) h =
      let (l, read, members) = find_lem t (ground arith) in
      let l' : B = restrict_to rb p filter l in
      let (flow, loop, ok, nil_filter) = and_trigram_loop_lem (some l') ts (ground arith) in
      let here : (i : ℕ) → holds l' i ≡ (passes filter i && docs i t) =
        λ i. passes-restrict_to filter l i ∙ rw (members i) refl in
      elim (Bool-cases (rb.is_empty l')) [
        | inl z ↦ (
          returns l',
          rw (read, and_trigram_loop) (rw z refl),
          (λ i. (laws.empty_law l' i z, ground (arith, here i, laws.empty_law l' i z))),
          λ f e. ground arith,
        )
        | inr z ↦ (
          flow,
          rw (read, and_trigram_loop) (rw z loop),
          FlowOk-ext _ _ flow
              (λ i.
                rw (here i)
                  (and_assoc (passes filter i) (docs i t) (holds_trigrams q_and (docs i) ts)))
              ok,
          λ f e. ground (arith, nil_filter f e),
        )
      ]

  pub or_into_lem :
      (list : Option B) (l : B)
      → (r : B) × (or_into rb p list (some l) ≡ some (some r))
        × ((i : ℕ) → holds r i ≡ (listed list i || holds l i))
  unfolding or_into
  or_into_lem none l = (l, refl, λ i. refl)
  or_into_lem (some k) l = (rb.bit_or k l, refl, λ i. laws.or_law k l i)

  pub or_trigram_loop_lem :
      (list : Option B) (ts : List Str)
      → all_trigrams ts ≡ true
      → (r : Option B) × (or_trigram_loop rb p list ts ≡ some r)
        × ((i : ℕ) → listed r i ≡ (listed list i || holds_trigrams q_or (docs i) ts))
        × (has_filter r ≡ (has_filter list || is_cons ts))
  unfolding or_trigram_loop holds_trigrams all_trigrams
  or_trigram_loop_lem list [] h = (list, refl, (λ i. ground arith), ground arith)
  or_trigram_loop_lem list (t ∷ ts) h =
      let (l, read, members) = find_lem t (ground arith) in
      let (k, join, joined) = or_into_lem list l in
      let (r, loop, ok, nil_list) = or_trigram_loop_lem (some k) ts (ground arith) in
      (
        r,
        rw (read, or_trigram_loop) (rw join loop),
        (λ i.
            ok i
            ∙ rw (joined i, members i)
                (or_assoc (listed list i) (docs i t) (holds_trigrams q_or (docs i) ts))),
        ground (arith, nil_list),
      )

  -- What the loops over an OR behind the filter `f` keep: what is left of `notFound`, or that
  -- nothing is.
  abbrev pub NotFound : B → (ℕ → Bool) → Option B → Type 0
  NotFound f q none = (i : ℕ) → holds f i ≡ true → q i ≡ true
  NotFound f q (some nf) = (i : ℕ) → holds nf i ≡ (holds f i && not (q i))

  pub NotFound-ext :
      (f : B) (q r : ℕ → Bool) (left : Option B)
      → ((i : ℕ) → q i ≡ r i)
      → NotFound f q left
      → NotFound f r left
  NotFound-ext f q r none h ok = λ i k. rw (← h i) (ok i k)
  NotFound-ext f q r (some nf) h ok = λ i. rw (← h i) (ok i)

  pub NotFound-step :
      (f nf l : B) (q r : ℕ → Bool)
      → NotFound f q (some nf)
      → ((i : ℕ) → holds f i ≡ true → holds l i ≡ r i)
      → NotFound f (λ i. q i || r i) (some (rb.and_not nf l))
  NotFound-step f nf l q r ok members i = ground (arith, laws.and_not_law nf l i, ok i, members i)

  pub NotFound-empty :
      (f nf : B) (q r : ℕ → Bool)
      → NotFound f q (some nf)
      → rb.is_empty nf ≡ true
      → NotFound f (λ i. q i || r i) none
  NotFound-empty f nf q r ok z i h = ground (arith, ok i, laws.empty_law nf i z)

  pub not_found_trigrams_lem :
      (f nf : B) (q : ℕ → Bool) (ts : List Str)
      → all_trigrams ts ≡ true
      → NotFound f q (some nf)
      → (left : Option B) × (not_found_trigrams rb p nf ts ≡ some left)
        × NotFound f (λ i. q i || holds_trigrams q_or (docs i) ts) left
  unfolding not_found_trigrams holds_trigrams all_trigrams
  not_found_trigrams_lem f nf q [] h ok = (some nf, refl, λ i. ground (arith, ok i))
  not_found_trigrams_lem f nf q (t ∷ ts) h ok =
      let (l, read, members) = find_lem t (ground arith) in
      let nf' : B = rb.and_not nf l in
      let here = NotFound-step f nf l q (λ i. docs i t) ok (λ i _. members i) in
      let (left, loop, result) =
        not_found_trigrams_lem f nf' (λ i. q i || docs i t) ts (ground arith) here in
      let regroup = λ (i : ℕ). or_assoc (q i) (docs i t) (holds_trigrams q_or (docs i) ts) in
      elim (Bool-cases (rb.is_empty nf')) [
        | inl z ↦ (
          none,
          rw (read, not_found_trigrams) (rw z refl),
          NotFound-ext f _ _ none regroup (
              NotFound-empty f nf' (λ i. q i || docs i t) (λ i. holds_trigrams q_or (docs i) ts)
                here z),
        )
        | inr z ↦ (
          left,
          rw (read, not_found_trigrams) (rw z loop),
          NotFound-ext f _ _ left regroup result,
        )
      ]
