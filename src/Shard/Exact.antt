-- ===== src/Shard/Exact.antt =====
-- `PostingQuery` of index2/read.go returns exactly the documents that match.
use codesearch.Common.{ℕ, ◌≡◌, refl, arith, ◌∙◌, Bool, true, false, not, ◌&&◌, ◌||◌}
use codesearch.Common.{Option, none, some, List, [], ◌∷◌, inl, inr, Bool-cases}
use codesearch.Common.Strings.{Str}
use codesearch.Index.Query.{q_all, q_none, q_and, q_or, Query, query, Queries, nil, cons}
use codesearch.Index.Query.Logic.{matches, holds_subs, holds_trigrams}
use codesearch.Index.Answer.Spec.{all_trigrams, some_part}
use codesearch.Index.Answer.Trigrams.{and_assoc, or_assoc}
use codesearch.Shard.{
  Bitmaps, PostingLists, Flow, returns, continues, posting_query, and_sub_loop, or_sub_loop,
  not_found_subs, found_of, or_trigram_loop,
}
use codesearch.Shard.Loops.{
  is_cons, has_filter, BitmapLaws, Serves, passes, listed, FlowOk, and_trigram_loop_lem,
  or_into_lem, or_trigram_loop_lem, NotFound, NotFound-ext, NotFound-step, NotFound-empty,
  not_found_trigrams_lem,
}

abbrev pub is_cons_subs : Queries → Bool
is_cons_subs nil = false
is_cons_subs (cons q qs) = true

-- The strings of a query are trigrams. Where there is no filter, which `has` says, no part that is
-- evaluated without one is a query for everything, an AND of nothing or an OR of nothing.
unfoldable mutual
  pub defined : Bool → Query → Bool
  defined has (query q_none ts qs) = true
  defined has (query q_all ts qs) = has
  defined has (query q_and ts qs) = all_trigrams ts && defined_and (has || is_cons ts) qs
  defined has (query q_or ts qs) =
      (has || some_part ts qs) && (all_trigrams ts && defined_or has qs)

  -- The first query of an AND makes the filter of the next.
  pub defined_and : Bool → Queries → Bool
  defined_and has nil = has
  defined_and has (cons q qs) = defined has q && defined_and true qs

  pub defined_or : Bool → Queries → Bool
  defined_or has nil = true
  defined_or has (cons q qs) = defined has q && defined_or has qs

module _ {B : Type 0} (rb : Bitmaps B) (holds : B → ℕ → Bool) (laws : BitmapLaws rb holds)
    (p : PostingLists) (docs : ℕ → Str → Bool) (serves : Serves rb holds p docs) where
  -- The call ends without a panic, its result is not nil, and its members are those that the
  -- filter lets through and that satisfy `q`.
  abbrev pub Finds : Option B → (ℕ → Bool) → Option (Option B) → Type 0
  Finds filter q call =
      (b : B) × (call ≡ some (some b))
      × ((i : ℕ) → holds b i ≡ (passes rb holds laws p docs serves filter i && q i))

  abbrev let_through : Option B → ℕ → Bool
  let_through filter = passes rb holds laws p docs serves filter

  abbrev so_far : Option B → ℕ → Bool
  so_far list = listed rb holds laws p docs serves list

  and_flow_answer :
      (filter : Option B) (ts : List Str) (qs : Queries) (flow : Flow B)
      → ((f : Option B)
          → flow ≡ continues f
          → Finds f (λ i. holds_subs q_and (docs i) qs) (and_sub_loop rb p qs f))
      → FlowOk rb holds laws p docs serves
          (λ i. let_through filter i && holds_trigrams q_and (docs i) ts)
          flow
      → Finds filter
          (λ i. holds_trigrams q_and (docs i) ts && holds_subs q_and (docs i) qs)
          (elim flow [ returns l ↦ some (some l) | continues f ↦ and_sub_loop rb p qs f ])
  and_flow_answer filter ts qs (returns l) subs ok =
      (l, refl, λ i. ground (arith, (ok i).0, (ok i).1))
  and_flow_answer filter ts qs (continues f) subs ok =
      let (b, loop, members) = subs f refl in
      (
        b,
        loop,
        λ i.
            members i
            ∙ rw (ok i) (
                and_assoc (let_through filter i) (holds_trigrams q_and (docs i) ts)
                  (holds_subs q_and (docs i) qs)),
      )

  xor_answer :
      (f nf : B) (q : ℕ → Bool) (i : ℕ)
      → holds nf i ≡ (holds f i && not (q i))
      → holds (rb.xor nf f) i ≡ (holds f i && q i)
  xor_answer f nf q i e = ground (arith, laws.xor_law nf f i, e)

  full_answer :
      (f : B) (q : ℕ → Bool) (i : ℕ)
      → (holds f i ≡ true → q i ≡ true)
      → holds f i ≡ (holds f i && q i)
  full_answer f q i h = elim (Bool-cases (holds f i)) [
    | inl e ↦ rw e (rw (h e) refl)
    | inr e ↦ rw e refl
  ]

  left_answer :
      (f : B) (q : ℕ → Bool) (left : Option B)
      → NotFound rb holds laws p docs serves f q left
      → Finds (some f) q (elim left [ none ↦ some (some f) | some nf ↦ some (some (rb.xor nf f)) ])
  left_answer f q none result = (f, refl, λ i. full_answer f q i (result i))
  left_answer f q (some nf) result = (rb.xor nf f, refl, λ i. xor_answer f nf q i (result i))

  found_of_answer :
      (f : B) (q : ℕ → Bool) (ts : List Str) (left : Option B)
      → all_trigrams ts ≡ true
      → NotFound rb holds laws p docs serves f q left
      → Finds (some f) (λ i. q i || holds_trigrams q_or (docs i) ts) (found_of rb p f ts left)
  unfolding found_of
  found_of_answer f q ts none h ok = (
    f,
    refl,
    λ i.
        full_answer f (λ i. q i || holds_trigrams q_or (docs i) ts) i (λ e. ground (arith, ok i e)),
  )
  found_of_answer f q ts (some nf) h ok =
      let (left, loop, result) =
        not_found_trigrams_lem rb holds laws p docs serves f nf q ts h ok in
      rw loop (left_answer f _ left result)

  some_part-is_cons :
      (ts : List Str) (qs : Queries)
      → some_part ts qs ≡ true
      → (is_cons ts || is_cons_subs qs) ≡ true
  some_part-is_cons [] nil h = ground arith
  some_part-is_cons [] (cons q qs) h = refl
  some_part-is_cons (t ∷ ts) qs h = refl

  -- Behind the subqueries of an OR without a filter.
  or_list_answer :
      (ts : List Str) (qs : Queries) (list : Option B)
      → all_trigrams ts ≡ true
      → some_part ts qs ≡ true
      → ((i : ℕ) → so_far list i ≡ holds_subs q_or (docs i) qs)
      → has_filter list ≡ is_cons_subs qs
      → Finds none
          (λ i. holds_trigrams q_or (docs i) ts || holds_subs q_or (docs i) qs)
          (or_trigram_loop rb p list ts)
  or_list_answer ts qs list h part ok nil_list =
      let (r, loop, members, nil_r) = or_trigram_loop_lem rb holds laws p docs serves list ts h in
      listed_answer r loop members (
        nil_r ∙ rw nil_list (or_comm (is_cons_subs qs) (is_cons ts) ∙ some_part-is_cons ts qs part))
    where
      or_comm : (a b : Bool) → (a || b) ≡ (b || a)
      or_comm a b = ground arith

      listed_answer :
          (r : Option B)
          → or_trigram_loop rb p list ts ≡ some r
          → ((i : ℕ) → so_far r i ≡ (so_far list i || holds_trigrams q_or (docs i) ts))
          → has_filter r ≡ true
          → Finds none
              (λ i. holds_trigrams q_or (docs i) ts || holds_subs q_or (docs i) qs)
              (or_trigram_loop rb p list ts)
      listed_answer none loop members e = ground arith
      listed_answer (some b) loop members e = (
        b,
        loop,
        λ i.
            members i
            ∙ rw (ok i) (or_comm (holds_subs q_or (docs i) qs) (holds_trigrams q_or (docs i) ts)),
      )

  mutual
    unfolding posting_query matches defined

    query_answer :
        (q : Query) (filter : Option B)
        → defined (has_filter filter) q ≡ true
        → Finds filter (λ i. matches (docs i) q) (posting_query rb p q filter)
    query_answer (query q_none ts qs) filter h =
        (rb.new_bitmap, refl, λ i. ground (arith, laws.new_law i))
    query_answer (query q_all ts qs) none h = ground arith
    query_answer (query q_all ts qs) (some f) h = (f, refl, λ i. ground arith)
    query_answer (query q_and ts qs) filter h =
        let (flow, loop, ok, nil_filter) =
          and_trigram_loop_lem rb holds laws p docs serves filter ts (ground arith) in
        let subs : defined_and (has_filter filter || is_cons ts) qs ≡ true = ground arith in
        rw (loop, posting_query)
          (and_flow_answer filter ts qs flow
            (λ f e. and_subs_answer qs f (rw (nil_filter f e) subs)) ok)
    query_answer (query q_or ts qs) none h =
        let (list, loop, members, nil_list) = or_subs_answer qs none (ground arith) in
        rw (loop, posting_query)
          (or_list_answer ts qs list (ground arith) (ground arith) members nil_list)
    query_answer (query q_or ts qs) (some f) h =
        let (left, loop, ok) =
          not_found_subs_lem qs f f (λ _. false) (ground arith) (λ i. ground arith) in
        let (b, call, members) =
          found_of_answer f (λ i. holds_subs q_or (docs i) qs) ts left (ground arith) ok in
        (b, rw (loop, posting_query) call, λ i. ground (arith, members i))

    and_subs_answer :
        (qs : Queries) (filter : Option B)
        → defined_and (has_filter filter) qs ≡ true
        → Finds filter (λ i. holds_subs q_and (docs i) qs) (and_sub_loop rb p qs filter)
    and_subs_answer nil none h = ground arith
    and_subs_answer nil (some f) h = (f, refl, λ i. ground arith)
    and_subs_answer (cons q qs) filter h =
        let (f, step, here) = query_answer q filter (ground arith) in
        let (b, loop, result) = and_subs_answer qs (some f) (ground arith) in
        elim (Bool-cases (rb.is_empty f)) [
          | inl z ↦ (
            f,
            rw (step, and_sub_loop) (rw z refl),
            λ i. ground (arith, here i, laws.empty_law f i z),
          )
          | inr z ↦ (
            b,
            rw (step, and_sub_loop) (rw z loop),
            λ i.
                result i
                ∙ rw (here i) (
                    and_assoc (let_through filter i) (matches (docs i) q)
                      (holds_subs q_and (docs i) qs)),
          )
        ]

    or_subs_answer :
        (qs : Queries) (list : Option B)
        → defined_or false qs ≡ true
        → (r : Option B) × (or_sub_loop rb p qs list ≡ some r)
          × ((i : ℕ) → so_far r i ≡ (so_far list i || holds_subs q_or (docs i) qs))
          × (has_filter r ≡ (has_filter list || is_cons_subs qs))
    or_subs_answer nil list h = (list, refl, (λ i. ground arith), ground arith)
    or_subs_answer (cons q qs) list h =
        let (l, step, here) = query_answer q none (ground arith) in
        let (k, join, joined) = or_into_lem rb holds laws p docs serves list l in
        let (r, loop, members, nil_r) = or_subs_answer qs (some k) (ground arith) in
        (
          r,
          rw (step, or_sub_loop) (rw join loop),
          (λ i.
              members i
              ∙ rw (joined i, here i)
                  (or_assoc (so_far list i) (matches (docs i) q) (holds_subs q_or (docs i) qs))),
          ground (arith, nil_r),
        )

    not_found_subs_lem :
        (qs : Queries) (f nf : B) (q : ℕ → Bool)
        → defined_or true qs ≡ true
        → NotFound rb holds laws p docs serves f q (some nf)
        → (left : Option B) × (not_found_subs rb p qs f nf ≡ some left)
          × NotFound rb holds laws p docs serves f (λ i. q i || holds_subs q_or (docs i) qs) left
    not_found_subs_lem nil f nf q h ok = (some nf, refl, λ i. ground (arith, ok i))
    not_found_subs_lem (cons s qs) f nf q h ok =
        let (l, step, here) = query_answer s (some f) (ground arith) in
        let nf' : B = rb.and_not nf l in
        let kept =
          NotFound-step rb holds laws p docs serves f nf l q (λ i. matches (docs i) s) ok
            (λ i e. here i ∙ rw e refl) in
        let (left, loop, result) =
          not_found_subs_lem qs f nf' (λ i. q i || matches (docs i) s) (ground arith) kept in
        let regroup =
          λ (i : ℕ). or_assoc (q i) (matches (docs i) s) (holds_subs q_or (docs i) qs) in
        elim (Bool-cases (rb.is_empty nf')) [
          | inl z ↦ (
            none,
            rw (step, not_found_subs) (rw z refl),
            NotFound-ext rb holds laws p docs serves f _ _ none regroup (
                NotFound-empty rb holds laws p docs serves f nf' (λ i. q i || matches (docs i) s)
                  (λ i. holds_subs q_or (docs i) qs) kept z),
          )
          | inr z ↦ (
            left,
            rw (step, not_found_subs) (rw z loop),
            NotFound-ext rb holds laws p docs serves f _ _ left regroup result,
          )
        ]

  -- On posting lists that serve the documents, and under the laws of the bitmaps, a query that is
  -- defined with the filter, or with no filter, ends without a panic: the result is not nil and
  -- its members are exactly the documents that the filter lets through and that match the query.
  pub posting_query-Finds :
      (q : Query) (filter : Option B)
      → defined (has_filter filter) q ≡ true
      → Finds filter (λ i. matches (docs i) q) (posting_query rb p q filter)
  posting_query-Finds = query_answer
