-- ===== src/Index/Answer/Exact.antt =====
-- `postingQuery` returns exactly the files that match.
use codesearch.Common.{ℕ, ◌≡◌, refl, arith, ◌∙◌, subst, ◌≢◌, Bool, true, false, ◌&&◌, ◌||◌}
use codesearch.Common.{Option, none, some, List, [], inl, inr, Bool-cases, ltb}
use codesearch.Common.{member}
use codesearch.Common.Strings.{Str}
use codesearch.Index.Posting.Union.{merge_or, merge_or-IsUnion}
use codesearch.Index.Read.{Index}
use codesearch.Index.Query.{q_all, q_none, q_and, q_or, Query, query, Queries, nil, cons}
use codesearch.Index.Query.Logic.{matches, holds_subs, holds_trigrams}
use codesearch.Index.Answer.{
  Flow, stop, go_on, is_empty, list_of, or_else, posting_query, and_sub_loop, or_sub_loop,
  all_files, count_up,
}
use codesearch.Index.Answer.Spec.{
  some_part, answerable, answerable_subs, Serves, allowed, IsLimit, IsAnswer, IsAnswer-IsLimit,
  count_up-IsAnswer, limit-IsAnswer,
}
use codesearch.Index.Answer.Trigrams.{
  IsAnswer-ext, AndState, OrState, FlowOk, empty-IsAnswer, and_trigram_loop_lem,
  or_trigram_loop_lem, or_assoc, and_assoc,
}

-- The answer inside an answer.
narrow :
    (n : ℕ) (restrict : Option (List ℕ)) (p q : ℕ → Bool) (l zs : List ℕ)
    → IsAnswer n restrict p l
    → IsAnswer n (some l) q zs
    → IsAnswer n restrict (λ i. p i && q i) zs
narrow n restrict p q l zs a b = record {
  ascending = b.ascending;
  members = λ i. ground (arith, b.members i, a.members i);
}

or_IsAnswer :
    (n : ℕ) (restrict : Option (List ℕ)) (p q : ℕ → Bool) (list : Option (List ℕ)) (l : List ℕ)
    → OrState n restrict p list
    → IsAnswer n restrict q l
    → IsAnswer n restrict (λ i. p i || q i) (merge_or (list_of list) l)
or_IsAnswer n restrict p q none l s a =
    let u = merge_or-IsUnion [] l tt a.ascending in
    record {
      ascending = u.ascending;
      members = λ i. u.members i ∙ unfold member in ground (arith, a.members i, s i);
    }
or_IsAnswer n restrict p q (some k) l s a =
    let u = merge_or-IsUnion k l s.ascending a.ascending in
    record {
      ascending = u.ascending;
      members = λ i.
          u.members i
          ∙ rw (s.members i, a.members i) (swap (allowed restrict i) (ltb i n) (p i) (q i));
    }
  where
    swap : (a b c e : Bool) → ((a && (b && c)) || (a && (b && e))) ≡ (a && (b && (c || e)))
    swap a b c e = ground arith

-- What the call returns, and that it does.
abbrev pub Returns : ℕ → Option (List ℕ) → (ℕ → Bool) → Option (List ℕ) → Type 0
Returns n restrict p call = (zs : List ℕ) × (call ≡ some zs) × IsAnswer n restrict p zs

module _ (ix : Index) (n : ℕ) (docs : ℕ → Str → Bool) (serves : Serves ix n docs) where
  all_answer :
      (restrict : Option (List ℕ)) (ts : List Str) (qs : Queries)
      → IsLimit n restrict
      → Returns n restrict
          (λ i. matches (docs i) (query q_all ts qs))
          (posting_query ix (query q_all ts qs) restrict)
  unfolding posting_query matches all_files
  all_answer none ts qs limit = (count_up 0 n, rw (serves.names, all_files), count_up-IsAnswer n)
  all_answer (some rs) ts qs limit = (rs, refl, limit-IsAnswer n rs limit)

  none_answer :
      (restrict : Option (List ℕ)) (ts : List Str) (qs : Queries)
      → Returns n restrict
          (λ i. matches (docs i) (query q_none ts qs))
          (posting_query ix (query q_none ts qs) restrict)
  unfolding posting_query matches member
  none_answer restrict ts qs = ([], refl, record { ascending = tt; members = λ i. ground arith })

  nothing : (restrict : Option (List ℕ)) → IsAnswer n restrict (λ _. false) []
  unfolding member
  nothing restrict = record { ascending = tt; members = λ i. ground arith }

  -- Behind the trigrams of an AND, given what the loop over its queries does.
  and_flow_answer :
      (qs : Queries) (restrict : Option (List ℕ)) (ts : List Str) (flow : Flow)
      → ((p : ℕ → Bool) (list : Option (List ℕ))
          → AndState n restrict p list
          → (list ≡ none → qs ≢ nil)
          → Returns n restrict
              (λ i. p i && holds_subs q_and (docs i) qs)
              (and_sub_loop ix qs restrict list))
      → some_part ts qs ≡ true
      → FlowOk n restrict (λ i. true && holds_trigrams q_and (docs i) ts) flow
      → (flow ≡ go_on none → ts ≡ [])
      → Returns n restrict
          (λ i. holds_trigrams q_and (docs i) ts && holds_subs q_and (docs i) qs)
          (elim flow [ stop ↦ some [] | go_on list ↦ and_sub_loop ix qs restrict list ])
  and_flow_answer qs restrict ts stop subs b ok nil_list =
      ([], refl, empty-IsAnswer n restrict _ _ [] refl ok (λ i k. ground arith))
  and_flow_answer qs restrict ts (go_on none) subs b ok nil_list =
      subs (λ i. holds_trigrams q_and (docs i) ts) none ok
        (λ e q. ground (arith, subst (λ t. some_part t qs ≡ true) (nil_list refl) b))
  and_flow_answer qs restrict ts (go_on (some l)) subs b ok nil_list =
      subs (λ i. holds_trigrams q_and (docs i) ts) (some l) ok (λ e. cc)

  or_else-IsLimit :
      (restrict : Option (List ℕ)) (p : ℕ → Bool) (list : Option (List ℕ))
      → IsLimit n restrict
      → AndState n restrict p list
      → IsLimit n (or_else list restrict)
  or_else-IsLimit restrict p none limit s = limit
  or_else-IsLimit restrict p (some l) limit s = IsAnswer-IsLimit n restrict p l s

  or_else-IsAnswer :
      (restrict : Option (List ℕ)) (p q : ℕ → Bool) (list : Option (List ℕ)) (zs : List ℕ)
      → AndState n restrict p list
      → IsAnswer n (or_else list restrict) q zs
      → IsAnswer n restrict (λ i. p i && q i) zs
  or_else-IsAnswer restrict p q none zs s a =
      IsAnswer-ext n restrict q _ zs (λ i. ground (arith, s i)) a
  or_else-IsAnswer restrict p q (some l) zs s a = narrow n restrict p q l zs s a

  mutual
    unfolding posting_query matches answerable

    query_answer :
        (q : Query) (restrict : Option (List ℕ))
        → IsLimit n restrict
        → answerable q ≡ true
        → Returns n restrict (λ i. matches (docs i) q) (posting_query ix q restrict)
    query_answer (query q_none ts qs) restrict limit a = none_answer restrict ts qs
    query_answer (query q_all ts qs) restrict limit a = all_answer restrict ts qs limit
    query_answer (query q_and ts qs) restrict limit a =
        let (flow, loop, ok, nil_list) =
          and_trigram_loop_lem ix n docs serves restrict limit ts (λ _. true) none (ground arith)
            (λ _. refl) in
        rw (loop, posting_query)
          (and_flow_answer qs restrict ts flow
            (λ p list. and_subs_answer qs restrict p list limit (ground arith)) (ground arith) ok
            (λ e. (nil_list e).1))
    query_answer (query q_or ts qs) restrict limit a =
        let (list, loop, ok) =
          or_trigram_loop_lem ix n docs serves restrict limit ts (λ _. false) none (ground arith)
            (λ _. refl) in
        rw (loop, posting_query)
          (or_subs_answer qs restrict (λ i. false || holds_trigrams q_or (docs i) ts) list limit
            (ground arith) ok)

    and_subs_answer :
        (qs : Queries) (restrict : Option (List ℕ)) (p : ℕ → Bool) (list : Option (List ℕ))
        → IsLimit n restrict
        → answerable_subs qs ≡ true
        → AndState n restrict p list
        → (list ≡ none → qs ≢ nil)
        → Returns n restrict
            (λ i. p i && holds_subs q_and (docs i) qs)
            (and_sub_loop ix qs restrict list)
    and_subs_answer nil restrict p none limit a s h = absurd (h refl refl)
    and_subs_answer nil restrict p (some l) limit a s h =
        (l, refl, IsAnswer-ext n restrict p _ l (λ i. ground arith) s)
    and_subs_answer (cons q qs) restrict p list limit a s h =
        let (l, step, answer) =
          query_answer q (or_else list restrict) (or_else-IsLimit restrict p list limit s)
            (ground arith) in
        let here = or_else-IsAnswer restrict p (λ i. matches (docs i) q) list l s answer in
        let (zs, loop, result) =
          and_subs_answer qs restrict (λ i. p i && matches (docs i) q) (some l) limit (ground arith)
            here (λ e. cc) in
        elim (Bool-cases (is_empty l)) [
          | inl z ↦ (
            [],
            rw (step, and_sub_loop) (rw z),
            empty-IsAnswer n restrict (λ i. p i && matches (docs i) q) _ l z here
                (λ i k. ground arith),
          )
          | inr z ↦ (
            zs,
            rw (step, and_sub_loop) (rw z loop),
            IsAnswer-ext n restrict _ _ zs
                (λ i. and_assoc (p i) (matches (docs i) q) (holds_subs q_and (docs i) qs)) result,
          )
        ]

    or_subs_answer :
        (qs : Queries) (restrict : Option (List ℕ)) (p : ℕ → Bool) (list : Option (List ℕ))
        → IsLimit n restrict
        → answerable_subs qs ≡ true
        → OrState n restrict p list
        → Returns n restrict
            (λ i. p i || holds_subs q_or (docs i) qs)
            (or_sub_loop ix qs restrict list)
    or_subs_answer nil restrict p none limit a s = (
      [],
      refl,
      IsAnswer-ext n restrict (λ _. false) _ [] (λ i. ground (arith, s i)) (nothing restrict),
    )
    or_subs_answer nil restrict p (some l) limit a s =
        (l, refl, IsAnswer-ext n restrict p _ l (λ i. ground arith) s)
    or_subs_answer (cons q qs) restrict p list limit a s =
        let (l, step, answer) = query_answer q restrict limit (ground arith) in
        let (zs, loop, result) =
          or_subs_answer qs restrict (λ i. p i || matches (docs i) q)
            (some (merge_or (list_of list) l)) limit (ground arith)
            (or_IsAnswer n restrict p (λ i. matches (docs i) q) list l s answer) in
        (
          zs,
          rw (step, or_sub_loop) loop,
          IsAnswer-ext n restrict _ _ zs
              (λ i. or_assoc (p i) (matches (docs i) q) (holds_subs q_or (docs i) qs)) result,
        )

  -- On an index that serves its files, for a query of trigrams without an empty AND, and under no
  -- restriction or one to some of the files, `postingQuery` ends without a panic and returns, in
  -- ascending order, exactly the files of the restriction that match the query.
  pub posting_query-exact :
      (q : Query) (restrict : Option (List ℕ))
      → IsLimit n restrict
      → answerable q ≡ true
      → Returns n restrict (λ i. matches (docs i) q) (posting_query ix q restrict)
  posting_query-exact = query_answer
