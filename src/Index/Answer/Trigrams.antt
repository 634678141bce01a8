-- ===== src/Index/Answer/Trigrams.antt =====
-- The loops of `postingQuery` over the trigrams of a node.
use codesearch.Common.{ℕ, ◌≡◌, refl, arith, ◌∙◌, ap, sym, Bool, true, false, ◌&&◌, ◌||◌}
use codesearch.Common.{Option, none, some, List, [], ◌∷◌, inl, inr, Bool-cases, ltb}
use codesearch.Common.{member}
use codesearch.Common.Strings.{Str}
use codesearch.Index.Posting.Reads.{keep}
use codesearch.Index.Read.{Index}
use codesearch.Index.Read.Lists.{
  restricted, restricted-IsAscending, keep-IsAscending, posting_list-restricted, posting_and-keep,
  posting_or-IsUnion,
}
use codesearch.Index.Query.{q_and, q_or}
use codesearch.Index.Query.Logic.{holds_trigrams}
use codesearch.Index.Answer.{
  trigram_code, Flow, stop, go_on, is_empty, and_step, or_step, and_trigram_loop, or_trigram_loop,
}
use codesearch.Index.Answer.Spec.{
  is_trigram, all_trigrams, Serves, allowed, IsLimit, IsAnswer, IsLimit-IsRestriction, member-keep,
  member-restricted,
}

pub code_of_trigram : (t : Str) → is_trigram t ≡ true → (code : ℕ) × (trigram_code t ≡ some code)
unfolding trigram_code
code_of_trigram (a ∷ b ∷ c ∷ []) h = (_, refl)
code_of_trigram (a ∷ b ∷ c ∷ x ∷ s) h = ground arith
code_of_trigram (a ∷ b ∷ []) h = ground arith
code_of_trigram (a ∷ []) h = ground arith
code_of_trigram [] h = ground arith

-- The answer depends on the predicate's values only.
pub IsAnswer-ext :
    (n : ℕ) (restrict : Option (List ℕ)) (p q : ℕ → Bool) (zs : List ℕ)
    → ((i : ℕ) → p i ≡ q i)
    → IsAnswer n restrict p zs
    → IsAnswer n restrict q zs
IsAnswer-ext n restrict p q zs h a = record {
  ascending = a.ascending;
  members = λ i. a.members i ∙ ap (λ b. allowed restrict i && (ltb i n && b)) (h i);
}

pub and_assoc : (a b c : Bool) → ((a && b) && c) ≡ (a && (b && c))
and_assoc true b c = refl
and_assoc false b c = refl

pub or_assoc : (a b c : Bool) → ((a || b) || c) ≡ (a || (b || c))
or_assoc true b c = refl
or_assoc false b c = refl

pub or_distributes :
    (a b c e : Bool) → ((a && (b && e)) || (a && (b && c))) ≡ (a && (b && (c || e)))
or_distributes a b c e = ground arith

module _ (n : ℕ) (restrict : Option (List ℕ)) where
  -- The variable `list` of an AND: nil before the first trigram, an answer behind it.
  abbrev pub AndState : (ℕ → Bool) → Option (List ℕ) → Type 0
  AndState p none = (i : ℕ) → p i ≡ true
  AndState p (some l) = IsAnswer n restrict p l

  abbrev pub FlowOk : (ℕ → Bool) → Flow → Type 0
  FlowOk p stop = IsAnswer n restrict p []
  FlowOk p (go_on list) = AndState p list

  pub FlowOk-ext :
      (p q : ℕ → Bool) (flow : Flow) → ((i : ℕ) → p i ≡ q i) → FlowOk p flow → FlowOk q flow
  FlowOk-ext p q stop h s = IsAnswer-ext n restrict p q [] h s
  FlowOk-ext p q (go_on none) h s = λ i. sym (h i) ∙ s i
  FlowOk-ext p q (go_on (some l)) h s = IsAnswer-ext n restrict p q l h s

  -- The variable `list` of an OR: nil before the first part, an answer behind it.
  abbrev pub OrState : (ℕ → Bool) → Option (List ℕ) → Type 0
  OrState p none = (i : ℕ) → p i ≡ false
  OrState p (some l) = IsAnswer n restrict p l

  pub OrState-ext :
      (p q : ℕ → Bool) (list : Option (List ℕ))
      → ((i : ℕ) → p i ≡ q i)
      → OrState p list
      → OrState q list
  OrState-ext p q none h s = λ i. sym (h i) ∙ s i
  OrState-ext p q (some l) h s = IsAnswer-ext n restrict p q l h s

  -- No file is left, so none is left under a stronger predicate.
  pub empty-IsAnswer :
      (p q : ℕ → Bool) (l : List ℕ)
      → is_empty l ≡ true
      → IsAnswer n restrict p l
      → ((i : ℕ) → q i ≡ true → p i ≡ true)
      → IsAnswer n restrict q []
  unfolding member
  empty-IsAnswer p q [] e a h = record {
    ascending = tt;
    members = λ i. elim (Bool-cases (q i)) [
      | inl k ↦ ground (arith, a.members i, h i k)
      | inr k ↦ rw k (ground arith)
    ];
  }
  empty-IsAnswer p q (x ∷ l) e a h = ground arith

module _ (ix : Index) (n : ℕ) (docs : ℕ → Str → Bool) (serves : Serves ix n docs)
    (restrict : Option (List ℕ)) (limit : IsLimit n restrict) where
  -- The files of one trigram.
  list-IsAnswer :
      (t : Str) (h : is_trigram t ≡ true)
      → IsAnswer n restrict (λ i. docs i t) (restricted restrict (serves.ids t))
  list-IsAnswer t h =
      let (code, e) = code_of_trigram t h in
      record {
        ascending =
            restricted-IsAscending restrict (serves.ids t) (serves.stored t code h e).ascending;
        members =
            λ i. ground (arith, member-restricted restrict (serves.ids t) i, serves.members t i h);
      }

  and_step_lem :
      (t : Str) (p : ℕ → Bool) (list : Option (List ℕ)) (code : ℕ)
      → is_trigram t ≡ true
      → trigram_code t ≡ some code
      → AndState n restrict p list
      → (l : List ℕ) × (and_step ix restrict list code ≡ some l)
        × IsAnswer n restrict (λ i. p i && docs i t) l
  unfolding and_step
  and_step_lem t p none code h e s = (
    restricted restrict (serves.ids t),
    posting_list-restricted ix code restrict (serves.ids t) (serves.stored t code h e)
        (IsLimit-IsRestriction n restrict limit),
    IsAnswer-ext n restrict (λ i. docs i t) (λ i. p i && docs i t) _ (λ i. ground (arith, s i))
        (list-IsAnswer t h),
  )
  and_step_lem t p (some l) code h e s = (
    keep (restricted restrict (serves.ids t)) l,
    posting_and-keep ix code restrict (serves.ids t) (serves.stored t code h e)
        (IsLimit-IsRestriction n restrict limit) l s.ascending,
    record {
      ascending = keep-IsAscending _ l (list-IsAnswer t h).ascending;
      members = λ i. ground (
        arith,
        member-keep (restricted restrict (serves.ids t)) l i,
        (list-IsAnswer t h).members i,
        s.members i,
      );
    },
  )

  -- `list` is nil behind the loop only if it was nil and there was no trigram.
  pub and_trigram_loop_lem :
      (ts : List Str) (p : ℕ → Bool) (list : Option (List ℕ))
      → all_trigrams ts ≡ true
      → AndState n restrict p list
      → (flow : Flow) × (and_trigram_loop ix restrict list ts ≡ some flow)
        × FlowOk n restrict (λ i. p i && holds_trigrams q_and (docs i) ts) flow
        × (flow ≡ go_on none → (list ≡ none) × (ts ≡ []))
  unfolding and_trigram_loop holds_trigrams all_trigrams
  and_trigram_loop_lem [] p list h s = (
    go_on list,
    refl,
    FlowOk-ext n restrict p _ (go_on list) (λ i. ground arith) s,
    λ e. (cc, refl),
  )
  and_trigram_loop_lem (t ∷ ts) p list h s =
      let ht : is_trigram t ≡ true = ground arith in
      let hts : all_trigrams ts ≡ true = ground arith in
      let (code, e) = code_of_trigram t ht in
      let (l, step, s') = and_step_lem t p list code ht e s in
      let (flow, loop, ok, some_list) =
        and_trigram_loop_lem ts (λ i. p i && docs i t) (some l) hts s' in
      elim (Bool-cases (is_empty l)) [
        | inl z ↦ (
          stop,
          rw (e, and_trigram_loop) (rw step (rw z)),
          empty-IsAnswer n restrict (λ i. p i && docs i t) _ l z s' (λ i k. ground arith),
          λ c. cc,
        )
        | inr z ↦ (
          flow,
          rw (e, and_trigram_loop) (rw step (rw z loop)),
          FlowOk-ext n restrict (λ i. (p i && docs i t) && holds_trigrams q_and (docs i) ts) _ flow
              (λ i. and_assoc (p i) (docs i t) (holds_trigrams q_and (docs i) ts)) ok,
          λ c. absurd (let (k, _) = some_list c in cc),
        )
      ]

  or_step_lem :
      (t : Str) (p : ℕ → Bool) (list : Option (List ℕ)) (code : ℕ)
      → is_trigram t ≡ true
      → trigram_code t ≡ some code
      → OrState n restrict p list
      → (l : List ℕ) × (or_step ix restrict list code ≡ some l)
        × IsAnswer n restrict (λ i. p i || docs i t) l
  unfolding or_step
  or_step_lem t p none code h e s = (
    restricted restrict (serves.ids t),
    posting_list-restricted ix code restrict (serves.ids t) (serves.stored t code h e)
        (IsLimit-IsRestriction n restrict limit),
    IsAnswer-ext n restrict (λ i. docs i t) (λ i. p i || docs i t) _ (λ i. ground (arith, s i))
        (list-IsAnswer t h),
  )
  or_step_lem t p (some l) code h e s =
      let (zs, value, union) =
        posting_or-IsUnion ix code restrict (serves.ids t) (serves.stored t code h e)
          (IsLimit-IsRestriction n restrict limit) l s.ascending in
      (
        zs,
        value,
        record {
          ascending = union.ascending;
          members = λ i.
              union.members i
              ∙ rw ((list-IsAnswer t h).members i, s.members i)
                  (or_distributes (allowed restrict i) (ltb i n) (p i) (docs i t));
        },
      )

  pub or_trigram_loop_lem :
      (ts : List Str) (p : ℕ → Bool) (list : Option (List ℕ))
      → all_trigrams ts ≡ true
      → OrState n restrict p list
      → (list' : Option (List ℕ)) × (or_trigram_loop ix restrict list ts ≡ some list')
        × OrState n restrict (λ i. p i || holds_trigrams q_or (docs i) ts) list'
  unfolding or_trigram_loop holds_trigrams all_trigrams
  or_trigram_loop_lem [] p list h s =
      (list, refl, OrState-ext n restrict p _ list (λ i. ground arith) s)
  or_trigram_loop_lem (t ∷ ts) p list h s =
      let ht : is_trigram t ≡ true = ground arith in
      let hts : all_trigrams ts ≡ true = ground arith in
      let (code, e) = code_of_trigram t ht in
      let (l, step, s') = or_step_lem t p list code ht e s in
      let (list', loop, ok) = or_trigram_loop_lem ts (λ i. p i || docs i t) (some l) hts s' in
      (
        list',
        rw (e, or_trigram_loop) (rw step loop),
        OrState-ext n restrict _ _ list'
            (λ i. or_assoc (p i) (docs i t) (holds_trigrams q_or (docs i) ts)) ok,
      )
