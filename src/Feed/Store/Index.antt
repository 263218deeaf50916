-- ===== src/Feed/Store/Index.antt =====
-- The index of tool results that the store keeps, beside one that is built from its events.
use athena_flow_cli.Common.{
  ℕ, suc, ◌≤◌, ◌<◌, String, none, some, List, [], ◌∷◌, string_eq, fold_left, option_eq, All,
  All-append, All-mono, arith, ◌≡◌, ◌≢◌, sym, ap, ◌∙◌, subst, Bool-cases, Option-cases, inl, inr,
  eq_of_==,
}
use athena_flow_cli.Common.Dict.{get, set, get-set, get-set_cases}
use athena_flow_cli.Feed.Store.{
  FeedEvent, feed_event_eq, ReasoningKey, reasoning_key_eq, tool_key, delta_key, is_delta,
  reasoning_key, build_post_by_tool_use_id, replace_event, FeedStore, new_feed_store, Draft,
  append_event, existing_delta, existing_summary, replace_delta, replace_summary, push_event,
  draft_of, push_events,
}
use athena_flow_cli.Feed.Store.Latest.{
  latest, get-put, get-build_post, latest-append, Distinct, replace-latest, replace-unnamed,
  replace-All, replace-Distinct, append-Distinct, summary-unnamed, delta-names, get-put_cases,
  latest-names,
}

-- Between the events that are numbered below `n` and the rest.
record Inv (n : ℕ) (d : Draft) : Type 0 where
  below : All (λ y. y.seq < n) d.events
  distinct : Distinct d.events
  index : (id : String) → get id d.post ≡ latest id d.events
  summaries :
      (k : ReasoningKey) (x : FeedEvent) → get k d.reasoning ≡ some x → tool_key x.kind ≡ none

module _ (n : ℕ) (d : Draft) (e : FeedEvent) (v : Inv n d) (fresh : n ≤ e.seq) where
  below_e : All (λ y. y.seq < e.seq) d.events
  below_e = All-mono (λ y. y.seq < n) (λ y. y.seq < e.seq) (λ y h. omega arith) d.events v.below

  below_next : All (λ y. y.seq < suc e.seq) d.events
  below_next =
      All-mono (λ y. y.seq < n) (λ y. y.seq < suc e.seq) (λ y h. omega arith) d.events v.below

  append_event-Inv : Inv (suc e.seq) (append_event d e)
  unfolding append_event
  append_event-Inv = record {
    below = All-append (λ y. y.seq < suc e.seq) d.events (e ∷ []) below_next (omega arith, tt);
    distinct = append-Distinct d.events e v.distinct below_e;
    index = λ id.
        ground
          (arith, get-put id (tool_key e.kind) e d.post, latest-append id d.events e, v.index id);
    summaries = λ k x h. elim (get-put_cases k (reasoning_key e.kind) e d.reasoning h) [
      | inl old ↦ v.summaries k x old
      | inr (new, key) ↦ rw (← new) (summary-unnamed e.kind k key)
    ];
  }

  existing_delta_lem :
      (id : String) (x : FeedEvent)
      → existing_delta d e ≡ some (id, x)
      → (tool_key e.kind ≡ some id)
        × (latest id d.events ≡ some x)
        × (tool_key e.kind ≡ tool_key x.kind)
  unfolding existing_delta
  existing_delta_lem id x h = elim (Option-cases (delta_key e.kind)) [
    | inl a ↦ absurd (ground arith)
    | inr (i, a) ↦ elim (Option-cases (get i d.post)) [
      | inl b ↦ absurd (ground arith)
      | inr (y, b) ↦ elim (Bool-cases (is_delta y.kind)) [
        | inr c ↦ absurd (ground arith)
        | inl c ↦
            let same : (i ≡ id) × (y ≡ x) = ground arith in
            let named : tool_key e.kind ≡ some id = delta-names e.kind id (rw (← same.0) a) in
            let last : latest id d.events ≡ some x =
              sym (v.index id) ∙ ap (λ j. get j d.post) (sym same.0) ∙ b ∙ ap some same.1 in
            (
              named,
              last,
              named ∙ sym (eq_of_== (tool_key x.kind) (some id) (latest-names id d.events x last)),
            )
      ]
    ]
  ]

  replace_delta-Inv : {d' : Draft} → replace_delta d e ≡ some d' → Inv (suc e.seq) d'
  unfolding replace_delta
  replace_delta-Inv {d'} h = elim (Option-cases (existing_delta d e)) [
    | inl none_there ↦ absurd (ground arith)
    | inr ((id, x), there) ↦
        let (named, last, key) = existing_delta_lem id x there in
        let (events, replaced, renamed) = replace-latest id x e d.events v.distinct last key in
        let eq : record d { events = events; post = set id e d.post } ≡ d' = ground arith in
        subst (Inv (suc e.seq)) eq (record {
          below =
              replace-All (λ y. y.seq < suc e.seq) x e d.events events replaced below_next
                (omega arith);
          distinct = replace-Distinct x e d.events events replaced v.distinct below_e;
          index = λ j. ground (arith, renamed j, get-set id j e d.post, v.index j, named);
          summaries = v.summaries;
        })
  ]

  existing_summary_lem :
      (k : ReasoningKey) (x : FeedEvent)
      → existing_summary d e ≡ some (k, x)
      → (tool_key e.kind ≡ none) × (tool_key x.kind ≡ none)
  unfolding existing_summary
  existing_summary_lem k x h = elim (Option-cases (reasoning_key e.kind)) [
    | inl a ↦ absurd (ground arith)
    | inr (i, a) ↦ elim (Option-cases (get i d.reasoning)) [
      | inl b ↦ absurd (ground arith)
      | inr (y, b) ↦ elim (Option-cases (reasoning_key y.kind)) [
        | inl c ↦ absurd (ground arith)
        | inr (j, c) ↦
            let same : y ≡ x = ground arith in
            (summary-unnamed e.kind i a, rw (← same) (v.summaries i y b))
      ]
    ]
  ]

  replace_summary-Inv : {d' : Draft} → replace_summary d e ≡ some d' → Inv (suc e.seq) d'
  unfolding replace_summary
  replace_summary-Inv {d'} h = elim (Option-cases (existing_summary d e)) [
    | inl a ↦ absurd (ground arith)
    | inr ((k, x), a) ↦ elim (Option-cases (replace_event x e d.events)) [
      | inl b ↦ absurd (ground arith)
      | inr (events, b) ↦
          let (mine, theirs) = existing_summary_lem k x a in
          let eq : record d { events = events; reasoning = set k e d.reasoning } ≡ d' =
            ground arith in
          subst (Inv (suc e.seq)) eq (record {
            below =
                replace-All (λ y. y.seq < suc e.seq) x e d.events events b below_next (omega arith);
            distinct = replace-Distinct x e d.events events b v.distinct below_e;
            index = λ j. v.index j ∙ sym (replace-unnamed j x e d.events events b theirs mine);
            summaries = λ j y h. elim (get-set_cases k j e y d.reasoning h) [
              | inl (p, q) ↦ rw (← q) mine
              | inr (p, q) ↦ v.summaries j y q
            ];
          })
    ]
  ]

  push_event-Inv : Inv (suc e.seq) (push_event d e)
  unfolding push_event
  push_event-Inv = elim (Option-cases (replace_delta d e)) [
    | inr (d', a) ↦ rw (a, push_event) (replace_delta-Inv a)
    | inl a ↦ elim (Option-cases (replace_summary d e)) [
      | inr (d', b) ↦ rw (a, push_event) (rw (b, push_event) (replace_summary-Inv b))
      | inl b ↦ rw (a, push_event) (rw (b, push_event) append_event-Inv)
    ]
  ]

-- Events that come in the order of their numbers, from `n` on, and the number after them.
abbrev pub Ascending : ℕ → List FeedEvent → Type 0
Ascending n [] = Unit
Ascending n (e ∷ es) = (n ≤ e.seq) × Ascending (suc e.seq) es

abbrev pub after : ℕ → List FeedEvent → ℕ
after n [] = n
after n (e ∷ es) = after (suc e.seq) es

abbrev pub AscendingBatches : ℕ → List (List FeedEvent) → Type 0
AscendingBatches n [] = Unit
AscendingBatches n (b ∷ bs) = Ascending n b × AscendingBatches (after n b) bs

pub push_all : FeedStore → List (List FeedEvent) → FeedStore
push_all s [] = s
push_all s (b ∷ bs) = push_all (push_events b s).0 bs

drafts-Inv :
    (n : ℕ) (d : Draft) (es : List FeedEvent)
    → Inv n d
    → Ascending n es
    → Inv (after n es) (fold_left push_event d es)
drafts-Inv n d [] v a = v
drafts-Inv n d (e ∷ es) v a =
    drafts-Inv (suc e.seq) (push_event d e) es (push_event-Inv n d e v a.0) a.1

push_events-Inv :
    (n : ℕ) (s : FeedStore) (es : List FeedEvent)
    → Inv n (draft_of s)
    → Ascending n es
    → Inv (after n es) (draft_of (push_events es s).0)
unfolding push_events
push_events-Inv n s [] v a = v
push_events-Inv n s (e ∷ es) v a = drafts-Inv n (draft_of s) (e ∷ es) v a

push_all-Inv :
    (n : ℕ) (s : FeedStore) (bs : List (List FeedEvent))
    → Inv n (draft_of s)
    → AscendingBatches n bs
    → (m : ℕ) × Inv m (draft_of (push_all s bs))
unfolding push_all
push_all-Inv n s [] v a = (n, v)
push_all-Inv n s (b ∷ bs) v a =
    push_all-Inv (after n b) (push_events b s).0 bs (push_events-Inv n s b v a.0) a.1

Distinct-Ascending : (n : ℕ) (es : List FeedEvent) → Ascending n es → Distinct es
Distinct-Ascending n [] a = tt
Distinct-Ascending n (e ∷ es) a = (
  All-mono (λ y. suc e.seq ≤ y.seq) (λ y. e.seq ≢ y.seq) (λ y h. λ q. absurd (omega arith)) es
      (Ascending-above (suc e.seq) es a.1),
  Distinct-Ascending (suc e.seq) es a.1,
)
  where
    Ascending-above : (m : ℕ) (ys : List FeedEvent) → Ascending m ys → All (λ y. m ≤ y.seq) ys
    Ascending-above m [] a = tt
    Ascending-above m (y ∷ ys) a = (
      a.0,
      All-mono (λ z. suc y.seq ≤ z.seq) (λ z. m ≤ z.seq) (λ z h. omega arith) ys
          (Ascending-above (suc y.seq) ys a.1),
    )

Ascending-below :
    (n : ℕ) (es : List FeedEvent)
    → Ascending n es
    → (n ≤ after n es) × All (λ y. y.seq < after n es) es
Ascending-below n [] a = (omega arith, tt)
Ascending-below n (e ∷ es) a =
    let rest = Ascending-below (suc e.seq) es a.1 in (omega arith, (omega arith, rest.1))

new_feed_store-Inv :
    (es : List FeedEvent) → Ascending 0 es → Inv (after 0 es) (draft_of (new_feed_store es))
unfolding new_feed_store
new_feed_store-Inv es a = record {
  below = (Ascending-below 0 es a).1;
  distinct = Distinct-Ascending 0 es a;
  index = λ id. get-build_post id es;
  summaries = λ k x h. unfold get in cc;
}

-- A store that is restored from events and pushed any batches, the numbers of all these events
-- ascending, has under every tool the event that an index built from its events has there, though it
-- replaces a tool's last delta and a summary of the same reasoning in place.
pub push_all-index :
    (bootstrap : List FeedEvent) (batches : List (List FeedEvent)) (id : String)
    → Ascending 0 bootstrap
    → AscendingBatches (after 0 bootstrap) batches
    → let s = push_all (new_feed_store bootstrap) batches in
      get id s.post_by_tool_use_id ≡ get id (build_post_by_tool_use_id s.events)
push_all-index bootstrap batches id a b =
    let (m, v) =
      push_all-Inv (after 0 bootstrap) (new_feed_store bootstrap) batches
        (new_feed_store-Inv bootstrap a) b in
    v.index id ∙ sym (get-build_post id (push_all (new_feed_store bootstrap) batches).events)
