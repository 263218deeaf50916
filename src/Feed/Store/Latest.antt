-- ===== src/Feed/Store/Latest.antt =====
-- The last event of a tool in a list of events, and what appending and replacing do to it.
use athena_flow_cli.Common.{
  ◌<◌, String, Option, none, some, List, [], ◌∷◌, ◌++◌, if◌then◌else◌, ◌==◌, string_eq, Bool, true,
  false, fold_left, option_eq, All, All-append, All-mono, arith, ◌≡◌, ◌≢◌, ◌⊎◌, refl, ap, ◌∙◌,
  subst, Bool-cases, Option-cases, inl, inr, eq_of_==, ==_refl,
}
use athena_flow_cli.Common.Dict.{Dict, get, get-set, get-set_cases}
use athena_flow_cli.Feed.Store.{
  EventKind, FeedEvent, feed_event_eq, ReasoningKey, reasoning_key_eq, tool_delta, tool_post,
  tool_failure, reasoning_summary, other, tool_key, delta_key, reasoning_key, put,
  build_post_by_tool_use_id, replace_event,
}

abbrev pub names : String → FeedEvent → Bool
names id e = tool_key e.kind == some id

-- The last event of a tool.
pub latest : String → List FeedEvent → Option FeedEvent
latest id [] = none
latest id (e ∷ es) = elim (latest id es) [
  | some x ↦ some x
  | none ↦ if names id e then some e else none
]

abbrev or_option : Option FeedEvent → Option FeedEvent → Option FeedEvent
or_option none b = b
or_option (some a) b = some a

pub get-put :
    (id : String) (key : Option String) (e : FeedEvent) (m : Dict String FeedEvent)
    → get id (put key e m) ≡ (if key == some id then some e else get id m)
unfolding put
get-put id none e m = ground arith
get-put id (some k) e m = ground (arith, get-set k id e m)

get-build :
    (id : String) (m : Dict String FeedEvent) (es : List FeedEvent)
    → get id (fold_left (λ (index : Dict String FeedEvent) e. put (tool_key e.kind) e index) m es)
      ≡ or_option (latest id es) (get id m)
unfolding latest
get-build id m [] = refl
get-build id m (e ∷ es) =
    ground (arith, get-build id (put (tool_key e.kind) e m) es, get-put id (tool_key e.kind) e m)

pub get-build_post :
    (id : String) (es : List FeedEvent) → get id (build_post_by_tool_use_id es) ≡ latest id es
unfolding build_post_by_tool_use_id
get-build_post id es = get-build id [] es ∙ unfold get in ground arith

pub latest-append :
    (id : String) (es : List FeedEvent) (e : FeedEvent)
    → latest id (es ++ e ∷ []) ≡ (if names id e then some e else latest id es)
unfolding latest
latest-append id [] e = ground arith
latest-append id (x ∷ es) e = ground (arith, latest-append id es e)

-- No two events share a number.
abbrev pub Distinct : List FeedEvent → Type 0
Distinct [] = Unit
Distinct (e ∷ es) = All (λ y. e.seq ≢ y.seq) es × Distinct es

All-latest :
    (P : FeedEvent → Type 0) (id : String) (es : List FeedEvent) (x : FeedEvent)
    → All P es
    → latest id es ≡ some x
    → P x
unfolding latest
All-latest P id [] x a h = cc
All-latest P id (e ∷ es) x a h = elim (Option-cases (latest id es)) [
  | inr (y, p) ↦ All-latest P id es x a.1 (ground arith)
  | inl p ↦ elim (Bool-cases (names id e)) [
    | inl q ↦ subst P (ground arith) a.0
    | inr q ↦ absurd (ground arith)
  ]
]

pub latest-names :
    (id : String) (es : List FeedEvent) (x : FeedEvent) → latest id es ≡ some x → names id x ≡ true
unfolding latest
latest-names id [] x h = cc
latest-names id (e ∷ es) x h = ground (arith, latest-names id es x)

-- Putting an event in the place of its tool's last one.
pub replace-latest :
    (id : String) (x e : FeedEvent) (es : List FeedEvent)
    → Distinct es
    → latest id es ≡ some x
    → tool_key e.kind ≡ tool_key x.kind
    → (es' : List FeedEvent) × (replace_event x e es ≡ some es')
      × ((j : String) → latest j es' ≡ (if names j e then some e else latest j es))
unfolding latest replace_event
replace-latest id x e [] d h k = absurd (ground arith)
replace-latest id x e (y ∷ es) d h k = elim (Option-cases (latest id es)) [
  | inr (z, p) ↦
      let z=x : latest id es ≡ some x = ground arith in
      let (es', q, r) = replace-latest id x e es d.1 z=x k in
      let apart : y.seq ≢ x.seq = All-latest (λ w. y.seq ≢ w.seq) id es x d.0 z=x in
      let differ : (y == x) ≡ false = elim (Bool-cases (y == x)) [
        | inl same ↦ absurd (apart (ap (λ (w : FeedEvent). w.seq) (eq_of_== y x same)))
        | inr different ↦ different
      ] in
      (y ∷ es', rw (differ, q) refl, λ j. ground (arith, r j))
  | inl p ↦ elim (Bool-cases (names id y)) [
    | inl q ↦
        let y=x : y ≡ x = ground arith in
        (
          e ∷ es,
          rw (y=x, ==_refl x) refl,
          λ j. elim (Option-cases (latest j es)) [
            | inl s ↦ ground arith
            | inr (z, s) ↦ elim (Bool-cases (names j e)) [
              | inl t ↦
                  let of_e : tool_key e.kind ≡ some j = eq_of_== (tool_key e.kind) (some j) t in
                  let of_y : tool_key y.kind ≡ some id = eq_of_== (tool_key y.kind) (some id) q in
                  let j=id : j ≡ id = cc (of_e, of_y, k, y=x) in
                  let gone : latest j es ≡ none = rw j=id p in absurd (cc (gone, s))
              | inr t ↦ ground arith
            ]
          ],
        )
    | inr q ↦ absurd (ground arith)
  ]
]

-- Putting an event that no tool names in the place of another such.
pub replace-unnamed :
    (j : String) (x e : FeedEvent) (es es' : List FeedEvent)
    → replace_event x e es ≡ some es'
    → tool_key x.kind ≡ none
    → tool_key e.kind ≡ none
    → latest j es' ≡ latest j es
unfolding latest replace_event
replace-unnamed j x e [] es' h p q = cc
replace-unnamed j x e (y ∷ es) es' h p q = elim (Bool-cases (y == x)) [
  | inl same ↦ ground (arith, eq_of_== y x same)
  | inr different ↦ elim (Option-cases (replace_event x e es)) [
    | inl r ↦ absurd (ground arith)
    | inr (ys, r) ↦ ground (arith, replace-unnamed j x e es ys r p q)
  ]
]

pub replace-All :
    (P : FeedEvent → Type 0) (x e : FeedEvent) (es es' : List FeedEvent)
    → replace_event x e es ≡ some es'
    → All P es
    → P e
    → All P es'
unfolding replace_event
replace-All P x e [] es' h a p = cc
replace-All P x e (y ∷ es) es' h a p = elim (Bool-cases (y == x)) [
  | inl same ↦ let eq : e ∷ es ≡ es' = ground arith in subst (All P) eq (p, a.1)
  | inr different ↦ elim (Option-cases (replace_event x e es)) [
    | inl r ↦ absurd (ground arith)
    | inr (ys, r) ↦
        let eq : y ∷ ys ≡ es' = ground arith in
        subst (All P) eq (a.0, replace-All P x e es ys r a.1 p)
  ]
]

pub replace-Distinct :
    (x e : FeedEvent) (es es' : List FeedEvent)
    → replace_event x e es ≡ some es'
    → Distinct es
    → All (λ y. y.seq < e.seq) es
    → Distinct es'
unfolding replace_event
replace-Distinct x e [] es' h d a = cc
replace-Distinct x e (y ∷ es) es' h d a = elim (Bool-cases (y == x)) [
  | inl same ↦
      let eq : e ∷ es ≡ es' = ground arith in
      subst Distinct eq (
        All-mono (λ z. z.seq < e.seq) (λ z. e.seq ≢ z.seq) (λ z l. λ q. absurd (omega arith)) es
            a.1,
        d.1,
      )
  | inr different ↦ elim (Option-cases (replace_event x e es)) [
    | inl r ↦ absurd (ground arith)
    | inr (ys, r) ↦
        let eq : y ∷ ys ≡ es' = ground arith in
        subst Distinct eq (
          replace-All (λ z. y.seq ≢ z.seq) x e es ys r d.0 (λ q. absurd (omega arith)),
          replace-Distinct x e es ys r d.1 a.1,
        )
  ]
]

pub append-Distinct :
    (es : List FeedEvent) (e : FeedEvent)
    → Distinct es
    → All (λ y. y.seq < e.seq) es
    → Distinct (es ++ e ∷ [])
append-Distinct [] e d a = (tt, tt)
append-Distinct (y ∷ es) e d a = (
  All-append (λ z. y.seq ≢ z.seq) es (e ∷ []) d.0 (λ q. absurd (omega arith), tt),
  append-Distinct es e d.1 a.1,
)

pub summary-unnamed :
    (kind : EventKind) (k : ReasoningKey) → reasoning_key kind ≡ some k → tool_key kind ≡ none
unfolding reasoning_key tool_key
summary-unnamed (reasoning_summary item summary content) k h = refl
summary-unnamed (tool_delta id) k h = cc
summary-unnamed (tool_post id) k h = cc
summary-unnamed (tool_failure id) k h = cc
summary-unnamed other k h = cc

pub delta-names :
    (kind : EventKind) → (id : String) → delta_key kind ≡ some id → tool_key kind ≡ some id
unfolding delta_key tool_key
delta-names (tool_delta i) id h = h
delta-names (tool_post i) id h = cc
delta-names (tool_failure i) id h = cc
delta-names (reasoning_summary item summary content) id h = cc
delta-names other id h = cc

pub get-put_cases :
    (k : ReasoningKey) (key : Option ReasoningKey) (e : FeedEvent) (m : Dict ReasoningKey FeedEvent)
    {x : FeedEvent}
    → get k (put key e m) ≡ some x
    → (get k m ≡ some x) ⊎ ((e ≡ x) × (key ≡ some k))
unfolding put
get-put_cases k none e m h = inl h
get-put_cases k (some j) e m h = elim (get-set_cases j k e _ m h) [
  | inl (a, b) ↦ inr (b, ap some a)
  | inr (a, b) ↦ inl b
]
