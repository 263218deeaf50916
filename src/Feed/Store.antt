-- ===== src/Feed/Store.antt =====
-- src/core/feed/feedStore.ts and `buildPostByToolUseId` of src/core/feed/items.ts. Of an event the store
-- reads its kind and the ids there; its `seq`, which no two events share, tells objects apart, so that
-- `indexOf` compares events with their numbers. The text of a reasoning key is an id, a colon and a
-- number, and stands here as their pair. Listeners are numbers, and `notify` returns whom it calls.
pub mod Latest
pub mod Index
mod Tests
use athena_flow_cli.Common.{
  ℕ, suc, String, Option, none, some, List, [], ◌∷◌, ◌++◌, if◌then◌else◌, ◌==◌, string_eq, nat_eq,
  Eq, Bool, true, false, not, any, keep, or_else, fold_left, string_discrete,
}
use native.Mathlib.Decide.{ℕ_discrete}
use athena_flow_cli.Common.Dict.{Dict, get, set}

pub data EventKind : Type 0 where
  tool_delta : (tool_use_id : Option String) → EventKind
  tool_post : (tool_use_id : Option String) → EventKind
  tool_failure : (tool_use_id : Option String) → EventKind
  reasoning_summary : (item_id : Option String) (summary_index content_index : Option ℕ) → EventKind
  other : EventKind

pub record FeedEvent : Type 0 where
  pub seq : ℕ
  pub kind : EventKind

unfoldable pub FeedEvent-discrete : Discrete FeedEvent
FeedEvent-discrete = hlevel (string_discrete, ℕ_discrete)

instance abbrev pub feed_event_eq : Eq FeedEvent
feed_event_eq = record { dec = FeedEvent-discrete }

-- A reasoning key.
pub record ReasoningKey : Type 0 where
  pub item : String
  pub index : ℕ

unfoldable pub ReasoningKey-discrete : Discrete ReasoningKey
ReasoningKey-discrete = hlevel (string_discrete, ℕ_discrete)

instance abbrev pub reasoning_key_eq : Eq ReasoningKey
reasoning_key_eq = record { dec = ReasoningKey-discrete }

-- An id that is there and not empty.
unfoldable pub truthy : Option String → Option String
truthy none = none
truthy (some id) = if id == "" then none else some id

-- The id under which an event is indexed.
unfoldable pub tool_key : EventKind → Option String
unfolding truthy
tool_key (tool_delta id) = truthy id
tool_key (tool_post id) = truthy id
tool_key (tool_failure id) = truthy id
tool_key (reasoning_summary item summary content) = none
tool_key other = none

unfoldable pub delta_key : EventKind → Option String
unfolding truthy
delta_key (tool_delta id) = truthy id
delta_key _ = none

unfoldable pub is_delta : EventKind → Bool
is_delta (tool_delta id) = true
is_delta _ = false

unfoldable pub reasoning_key : EventKind → Option ReasoningKey
reasoning_key (reasoning_summary item summary content) =
    some (record { item = or_else item ""; index = or_else summary (or_else content 0) })
reasoning_key _ = none

-- `map.set(id, event)` if there is an id
unfoldable pub put {ℓ} :
    {K : Type ℓ} ⦃e : Eq K⦄ → Option K → FeedEvent → Dict K FeedEvent → Dict K FeedEvent
put none event index = index
put (some id) event index = set id event index

unfoldable pub build_post_by_tool_use_id : List FeedEvent → Dict String FeedEvent
unfolding tool_key put
build_post_by_tool_use_id events =
    fold_left (λ (index : Dict String FeedEvent) event. put (tool_key event.kind) event index) []
      events

-- `nextEvents[nextEvents.indexOf(existing)] = event`, if it is there.
unfoldable pub replace_event : FeedEvent → FeedEvent → List FeedEvent → Option (List FeedEvent)
replace_event existing event [] = none
replace_event existing event (e ∷ es) =
    let rest = replace_event existing event es in
    if e == existing
    then some (event ∷ es)
    else elim rest [ none ↦ none | some es' ↦ some (e ∷ es') ]

pub record FeedStore : Type 0 where
  pub events : List FeedEvent
  pub listeners : List ℕ
  pub version : ℕ
  pub snapshot : List FeedEvent
  pub post_by_tool_use_id : Dict String FeedEvent
  pub reasoning_by_key : Dict ReasoningKey FeedEvent

unfoldable pub new_feed_store : List FeedEvent → FeedStore
unfolding build_post_by_tool_use_id
new_feed_store bootstrap = record {
  events = bootstrap;
  listeners = [];
  version = 0;
  snapshot = bootstrap;
  post_by_tool_use_id = build_post_by_tool_use_id bootstrap;
  reasoning_by_key = [];
}

-- What the loop of `pushEvents` builds up.
pub record Draft : Type 0 where
  pub events : List FeedEvent
  pub post : Dict String FeedEvent
  pub reasoning : Dict ReasoningKey FeedEvent

-- The end of the loop's body.
unfoldable pub append_event : Draft → FeedEvent → Draft
unfolding put tool_key reasoning_key
append_event d event = record {
  events = d.events ++ event ∷ [];
  post = put (tool_key event.kind) event d.post;
  reasoning = put (reasoning_key event.kind) event d.reasoning;
}

-- The event that a delta takes the place of, and the one that a summary does.
unfoldable pub existing_delta : Draft → FeedEvent → Option (String × FeedEvent)
unfolding delta_key is_delta
existing_delta d event = elim (delta_key event.kind) [
  | none ↦ none
  | some id ↦ elim (get id d.post) [
    | none ↦ none
    | some existing ↦ if is_delta existing.kind then some (id, existing) else none
  ]
]

unfoldable pub existing_summary : Draft → FeedEvent → Option (ReasoningKey × FeedEvent)
unfolding reasoning_key
existing_summary d event = elim (reasoning_key event.kind) [
  | none ↦ none
  | some key ↦ elim (get key d.reasoning) [
    | none ↦ none
    | some existing ↦ elim (reasoning_key existing.kind) [
      | none ↦ none
      | some _ ↦ some (key, existing)
    ]
  ]
]

unfoldable pub replace_delta : Draft → FeedEvent → Option Draft
unfolding existing_delta replace_event
replace_delta d event = elim (existing_delta d event) [
  | none ↦ none
  | some (id, existing) ↦ elim (replace_event existing event d.events) [
    | none ↦ none
    | some events ↦ some (record d { events = events; post = set id event d.post })
  ]
]

unfoldable pub replace_summary : Draft → FeedEvent → Option Draft
unfolding existing_summary replace_event
replace_summary d event = elim (existing_summary d event) [
  | none ↦ none
  | some (key, existing) ↦ elim (replace_event existing event d.events) [
    | none ↦ none
    | some events ↦ some (record d { events = events; reasoning = set key event d.reasoning })
  ]
]

unfoldable pub push_event : Draft → FeedEvent → Draft
unfolding replace_delta replace_summary append_event
push_event d event = elim (replace_delta d event) [
  | some d' ↦ d'
  | none ↦ elim (replace_summary d event) [ some d' ↦ d' | none ↦ append_event d event ]
]

abbrev pub draft_of : FeedStore → Draft
draft_of s = record {
  events = s.events;
  post = s.post_by_tool_use_id;
  reasoning = s.reasoning_by_key;
}

-- With no event nothing happens; else the listeners that are returned are notified.
unfoldable pub push_events : List FeedEvent → FeedStore → FeedStore × List ℕ
unfolding push_event
push_events [] s = (s, [])
push_events (e ∷ es) s =
    let d = fold_left push_event (draft_of s) (e ∷ es) in
    (
      record s {
        events = d.events;
        snapshot = d.events;
        post_by_tool_use_id = d.post;
        reasoning_by_key = d.reasoning;
        version = suc s.version;
      },
      s.listeners,
    )

-- A `Set` keeps a listener once.
unfoldable pub subscribe : ℕ → FeedStore → FeedStore
subscribe listener s =
    if any (λ l. l == listener) s.listeners
    then s
    else record s { listeners = s.listeners ++ listener ∷ [] }

unfoldable pub unsubscribe : ℕ → FeedStore → FeedStore
unsubscribe listener s = record s { listeners = keep (λ l. not (l == listener)) s.listeners }

unfoldable pub get_snapshot : FeedStore → List FeedEvent
get_snapshot s = s.snapshot

-- `reset` and `clear`, which do the same.
unfoldable pub clear : FeedStore → FeedStore × List ℕ
clear s = (
  record s {
    events = [];
    snapshot = [];
    post_by_tool_use_id = [];
    reasoning_by_key = [];
    version = suc s.version;
  },
  s.listeners,
)
