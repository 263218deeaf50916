-- ===== src/Gateway/ChannelManager.antt =====
-- src/gateway/channelManager.ts: the running adapters, the window of recent messages, and start and stop.
-- `register` waits for the adapter's `start`: what precedes the wait and what follows it are two calls,
-- so that other calls come between. What an adapter answers is an argument.
pub mod Window
pub mod Present
use athena_flow_cli.Common.{
  ℕ, suc, ◌+◌, String, Option, none, some, List, [], ◌∷◌, ◌++◌, if◌then◌else◌, ◌==◌, string_eq,
  Bool, true, false, not, any, keep, map, is_some, length, ltb, fold_left,
}
use mathlib.Core.Logic.{◌⊎◌, inl, inr}
use mathlib.Core.List.{reverse}
use athena_flow_cli.Common.Dict.{Dict, get, set, delete}
use athena_flow_cli.Gateway.Types.{NormalizedInbound, OutboundMessage, SendResult}

-- An adapter is its id and the number of the object.
pub record ChannelAdapter : Type 0 where
  pub id : String
  pub object : ℕ

pub record HealthSample : Type 0 where
  pub sampled_at : ℕ
  pub transport_ok : Bool
  pub last_inbound_at : Option ℕ
  pub note : Option String

pub record Entry : Type 0 where
  pub adapter : ChannelAdapter
  pub last_health : Option HealthSample
  pub attachment_id : Option String

pub data ManagerError : Type 0 where
  already_stopped : ManagerError
  duplicate_channel : (id : String) → ManagerError
  unknown_channel : (id : String) → ManagerError
  adapter_failed : (reason : String) → ManagerError

-- `aborted` are the adapters whose signal was aborted, newest first.
pub record ChannelManager : Type 0 where
  pub entries : Dict String Entry
  pub dedup : List String
  pub dedup_set : List String
  pub dedup_max : ℕ
  pub has_sink : Bool
  pub stopped : Bool
  pub aborted : List ChannelAdapter

abbrev pub new_channel_manager : ℕ → ChannelManager
new_channel_manager window = record {
  entries = [];
  dedup = [];
  dedup_set = [];
  dedup_max = window;
  has_sink = false;
  stopped = false;
  aborted = [];
}

unfoldable pub set_inbound_sink : Bool → ChannelManager → ChannelManager
set_inbound_sink sink m = record m { has_sink = sink }

unfoldable pub get_attachment_id : String → ChannelManager → Option String
get_attachment_id id m = elim (get id m.entries) [ none ↦ none | some e ↦ e.attachment_id ]

unfoldable pub list_channels : ChannelManager → List (String × Option HealthSample)
list_channels m = map (λ (x : String × Entry). (x.1.adapter.id, x.1.last_health)) m.entries

unfoldable pub list_adapters : ChannelManager → List ChannelAdapter
list_adapters m = map (λ (x : String × Entry). x.1.adapter) m.entries

abbrev pub new_entry : ChannelAdapter → Option String → Entry
new_entry adapter attachment = record {
  adapter = adapter;
  last_health = none;
  attachment_id = attachment;
}

-- `register`, up to the wait for `startPromise`.
unfoldable pub begin_register :
    ChannelAdapter → Option String → ChannelManager → ChannelManager × Option ManagerError
begin_register adapter attachment m =
    if m.stopped
    then (m, some already_stopped)
    else if is_some (get adapter.id m.entries)
    then (m, some (duplicate_channel adapter.id))
    else (record m { entries = set adapter.id (new_entry adapter attachment) m.entries }, none)

-- `register`, once `startPromise` has settled.
unfoldable pub end_register :
    ChannelAdapter → Option String → ChannelManager → ChannelManager × Option ManagerError
end_register adapter none m = (m, none)
end_register adapter (some reason) m =
    (record m { entries = delete adapter.id m.entries }, some (adapter_failed reason))

-- `register` with no call between.
unfoldable pub register :
    ChannelAdapter
    → Option String
    → Option String
    → ChannelManager
    → ChannelManager × Option ManagerError
unfolding begin_register end_register
register adapter attachment start_error m =
    let (m', failure) = begin_register adapter attachment m in
    elim failure [ some e ↦ (m', some e) | none ↦ end_register adapter start_error m' ]

-- The listener of an adapter's health, which also passes the sample on.
unfoldable pub handle_health : String → HealthSample → ChannelManager → ChannelManager
handle_health id sample m = elim (get id m.entries) [
  | none ↦ m
  | some e ↦ record m { entries = set id (record e { last_health = some sample }) m.entries }
]

abbrev pub stop_outcome : Option String → Option ManagerError
stop_outcome none = none
stop_outcome (some reason) = some (adapter_failed reason)

unfoldable pub unregister :
    String → Option String → ChannelManager → ChannelManager × Option ManagerError
unregister id stop_error m = elim (get id m.entries) [
  | none ↦ (m, some (unknown_channel id))
  | some e ↦ (
    record m { entries = delete id m.entries; aborted = e.adapter ∷ m.aborted },
    stop_outcome stop_error,
  )
]

-- `send` hands the message to the channel's adapter.
unfoldable pub send :
    String → (ChannelAdapter → SendResult) → ChannelManager → SendResult ⊎ ManagerError
send id answer m = elim (get id m.entries) [
  | none ↦ inr (unknown_channel id)
  | some e ↦ inl (answer e.adapter)
]

-- The loop of `stop`, where a failure is only logged.
unfoldable pub unregister_all :
    (String → Option String) → List String → ChannelManager → ChannelManager
unfolding unregister
unregister_all stop_error [] m = m
unregister_all stop_error (id ∷ ids) m =
    unregister_all stop_error ids (unregister id (stop_error id) m).0

unfoldable pub stop : (String → Option String) → ChannelManager → ChannelManager
unfolding unregister_all
stop stop_error m =
    let ids = map (λ (x : String × Entry). x.0) m.entries in
    if m.stopped then m else unregister_all stop_error (reverse ids) (record m { stopped = true })

-- `Set.has` and `Set.delete`
abbrev pub has : String → List String → Bool
has key keys = any (λ k. k == key) keys

abbrev pub remove : String → List String → List String
remove key keys = keep (λ k. not (k == key)) keys

-- `while (dedup.length > dedupMax) shift()`
unfoldable pub evict : ℕ → List String → List String → List String × List String
evict window [] keys = ([], keys)
evict window (k ∷ ks) keys =
    let rest = evict window ks (remove k keys) in
    if ltb window (length (k ∷ ks)) then rest else (k ∷ ks, keys)

-- The message that reaches the sink, with its attachment.
unfoldable pub handle_inbound :
    String
    → NormalizedInbound
    → ChannelManager
    → ChannelManager × Option (NormalizedInbound × Option String)
unfolding evict get_attachment_id
handle_inbound channel msg m =
    let key = msg.idempotency_key in
    let (dedup, keys) = evict m.dedup_max (m.dedup ++ key ∷ []) (m.dedup_set ++ key ∷ []) in
    let m' = record m { dedup = dedup; dedup_set = keys } in
    if has key m.dedup_set
    then (m, none)
    else if not m.has_sink
    then (m', none)
    else (m', some (msg, get_attachment_id channel m'))
