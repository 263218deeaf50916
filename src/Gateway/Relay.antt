-- ===== src/Gateway/Relay.antt =====
-- src/gateway/relay: permission and question requests that are raced over the channels.
-- `pendingRegistry.ts` is modelled in `Pending`, `coordinator.ts` here. Promises, abort controllers
-- and timers are numbers from one supply; what happens to them is recorded in the state. An adapter
-- answers, or its timer runs out, in a later call.
pub mod Pending
pub mod Race
pub mod Runs
pub mod Settled
pub mod Asked
use athena_flow_cli.Common.{
  nat_eq, ℕ, suc, ◌+◌, String, Option, none, some, List, [], ◌∷◌, ◌++◌, map, length, if◌then◌else◌,
  ◌==◌, string_eq, option_eq, Bool, true, false, not, ◌&&◌, ◌||◌, keep, is_some, or_else, leb,
}
use athena_flow_cli.Common.Dict.{Dict, get, set, delete}
use athena_flow_cli.Gateway.Relay.Pending.{
  RelayState, Kind, permission, question, Result, verdict, answer, cancelled, no_relay, Collision,
  Inspect, absent, attach, collision, inspect, register, settle, cancel, dispose_all, Entry,
  CancelReason, timed_out, auto_resolved, controllers_from,
}

-- The part of a `ChannelAdapter` that the coordinator reads.
pub record Adapter : Type 0 where
  pub id : String
  pub relay_permission : Bool
  pub relay_question : Bool
  pub has_verdict : Bool
  pub has_answer : Bool

-- A request of either kind; `fingerprint` is `JSON.stringify` of its payload. `ttl_ms` is absent for
-- the default, and `some none` for no timeout.
pub record Request : Type 0 where
  pub channel_request_id : Option String
  pub fingerprint : String
  pub ttl_ms : Option (Option ℕ)
  pub runtime_id : Option String

pub data Broadcast : Type 0 where
  unrelayed : (channel_request_id : String) → Broadcast
  promised : (channel_request_id : String) (promise : ℕ) → Broadcast
  threw : Collision → Broadcast

abbrev pub default_relay_ttl_ms : ℕ
default_relay_ttl_ms = 300000

abbrev pub can_relay : Kind → Adapter → Bool
can_relay permission a = a.relay_permission && a.has_verdict
can_relay question a = a.relay_question && a.has_answer

-- `req.ttlMs === null ? null : (req.ttlMs ?? this.defaultTtlMs)`
abbrev pub ttl_of : Option (Option ℕ) → ℕ → Option ℕ
ttl_of none default = some default
ttl_of (some t) default = t

-- The timer of a broadcast, and the timers that run.
abbrev pub timer_for : Option ℕ → ℕ → String → Option ℕ
timer_for none n id = none
timer_for (some ttl) n id = some n

abbrev pub start_timer : Option ℕ → String → List (ℕ × String) → List (ℕ × String)
start_timer none id ts = ts
start_timer (some n) id ts = (n, id) ∷ ts

unfoldable pub broadcast :
    RelayState → Kind → String → Option ℕ → Option String → String → List Adapter → RelayState × ℕ
unfolding register controllers_from
broadcast st kind id ttl runtime fingerprint targets =
    let promise = st.next in
    let timer = timer_for ttl (st.next + 1) id in
    let entry : Entry = record {
      kind = kind;
      channel_request_id = id;
      fingerprint = fingerprint;
      runtime_id = runtime;
      controllers = controllers_from (st.next + 2) targets;
      timer = timer;
      promise = promise;
      settled = false;
    } in
    (
      register
          (record st {
            timers = start_timer timer id st.timers;
            next = st.next + 2 + length targets;
          })
          entry,
      promise,
    )

unfoldable pub inspected :
    RelayState
    → Kind
    → String
    → Option ℕ
    → Request
    → List Adapter
    → Inspect
    → RelayState × Broadcast
unfolding broadcast
inspected st kind id ttl req targets absent =
    let (st', promise) = broadcast st kind id ttl req.runtime_id req.fingerprint targets in
    (st', promised id promise)
inspected st kind id ttl req targets (attach e) = (st, promised id e.promise)
inspected st kind id ttl req targets (collision c) = (st, threw c)

-- `requestPermission` and `requestQuestion` differ in the kind alone; `fresh` is what `idFactory`
-- gives.
unfoldable pub request :
    RelayState → Kind → List Adapter → Request → (fresh : String) → ℕ → RelayState × Broadcast
unfolding inspected inspect
request st kind adapters req fresh default_ttl =
    let id = or_else req.channel_request_id fresh in
    let targets = keep (can_relay kind) adapters in
    if length targets == 0
    then (st, unrelayed id)
    else inspected st kind id (ttl_of req.ttl_ms default_ttl) req targets
        (inspect st id kind req.fingerprint req.runtime_id)

-- `perAdapter`: a verdict, or an answer, under the adapter's name; anything else counts for nothing.
abbrev pub relevant : Kind → String → Result → Option Result
relevant permission adapter (verdict allowed c) = some (verdict allowed adapter)
relevant question adapter (answer text c) = some (answer text adapter)
relevant _ adapter _ = none

unfoldable pub settle_if : RelayState → String → Option Result → RelayState
unfolding settle
settle_if st id none = st
settle_if st id (some r) = (settle st id r).0

-- The promise of one adapter settles.
unfoldable pub adapter_answers : RelayState → Kind → String → String → Result → RelayState
unfolding settle_if
adapter_answers st kind id adapter r = settle_if st id (relevant kind adapter r)

-- The broadcast timer runs out, and is running no more.
unfoldable pub timer_fires : RelayState → ℕ → String → RelayState
unfolding settle
timer_fires st timer id =
    (settle (record st { timers = keep (λ t. not (t.0 == timer)) st.timers }) id
      (cancelled timed_out)).0
