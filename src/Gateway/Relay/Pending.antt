-- ===== src/Gateway/Relay/Pending.antt =====
-- src/gateway/relay/pendingRegistry.ts: the requests that wait for a verdict or an answer.
use athena_flow_cli.Common.{
  ℕ, ◌+◌, String, Option, none, some, List, [], ◌∷◌, map, length, if◌then◌else◌, ◌==◌, string_eq,
  option_eq, nat_eq, Bool, true, false, not, keep, any,
}
use athena_flow_cli.Common.Dict.{Dict, get, set, delete}

pub data Kind : Type 0 where
  permission question : Kind

pub data CancelReason : Type 0 where
  resolved_by_other_channel auto_resolved connection_lost timed_out : CancelReason

-- `verdict allow channel`, `answer answers channel`
pub data Result : Type 0 where
  verdict : (allow : Bool) (channel_id : String) → Result
  answer : (answers : List (String × String)) (channel_id : String) → Result
  cancelled : CancelReason → Result
  no_relay : Result

pub record Entry : Type 0 where
  pub kind : Kind
  pub channel_request_id : String
  pub fingerprint : String
  pub runtime_id : Option String
  pub controllers : List ℕ
  pub timer : Option ℕ
  pub promise : ℕ
  pub settled : Bool

-- The entries, and what has become of the promises, controllers and timers.
pub record RelayState : Type 0 where
  pub entries : Dict String Entry
  pub resolved : List (ℕ × Result)
  pub aborted : List ℕ
  pub timers : List (ℕ × String)
  pub next : ℕ

abbrev pub start : RelayState
start = record { entries = []; resolved = []; aborted = []; timers = []; next = 0 }

pub data Collision : Type 0 where
  kind_differs payload_differs owner_differs : Collision

pub data Inspect : Type 0 where
  absent : Inspect
  attach : Entry → Inspect
  collision : Collision → Inspect

abbrev pub same_kind : Kind → Kind → Bool
same_kind permission permission = true
same_kind question question = true
same_kind _ _ = false

unfoldable pub inspect_entry : Kind → String → Option String → Option Entry → Inspect
inspect_entry kind fingerprint runtime none = absent
inspect_entry kind fingerprint runtime (some e) =
    if not (same_kind e.kind kind)
    then collision kind_differs
    else if not (e.fingerprint == fingerprint)
    then collision payload_differs
    else if not (e.runtime_id == runtime)
    then collision owner_differs
    else attach e

unfoldable pub inspect : RelayState → String → Kind → String → Option String → Inspect
unfolding inspect_entry get
inspect st id kind fingerprint runtime = inspect_entry kind fingerprint runtime (get id st.entries)

unfoldable pub register : RelayState → Entry → RelayState
unfolding set
register st e = record st { entries = set e.channel_request_id e st.entries }

-- one new controller for each target
unfoldable pub controllers_from {ℓ} : {A : Type ℓ} → ℕ → List A → List ℕ
controllers_from n [] = []
controllers_from n (a ∷ as') = n ∷ controllers_from (n + 1) as'

-- `if (!ctrl.signal.aborted) ctrl.abort()` for each controller
unfoldable pub abort_all : List ℕ → List ℕ → List ℕ
abort_all [] aborted = aborted
abort_all (c ∷ cs) aborted =
    abort_all cs (if any (λ a. a == c) aborted then aborted else c ∷ aborted)

unfoldable pub clear_timeout : Option ℕ → List (ℕ × String) → List (ℕ × String)
clear_timeout none ts = ts
clear_timeout (some n) ts = keep (λ t. not (t.0 == n)) ts

unfoldable pub settle_entry : RelayState → String → Result → Option Entry → RelayState × Bool
unfolding abort_all clear_timeout delete
settle_entry st id r none = (st, false)
settle_entry st id r (some e) = if e.settled then (st, false) else (
  record st {
    entries = delete id st.entries;
    timers = clear_timeout e.timer st.timers;
    aborted = abort_all e.controllers st.aborted;
    resolved = (e.promise, r) ∷ st.resolved;
  },
  true,
)

unfoldable pub settle : RelayState → String → Result → RelayState × Bool
unfolding settle_entry get
settle st id r = settle_entry st id r (get id st.entries)

-- Both sides name a runtime, and not the same one.
abbrev pub foreign : Option String → Option String → Bool
foreign (some expected) (some owner) = not (owner == expected)
foreign _ _ = false

unfoldable pub cancel_entry :
    RelayState → String → CancelReason → Option String → Option Entry → RelayState × Bool
unfolding settle
cancel_entry st id reason expected none = (st, false)
cancel_entry st id reason expected (some e) =
    if foreign expected e.runtime_id then (st, false) else settle st id (cancelled reason)

unfoldable pub cancel : RelayState → String → CancelReason → Option String → RelayState × Bool
unfolding cancel_entry get
cancel st id reason expected = cancel_entry st id reason expected (get id st.entries)

unfoldable pub cancel_each : RelayState → List String → CancelReason → RelayState
unfolding cancel
cancel_each st [] reason = st
cancel_each st (id ∷ ids) reason = cancel_each (cancel st id reason none).0 ids reason

unfoldable pub dispose_all : RelayState → CancelReason → RelayState
unfolding cancel_each
dispose_all st reason = cancel_each st (map (λ e. e.0) st.entries) reason

pub count : RelayState → ℕ
count st = length st.entries
