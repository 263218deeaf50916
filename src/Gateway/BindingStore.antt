-- ===== src/Gateway/BindingStore.antt =====
-- src/gateway/runtimeBindingStore.ts: one runtime per attachment slot.
-- A method takes the time that it reads and returns the new store. `setTimeout` adds to `timers`,
-- `clearTimeout` takes away, and `fire` is the event loop running one of them. A push handle is
-- known by a number. Observer calls are returned in order.
pub mod Timers
pub mod WellFormed
pub mod Preserved
pub mod Expiry
pub mod Lifecycle
pub mod Opened
use athena_flow_cli.Common.{
  ℕ, suc, ◌+◌, String, Bool, true, false, not, ◌&&◌, ◌||◌, Option, none, some, List, [], ◌∷◌, map,
  ℤ, sub_ℕ, if◌then◌else◌, ◌==◌, string_eq, option_eq, nat_eq, is_some, find, keep,
}
use mathlib.Core.Option
use athena_flow_cli.Common.Dict.{Dict, get, set, delete}
use athena_flow_cli.Gateway.Types.{AttachmentKey}

pub record RegisteredRuntime : Type 0 where
  pub runtime_id : String
  pub default_agent_id : String
  pub pid : ℕ
  pub registered_at : ℕ
  pub attachment_id : AttachmentKey

-- `active connection bound_at epoch last_rebind_at` and `stale connection stale_since epoch
-- last_rebind_at`.
pub data Binding : Type 0 where
  active : (connection_id : String) (bound_at epoch : ℕ) (last_rebind_at : Option ℕ) → Binding
  stale : (connection_id : String) (stale_since epoch : ℕ) (last_rebind_at : Option ℕ) → Binding

abbrev pub connection_of : Binding → String
connection_of (active c t e r) = c
connection_of (stale c t e r) = c

abbrev pub epoch_of : Binding → ℕ
epoch_of (active c t e r) = e
epoch_of (stale c t e r) = e

abbrev pub last_rebind_of : Binding → Option ℕ
last_rebind_of (active c t e r) = r
last_rebind_of (stale c t e r) = r

abbrev pub is_active : Binding → Bool
is_active (active c t e r) = true
is_active (stale c t e r) = false

abbrev pub Push : Type 0
Push = ℕ

pub record Slot : Type 0 where
  pub runtime : RegisteredRuntime
  pub binding : Option Binding
  pub push : Option Push
  pub stale_timer : Option ℕ
  pub stale_since : Option ℕ

-- A pending `setTimeout` of `expireStaleBinding(key, runtimeId)`.
pub record Timer : Type 0 where
  pub timer_id : ℕ
  pub fires_at : ℕ
  pub key : AttachmentKey
  pub runtime_id : String

pub record Store : Type 0 where
  pub slots : Dict AttachmentKey Slot
  pub grace_period_ms : ℕ
  pub timers : List Timer
  pub next_timer : ℕ

pub data Observed : Type 0 where
  runtime_rebind : (runtime_id : String) (gap_ms : ℤ) (epoch : ℕ) → Observed
  runtime_expired : (runtime_id : String) (gap_ms : ℤ) → Observed
  runtime_connection_lost : (runtime_id : String) (graceful : Bool) → Observed

unfoldable pub init : ℕ → Store
init grace = record { slots = []; grace_period_ms = grace; timers = []; next_timer = 0 }

-- `clearTimeout` of a handle that may be null
pub clear_timeout : Option ℕ → List Timer → List Timer
clear_timeout none ts = ts
clear_timeout (some i) ts = keep (λ t. not (t.timer_id == i)) ts

-- `clearStaleTimerForSlot`: the slot, and the timers that stay
pub clear_stale_timer_for_slot : Slot → Slot
clear_stale_timer_for_slot s = record s { stale_timer = none; stale_since = none }

pub record BindInput : Type 0 where
  pub runtime_id : String
  pub default_agent_id : String
  pub pid : ℕ
  pub connection_id : String
  pub attachment_id : AttachmentKey
  pub push : Option Push

-- The thrown error carries the runtime that holds the slot.
pub data BindResult : Type 0 where
  bound : (store : Store) (registered_at : ℕ) (observed : List Observed) → BindResult
  already_registered : RegisteredRuntime → BindResult

pub is_rebind : Binding → String → Bool
is_rebind (stale c t e r) connection = true
is_rebind (active c t e r) connection = not (c == connection)

pub next_binding : Option Binding → String → ℕ → Binding
unfolding is_rebind
next_binding none connection now = active connection now 1 none
next_binding (some b) connection now =
    let rebind = is_rebind b connection in
    active connection now (epoch_of b + (if rebind then 1 else 0))
      (if rebind then some now else last_rebind_of b)

-- `onRuntimeRebind` is called if the slot was stale.
pub rebind_observed : Option Binding → BindInput → ℕ → List Observed
unfolding next_binding
rebind_observed (some (stale c since e r)) input now =
    runtime_rebind input.runtime_id (sub_ℕ now since)
      (epoch_of (next_binding (some (stale c since e r)) input.connection_id now))
    ∷ []
rebind_observed (some (active c t e r)) input now = []
rebind_observed none input now = []

pub or_keep : Option Push → Option Push → Option Push
or_keep none old = old
or_keep (some p) old = some p

pub bind_slot : Store → BindInput → ℕ → Option Slot → BindResult
unfolding next_binding rebind_observed clear_stale_timer_for_slot clear_timeout or_keep set
bind_slot st input now none =
    bound
      (record st {
        slots =
            set input.attachment_id
              (record {
                runtime = record {
                  runtime_id = input.runtime_id;
                  default_agent_id = input.default_agent_id;
                  pid = input.pid;
                  registered_at = now;
                  attachment_id = input.attachment_id;
                };
                binding = some (next_binding none input.connection_id now);
                push = input.push;
                stale_timer = none;
                stale_since = none;
              })
              st.slots;
      })
      now []
bind_slot st input now (some existing) =
    if existing.runtime.runtime_id == input.runtime_id
    then bound
        (record st {
          slots =
              set input.attachment_id
                (clear_stale_timer_for_slot (record existing {
                  runtime = record existing.runtime {
                    default_agent_id = input.default_agent_id;
                    pid = input.pid;
                  };
                  binding = some (next_binding existing.binding input.connection_id now);
                  push = or_keep input.push existing.push;
                }))
                st.slots;
          timers = clear_timeout existing.stale_timer st.timers;
        })
        existing.runtime.registered_at (rebind_observed existing.binding input now)
    else already_registered existing.runtime

unfoldable pub bind : Store → BindInput → ℕ → BindResult
unfolding bind_slot get
bind st input now = bind_slot st input now (get input.attachment_id st.slots)

unfoldable pub find_slot_by_runtime_id : Store → String → Option (AttachmentKey × Slot)
find_slot_by_runtime_id st id = find (λ e. e.1.runtime.runtime_id == id) st.slots

pub bound_to : String → Option Binding → Bool
bound_to c none = false
bound_to c (some b) = connection_of b == c

unfoldable pub find_slot_by_connection_id : Store → String → Option (AttachmentKey × Slot)
unfolding bound_to
find_slot_by_connection_id st c = find (λ e. bound_to c e.1.binding) st.slots

-- `none` is the thrown NotRegisteredError.
pub unbind_slot : Store → String → Option (AttachmentKey × Slot) → Option (Store × List Observed)
unfolding clear_timeout delete
unbind_slot st id none = none
unbind_slot st id (some (key, slot)) = some (
  record st { slots = delete key st.slots; timers = clear_timeout slot.stale_timer st.timers },
  runtime_connection_lost id true ∷ [],
)

unfoldable pub unbind : Store → String → Option (Store × List Observed)
unfolding unbind_slot find_slot_by_runtime_id
unbind st id = unbind_slot st id (find_slot_by_runtime_id st id)

-- The binding of a connection that was lost.
pub stale_binding : Option Binding → String → ℕ → Binding
stale_binding none c now = stale c now 0 none
stale_binding (some b) c now = stale c now (epoch_of b) (last_rebind_of b)

pub closed_slot : Slot → String → ℕ → ℕ → Slot
unfolding stale_binding
closed_slot s c now timer = record s {
  binding = some (stale_binding s.binding c now);
  push = none;
  stale_timer = some timer;
  stale_since = some now;
}

pub close_slot :
    Store → String → ℕ → Option (AttachmentKey × Slot) → Store × Option String × List Observed
unfolding closed_slot set delete
close_slot st c now none = (st, none, [])
close_slot st c now (some (key, slot)) =
    let id = slot.runtime.runtime_id in
    if st.grace_period_ms == 0
    then (record st { slots = delete key st.slots }, some id, runtime_connection_lost id false ∷ [])
    else (
      record st {
        slots = set key (closed_slot slot c now st.next_timer) st.slots;
        timers =
            record {
              timer_id = st.next_timer;
              fires_at = now + st.grace_period_ms;
              key = key;
              runtime_id = id;
            }
            ∷ st.timers;
        next_timer = suc st.next_timer;
      },
      some id,
      [],
    )

unfoldable pub notify_connection_closed : Store → String → ℕ → Store × Option String × List Observed
unfolding close_slot find_slot_by_connection_id
notify_connection_closed st c now = close_slot st c now (find_slot_by_connection_id st c)

-- `stop`: every slot's timer is cleared, and its slot keeps its binding.
pub stop_slots : Dict AttachmentKey Slot → Dict AttachmentKey Slot
unfolding clear_stale_timer_for_slot
stop_slots [] = []
stop_slots ((k, s) ∷ m) = (k, clear_stale_timer_for_slot s) ∷ stop_slots m

pub stop_timers : Dict AttachmentKey Slot → List Timer → List Timer
unfolding clear_timeout
stop_timers [] ts = ts
stop_timers ((k, s) ∷ m) ts = stop_timers m (clear_timeout s.stale_timer ts)

unfoldable pub stop : Store → Store
unfolding stop_slots stop_timers
stop st = record st { slots = stop_slots st.slots; timers = stop_timers st.slots st.timers }

abbrev pub is_bound : Option Binding → Bool
is_bound none = false
is_bound (some b) = is_active b

unfoldable pub has_active_binding_for_attachment : Store → AttachmentKey → Bool
unfolding get
has_active_binding_for_attachment st key = elim (get key st.slots) [
  | none ↦ false
  | some s ↦ is_bound s.binding
]

unfoldable pub has_active_binding : Store → Option String → Bool
unfolding get
has_active_binding st id = elim (get {K = AttachmentKey} none st.slots) [
  | none ↦ false
  | some s ↦ is_bound s.binding && (not (is_some id) || some s.runtime.runtime_id == id)
]

unfoldable pub get_current_by_attachment : Store → AttachmentKey → Option RegisteredRuntime
unfolding get
get_current_by_attachment st key = Option.map (λ s. s.runtime) (get key st.slots)

-- The handle that receives the envelope, if the slot has one.
unfoldable pub push_to : Store → AttachmentKey → Option Push
unfolding get
push_to st key = elim (get key st.slots) [ none ↦ none | some s ↦ s.push ]

unfoldable pub snapshot : Store → List (AttachmentKey × RegisteredRuntime × Option Binding)
snapshot st = map (λ e. (e.0, e.1.runtime, e.1.binding)) st.slots

unfoldable pub get_attachment_key_by_runtime_id :
    Store → String → Option (AttachmentKey × RegisteredRuntime)
unfolding find_slot_by_runtime_id
get_attachment_key_by_runtime_id st id =
    Option.map (λ e. (e.0, e.1.runtime)) (find_slot_by_runtime_id st id)

unfoldable pub get_runtime_id_by_connection : Store → String → Option String
unfolding find_slot_by_connection_id
get_runtime_id_by_connection st c =
    Option.map (λ e. e.1.runtime.runtime_id) (find_slot_by_connection_id st c)

expired_observed : String → Option ℕ → ℕ → List Observed
expired_observed id none now = []
expired_observed id (some since) now = runtime_expired id (sub_ℕ now since) ∷ []

pub expire_slot : Store → AttachmentKey → String → ℕ → Option Slot → Store × List Observed
unfolding expired_observed clear_stale_timer_for_slot set delete
expire_slot st key id now none = (st, [])
expire_slot st key id now (some s) =
    if not (s.runtime.runtime_id == id) || is_bound s.binding
    then (record st { slots = set key (clear_stale_timer_for_slot s) st.slots }, [])
    else (
      record st { slots = delete key st.slots },
      runtime_connection_lost id false ∷ expired_observed id s.stale_since now,
    )

pub expire_stale_binding : Store → AttachmentKey → String → ℕ → Store × List Observed
unfolding expire_slot get
expire_stale_binding st key id now = expire_slot st key id now (get key st.slots)

-- The event loop runs a pending timer, which is pending no more.
unfoldable pub fire : Store → Timer → ℕ → Store × List Observed
unfolding expire_stale_binding clear_timeout
fire st t now =
    expire_stale_binding (record st { timers = clear_timeout (some t.timer_id) st.timers }) t.key
      t.runtime_id now
