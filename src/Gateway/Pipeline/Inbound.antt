-- ===== src/Gateway/Pipeline/Inbound.antt =====
-- What becomes of one inbound message.
use athena_flow_cli.Common.{
  ==-false_of_ne, ==-true_of_eq, ℕ, suc, String, ◌≡◌, refl, ◌≢◌, Option, none, some, string_eq,
  Bool, true, false, if◌then◌else◌, option_eq, Bool-cases, Option-cases, inl, inr, arith,
}
use athena_flow_cli.Common.Dict.{get, get-set_self}
use athena_flow_cli.Gateway.Types.{AttachmentKey, NormalizedInbound}
use athena_flow_cli.Gateway.BindingStore.{
  RegisteredRuntime, Store, Slot, Binding, active, stale, is_bound, push_to,
  has_active_binding_for_attachment, get_current_by_attachment,
}
use athena_flow_cli.Gateway.BindingStore.Opened.{has_active_of, current_of}
use athena_flow_cli.Gateway.SessionKey.{derive_session_key}
use athena_flow_cli.Gateway.SessionRegistry.{entry_of}
use athena_flow_cli.Gateway.InboundQueue
use athena_flow_cli.Gateway.InboundQueue.{EnqueueResult, queued, duplicate, queue_full}
use athena_flow_cli.Gateway.Pipeline.{
  Options, Pipeline, DispatchResult, dispatched, parked, dropped, no_runtime, no_default_agent,
  queue_was_full, handle_inbound, route, park, live_runtime, dispatch_inbound_to_runtime,
  push_dispatch, pushed, parked_result,
}

-- The agent that a message resolves to under a runtime.
abbrev pub agent_of : Options → NormalizedInbound → RegisteredRuntime → String
agent_of o m rt =
    o.resolve_agent (derive_session_key m.location) m.location.channel_id rt.default_agent_id

-- The slot's runtime has an open connection.
abbrev pub IsOpen : Option Binding → Type 0
IsOpen none = ⊥
IsOpen (some (active c t e r)) = Unit
IsOpen (some (stale c t e r)) = ⊥

-- The runtime holds the slot at the key over an open connection.
abbrev pub Live : Store → AttachmentKey → RegisteredRuntime → Type 0
Live st key rt = (s : Slot) × (get key st.slots ≡ some s) × (s.runtime ≡ rt) × IsOpen s.binding

-- No slot at the key has an open connection.
abbrev pub Closed : Store → AttachmentKey → Type 0
Closed st key = (s : Slot) → get key st.slots ≡ some s → ¬ IsOpen s.binding

is_bound-IsOpen : (b : Option Binding) → is_bound b ≡ true → IsOpen b
is_bound-IsOpen none h = cc
is_bound-IsOpen (some (active c t e r)) h = tt
is_bound-IsOpen (some (stale c t e r)) h = cc

IsOpen-is_bound : (b : Option Binding) → IsOpen b → is_bound b ≡ true
IsOpen-is_bound none h = absurd h
IsOpen-is_bound (some (active c t e r)) h = refl
IsOpen-is_bound (some (stale c t e r)) h = absurd h

none_either_way : (b : Bool) → Path (Option RegisteredRuntime) (if b then none else none) none
none_either_way true = refl
none_either_way false = refl

current_none :
    (st : Store) (key : AttachmentKey)
    → get key st.slots ≡ none
    → get_current_by_attachment st key ≡ none
unfolding get_current_by_attachment
current_none st key e = rw e refl

no_slot : (st : Store) (key : AttachmentKey) → get key st.slots ≡ none → live_runtime st key ≡ none
unfolding live_runtime
no_slot st key e =
    rw (current_none st key e) (none_either_way (has_active_binding_for_attachment st key))

slot_there :
    (st : Store) (key : AttachmentKey) (s : Slot)
    → get key st.slots ≡ some s
    → live_runtime st key ≡ (if is_bound s.binding then some s.runtime else none)
unfolding live_runtime
slot_there st key s e = rw (has_active_of st key s e, current_of st key s e) refl

live_runtime-Live :
    (st : Store) (key : AttachmentKey) (rt : RegisteredRuntime)
    → live_runtime st key ≡ some rt
    → Live st key rt
live_runtime-Live st key rt h = elim (Option-cases (get key st.slots)) [
  | inl e ↦ cc (h, no_slot st key e)
  | inr (s, e) ↦
      let there = slot_there st key s e in
      elim (Bool-cases (is_bound s.binding)) [
        | inl b ↦ (s, e, (ground (arith, h, there, b)), is_bound-IsOpen s.binding b)
        | inr b ↦ absurd (ground (arith, h, there, b))
      ]
]

live_runtime-Closed :
    (st : Store) (key : AttachmentKey) → live_runtime st key ≡ none → Closed st key
live_runtime-Closed st key h s e o =
    ground (arith, h, slot_there st key s e, IsOpen-is_bound s.binding o)

-- What an answer says of the pipeline before and after.
module _ (o : Options) (p : Pipeline) (m : NormalizedInbound) (key : AttachmentKey) (now : ℕ) where
  abbrev pub Parks : EnqueueResult → Pipeline → Type 0
  Parks r p' =
      Closed p.bindings key
      × (InboundQueue.enqueue p.inbound_queue m key now ≡ (p'.inbound_queue, r))
      × (p'.registry ≡ p.registry)
      × (p'.pushes ≡ p.pushes)

  abbrev pub Handles : Pipeline → DispatchResult → Type 0
  Handles p' (dispatched id session_key) =
      (rt : RegisteredRuntime) × Live p.bindings key rt
      × (agent_of o m rt ≢ "")
      × (session_key ≡ derive_session_key m.location)
      × (get id p'.registry
          ≡ some (
              entry_of
                (record {
                  session_key = session_key;
                  agent_id = agent_of o m rt;
                  runtime_id = rt.runtime_id;
                  attachment_key = key;
                  location = m.location;
                })
                id now))
      × (p'.pushes
          ≡ pushed p.pushes (push_to p.bindings key) (record {
            push_id = o.id_factory (suc p.ids_used);
            ts = now;
            payload = record {
              dispatch_id = id;
              session_key = session_key;
              agent_id = agent_of o m rt;
              inbound = m;
            };
          }))
      × (p'.inbound_queue ≡ p.inbound_queue)
  Handles p' (parked n) = Parks (queued n) p'
  Handles p' (dropped no_runtime) = Parks duplicate p'
  Handles p' (dropped queue_was_full) = Parks queue_full p'
  Handles p' (dropped no_default_agent) =
      (rt : RegisteredRuntime) × Live p.bindings key rt × (agent_of o m rt ≡ "") × (p' ≡ p)

  park-Handles : (r : EnqueueResult) (p' : Pipeline) → Parks r p' → Handles p' (parked_result r)
  park-Handles (queued n) p' h = h
  park-Handles duplicate p' h = h
  park-Handles queue_full p' h = h

  route-Handles :
      (rt : Option RegisteredRuntime)
      → live_runtime p.bindings key ≡ rt
      → Handles (route o p m key now rt).0 (route o p m key now rt).1
  unfolding route park dispatch_inbound_to_runtime push_dispatch
  route-Handles none e =
      park-Handles (InboundQueue.enqueue p.inbound_queue m key now).1 _
        (live_runtime-Closed p.bindings key e, refl, refl, refl)
  route-Handles (some rt) e = elim (string_eq.dec (agent_of o m rt) "") [
    | yes empty ↦
        rw (==-true_of_eq (agent_of o m rt) "" empty)
          (rt, live_runtime-Live p.bindings key rt e, empty, refl)
    | no named ↦ rw (==-false_of_ne (agent_of o m rt) "" named) (
      rt,
      live_runtime-Live p.bindings key rt e,
      named,
      refl,
      get-set_self (o.id_factory p.ids_used) _ p.registry,
      refl,
      refl,
    )
  ]

-- An inbound message goes to the slot's runtime only while the slot's binding is active: then, unless no
-- agent is named, its turn is parked under the session key and the location that it came from,
-- and pushed to the slot's handle. With no active binding there it is queued, or dropped as a
-- duplicate or for a full queue, and then no turn begins and nothing is pushed.
pub handle_inbound-Handles :
    (o : Options) (p : Pipeline) (m : NormalizedInbound) (key : AttachmentKey) (now : ℕ)
    → Handles o p m key now (handle_inbound o p m key now).0 (handle_inbound o p m key now).1
unfolding handle_inbound
handle_inbound-Handles o p m key now = route-Handles o p m key now _ refl
