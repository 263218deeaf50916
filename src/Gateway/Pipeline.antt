-- ===== src/Gateway/Pipeline.antt =====
-- src/gateway/dispatchPipeline.ts: a dispatch turn from the channel's inbound message to the runtime
-- and back. Each handler takes the time that it reads, and what `send` answers. Ids come from
-- `id_factory`, applied to a counter. Log and trace lines are left out; what is pushed to a
-- runtime's connection is appended to `pushes`.
pub mod Completion
pub mod Turns
pub mod Parked
pub mod Inbound
use athena_flow_cli.Common.{
  ℕ, suc, String, Option, none, some, List, [], ◌∷◌, ◌++◌, if◌then◌else◌, ◌==◌, string_eq,
}
use athena_flow_cli.Gateway.Types.{
  ChannelLocation, NormalizedInbound, OutboundMessage, AttachmentKey,
}
use athena_flow_cli.Gateway.BindingStore
use athena_flow_cli.Gateway.BindingStore.{
  Store, RegisteredRuntime, Push, BindInput, BindResult, bound, already_registered, Observed, Timer,
}
use athena_flow_cli.Gateway.SessionKey.{derive_session_key, ◌+s◌}
use athena_flow_cli.Gateway.SessionRegistry
use athena_flow_cli.Gateway.SessionRegistry.{
  Registry, DispatchEntry, CompleteDispatchResult, completed, unknown, runtime_mismatch,
}
use athena_flow_cli.Gateway.InboundQueue
use athena_flow_cli.Gateway.InboundQueue.{Queue, EnqueueResult, queued, duplicate, queue_full}
use athena_flow_cli.Gateway.OutboundDispatcher
use athena_flow_cli.Gateway.OutboundDispatcher.{Dispatcher, Sent, sent}

pub record DispatchTurn : Type 0 where
  pub dispatch_id : String
  pub session_key : String
  pub agent_id : String
  pub inbound : NormalizedInbound

pub record ControlPush : Type 0 where
  pub push_id : String
  pub ts : ℕ
  pub payload : DispatchTurn

pub record RunEvent : Type 0 where
  pub runtime_id : String
  pub run_id : String
  pub seq : ℕ
  pub ts : ℕ
  pub kind : String
  pub payload : Option String
  pub location : ChannelLocation

-- What the caller and the language supply: `resolveAgent` (of the session key, the channel and the
-- default agent), `idFactory`, `JSON.stringify` of a run event's envelope, and a number's digits.
pub record Options : Type 0 where
  pub resolve_agent : String → String → String → String
  pub id_factory : ℕ → String
  pub envelope_text : RunEvent → String
  pub show : ℕ → String

pub record Pipeline : Type 0 where
  pub bindings : Store
  pub registry : Registry
  pub inbound_queue : Queue
  pub dispatcher : Dispatcher
  pub ids_used : ℕ
  pub pushes : List (Push × ControlPush)

pub data DropReason : Type 0 where
  no_runtime no_default_agent queue_was_full : DropReason

pub data DispatchResult : Type 0 where
  dispatched : (dispatch_id session_key : String) → DispatchResult
  parked : (queue_id : ℕ) → DispatchResult
  dropped : DropReason → DispatchResult

-- `pushTo`: the envelope goes to the slot's handle, if it has one.
abbrev pub pushed :
    List (Push × ControlPush) → Option Push → ControlPush → List (Push × ControlPush)
pushed ps none env = ps
pushed ps (some handle) env = ps ++ (handle, env) ∷ []

pub push_dispatch : Options → Pipeline → AttachmentKey → DispatchTurn → ℕ → Pipeline
unfolding BindingStore.push_to
push_dispatch o p key payload now = record p {
  ids_used = suc p.ids_used;
  pushes =
      pushed p.pushes (BindingStore.push_to p.bindings key)
        (record { push_id = o.id_factory p.ids_used; ts = now; payload = payload });
}

unfoldable pub dispatch_inbound_to_runtime :
    Options
    → Pipeline
    → NormalizedInbound
    → RegisteredRuntime
    → AttachmentKey
    → ℕ
    → Pipeline × DispatchResult
unfolding push_dispatch derive_session_key SessionRegistry.begin_dispatch
dispatch_inbound_to_runtime o p inbound current key now =
    let session_key = derive_session_key inbound.location in
    let agent = o.resolve_agent session_key inbound.location.channel_id current.default_agent_id in
    let id = o.id_factory p.ids_used in
    let (r, entry) =
      SessionRegistry.begin_dispatch p.registry
        (record {
          session_key = session_key;
          agent_id = agent;
          runtime_id = current.runtime_id;
          attachment_key = key;
          location = inbound.location;
        })
        id now in
    if agent == "" then (p, dropped no_default_agent) else (
      push_dispatch o (record p { registry = r; ids_used = suc p.ids_used }) key
          (record {
            dispatch_id = id;
            session_key = session_key;
            agent_id = agent;
            inbound = inbound;
          })
          now,
      dispatched id session_key,
    )

-- The runtime of a slot whose connection is live.
pub live_runtime : Store → AttachmentKey → Option RegisteredRuntime
unfolding BindingStore.get_current_by_attachment BindingStore.has_active_binding_for_attachment
live_runtime st key =
    if BindingStore.has_active_binding_for_attachment st key
    then BindingStore.get_current_by_attachment st key
    else none

abbrev pub parked_result : EnqueueResult → DispatchResult
parked_result (queued id) = parked id
parked_result duplicate = dropped no_runtime
parked_result queue_full = dropped queue_was_full

pub park : Pipeline → NormalizedInbound → AttachmentKey → ℕ → Pipeline × DispatchResult
park p inbound key now =
    let (q, r) = InboundQueue.enqueue p.inbound_queue inbound key now in
    (record p { inbound_queue = q }, parked_result r)

pub route :
    Options
    → Pipeline
    → NormalizedInbound
    → AttachmentKey
    → ℕ
    → Option RegisteredRuntime
    → Pipeline × DispatchResult
unfolding park dispatch_inbound_to_runtime
route o p inbound key now none = park p inbound key now
route o p inbound key now (some current) = dispatch_inbound_to_runtime o p inbound current key now

unfoldable pub handle_inbound :
    Options → Pipeline → NormalizedInbound → AttachmentKey → ℕ → Pipeline × DispatchResult
unfolding route live_runtime
handle_inbound o p inbound key now = route o p inbound key now (live_runtime p.bindings key)

-- The loop of `drainPending`, and its two counters.
pub drain_each :
    Options
    → Pipeline
    → List (ℕ × NormalizedInbound)
    → RegisteredRuntime
    → AttachmentKey
    → ℕ
    → Pipeline
unfolding dispatch_inbound_to_runtime
drain_each o p [] current key now = p
drain_each o p ((id, inbound) ∷ rest) current key now =
    drain_each o (dispatch_inbound_to_runtime o p inbound current key now).0 rest current key now

pub drain_for : Options → Pipeline → AttachmentKey → ℕ → Option RegisteredRuntime → Pipeline
unfolding drain_each
drain_for o p key now none = p
drain_for o p key now (some current) =
    let (q, rows) = InboundQueue.drain p.inbound_queue key in
    drain_each o (record p { inbound_queue = q }) rows current key now

pub drain_pending : Options → Pipeline → AttachmentKey → ℕ → Pipeline
unfolding drain_for live_runtime
drain_pending o p key now = drain_for o p key now (live_runtime p.bindings key)

pub data Registered : Type 0 where
  registered : Pipeline → (registered_at : ℕ) → Registered
  refused : RegisteredRuntime → Registered

pub registered_with : Options → Pipeline → AttachmentKey → ℕ → BindResult → Registered
unfolding drain_pending
registered_with o p key now (bound st at observed) =
    registered (drain_pending o (record p { bindings = st }) key now) at
registered_with o p key now (already_registered r) = refused r

-- A registration always has a push handle, `handle`.
unfoldable pub register_runtime : Options → Pipeline → BindInput → (handle : Push) → ℕ → Registered
unfolding registered_with BindingStore.bind
register_runtime o p input handle now =
    registered_with o p input.attachment_id now
      (BindingStore.bind p.bindings (record input { push = some handle }) now)

-- `none` is the thrown NotRegisteredError.
unfoldable pub unregister_runtime : Pipeline → String → Option Pipeline
unfolding BindingStore.unbind SessionRegistry.clear_dispatches_for
unregister_runtime p id = elim (BindingStore.unbind p.bindings id) [
  | none ↦ none
  | some (st, observed) ↦
      some
        (record p { bindings = st; registry = SessionRegistry.clear_dispatches_for p.registry id })
]

unfoldable pub notify_connection_closed : Pipeline → String → ℕ → Pipeline
unfolding BindingStore.notify_connection_closed
notify_connection_closed p c now = record p {
  bindings = (BindingStore.notify_connection_closed p.bindings c now).0;
}

-- A grace timer of the binding store runs out.
unfoldable pub grace_expired : Pipeline → Timer → ℕ → Pipeline
unfolding BindingStore.fire
grace_expired p t now = record p { bindings = (BindingStore.fire p.bindings t now).0 }

unfoldable pub stop : Pipeline → Pipeline
unfolding BindingStore.stop OutboundDispatcher.stop
stop p = record p {
  bindings = BindingStore.stop p.bindings;
  dispatcher = OutboundDispatcher.stop p.dispatcher;
}
