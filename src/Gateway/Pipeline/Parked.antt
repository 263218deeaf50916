-- ===== src/Gateway/Pipeline/Parked.antt =====
-- What a registration does to the messages that were parked for its slot.
use athena_flow_cli.Common.{
  ==-false_of_ne, ℕ, String, ◌≡◌, refl, sym, ap, ◌∙◌, ◌≢◌, some, List, [], ◌∷◌, ◌++◌, map, keep,
  append_assoc, append-nil, true, string_eq, option_eq, All, map-append_lem, not,
}
use athena_flow_cli.Gateway.Types.{AttachmentKey, NormalizedInbound}
use athena_flow_cli.Gateway.BindingStore.{
  RegisteredRuntime, Store, Push, BindInput, BindResult, bound, already_registered, push_to,
  has_active_binding_for_attachment, get_current_by_attachment,
}
use athena_flow_cli.Gateway.SessionKey.{derive_session_key}
use athena_flow_cli.Gateway.InboundQueue
use athena_flow_cli.Gateway.InboundQueue.{Queue, parked_for}
use athena_flow_cli.Gateway.InboundQueue.Laws.{Inv, drain_fifo, drain_twice}
use athena_flow_cli.Gateway.Pipeline.{
  Options, Pipeline, ControlPush, Registered, registered, refused, register_runtime,
  registered_with, drain_pending, drain_for, drain_each, dispatch_inbound_to_runtime, push_dispatch,
  live_runtime,
}
use athena_flow_cli.Gateway.BindingStore.Opened.{Opens, bind-Opens}

-- A message with the handle that it was pushed to.
abbrev pub delivered_to : Push × ControlPush → Push × NormalizedInbound
delivered_to e = (e.0, e.1.payload.inbound)

-- The agent that a message resolves to is not the empty name.
abbrev pub Resolves : Options → String → NormalizedInbound → Type 0
Resolves o default m =
    o.resolve_agent (derive_session_key m.location) m.location.channel_id default ≢ ""

-- One dispatch pushes its message to the slot's handle, and touches no queue and no slot.
dispatch-pushes :
    (o : Options) (p : Pipeline) (m : NormalizedInbound) (rt : RegisteredRuntime)
    (key : AttachmentKey) (now : ℕ) (handle : Push)
    → Resolves o rt.default_agent_id m
    → push_to p.bindings key ≡ some handle
    → let p' = (dispatch_inbound_to_runtime o p m rt key now).0 in
      (map delivered_to p'.pushes ≡ map delivered_to p.pushes ++ (handle, m) ∷ [])
      × (p'.bindings ≡ p.bindings)
      × (p'.inbound_queue ≡ p.inbound_queue)
unfolding dispatch_inbound_to_runtime push_dispatch
dispatch-pushes o p m rt key now handle ne h =
    rw (==-false_of_ne _ "" ne) (rw h (map-append_lem delivered_to p.pushes _), refl, refl)

drain_each-pushes :
    (o : Options) (p : Pipeline) (rows : List (ℕ × NormalizedInbound)) (rt : RegisteredRuntime)
    (key : AttachmentKey) (now : ℕ) (handle : Push)
    → All (λ r. Resolves o rt.default_agent_id r.1) rows
    → push_to p.bindings key ≡ some handle
    → let p' = drain_each o p rows rt key now in
      (map delivered_to p'.pushes ≡ map delivered_to p.pushes ++ map (λ r. (handle, r.1)) rows)
      × (p'.bindings ≡ p.bindings)
      × (p'.inbound_queue ≡ p.inbound_queue)
unfolding drain_each
drain_each-pushes o p [] rt key now handle h e = (sym (append-nil _), refl, refl)
drain_each-pushes o p ((i, m) ∷ rows) rt key now handle (h, hs) e =
    let p1 = (dispatch_inbound_to_runtime o p m rt key now).0 in
    let (pushed1, same_slots, same_queue) = dispatch-pushes o p m rt key now handle h e in
    let (pushed2, slots2, queue2) =
      drain_each-pushes o p1 rows rt key now handle hs (rw same_slots e) in
    (
      pushed2
          ∙ ap (λ l. l ++ map (λ r. (handle, r.1)) rows) pushed1
          ∙ append_assoc (map delivered_to p.pushes) ((handle, m) ∷ [])
              (map (λ r. (handle, r.1)) rows),
      slots2 ∙ same_slots,
      queue2 ∙ same_queue,
    )

live_of :
    (st : Store) (key : AttachmentKey) (rt : RegisteredRuntime)
    → has_active_binding_for_attachment st key ≡ true
    → get_current_by_attachment st key ≡ some rt
    → live_runtime st key ≡ some rt
unfolding live_runtime
live_of st key rt a e = rw a e

taken : InboundQueue.Row → ℕ × NormalizedInbound
taken r = (r.id, r.inbound)

All-taken :
    (P : NormalizedInbound → Type 0) (rs : List InboundQueue.Row)
    → All (λ r. P r.inbound) rs
    → All (λ r. P r.1) (map taken rs)
unfolding taken
All-taken P [] h = tt
All-taken P (r ∷ rs) h = (h.0, All-taken P rs h.1)

abbrev pub to : Push → ℕ × NormalizedInbound → Push × NormalizedInbound
to handle r = (handle, r.1)

map-taken :
    (handle : Push) (rs : List InboundQueue.Row)
    → map (to handle) (map taken rs) ≡ map (λ r. (handle, r.inbound)) rs
unfolding taken
map-taken handle [] = refl
map-taken handle (r ∷ rs) = ap (◌∷◌ (handle, r.inbound)) (map-taken handle rs)

drained_rows :
    (q : Queue) (key : AttachmentKey)
    → Inv q
    → (InboundQueue.drain q key).1 ≡ map taken (keep (parked_for key) q.rows)
unfolding taken
drained_rows q key v = (drain_fifo q key v).0

-- What the new connection received, and what the queue still holds.
pub record Flushed (p : Pipeline) (key : AttachmentKey) (handle : Push) (p' : Pipeline)
    : Type 0 where
  pub received :
      map delivered_to p'.pushes
      ≡ map delivered_to p.pushes
        ++ map (λ r. (handle, r.inbound)) (keep (parked_for key) p.inbound_queue.rows)
  pub emptied : (InboundQueue.drain p'.inbound_queue key).1 ≡ []
  pub others : p'.inbound_queue.rows ≡ keep (λ r. not (parked_for key r)) p.inbound_queue.rows

drained_to :
    (o : Options) (p : Pipeline) (key : AttachmentKey) (now : ℕ) (handle : Push)
    (rt : RegisteredRuntime)
    → Inv p.inbound_queue
    → All
        (λ r. Resolves o rt.default_agent_id r.inbound)
        (keep (parked_for key) p.inbound_queue.rows)
    → push_to p.bindings key ≡ some handle
    → Flushed p key handle (drain_for o p key now (some rt))
unfolding drain_for
drained_to o p key now handle rt v h e =
    let q = (InboundQueue.drain p.inbound_queue key).0 in
    let rows = (InboundQueue.drain p.inbound_queue key).1 in
    let all_resolve : All (λ r. Resolves o rt.default_agent_id r.1) rows =
      rw (drained_rows p.inbound_queue key v) (
        All-taken (Resolves o rt.default_agent_id) (keep (parked_for key) p.inbound_queue.rows)
          h) in
    let (got, slots, queue) =
      drain_each-pushes o (record p { inbound_queue = q }) rows rt key now handle all_resolve e in
    record {
      received =
          got
          ∙ ap
              (λ l.
                map delivered_to p.pushes ++ map (λ (r : ℕ × NormalizedInbound). (handle, r.1)) l)
              (drained_rows p.inbound_queue key v)
          ∙ ap (◌++◌ (map delivered_to p.pushes))
              (map-taken handle (keep (parked_for key) p.inbound_queue.rows));
      emptied = rw queue (drain_twice p.inbound_queue key v);
      others =
          ap (λ (t : Queue). t.rows) queue
          ∙ ap (λ (t : Queue). t.rows) (drain_fifo p.inbound_queue key v).1;
    }

-- A refused registration leaves the pipeline to its slot's runtime.
abbrev pub Flushes : Pipeline → AttachmentKey → Push → Registered → Type 0
Flushes p key handle (refused r) = Unit {0}
Flushes p key handle (registered p' at) = Flushed p key handle p'

registered_with-Flushed :
    (o : Options) (p : Pipeline) (key : AttachmentKey) (now : ℕ) (handle : Push) (default : String)
    (r : BindResult)
    → Inv p.inbound_queue
    → All (λ r. Resolves o default r.inbound) (keep (parked_for key) p.inbound_queue.rows)
    → Opens key handle default r
    → Flushes p key handle (registered_with o p key now r)
unfolding registered_with drain_pending
registered_with-Flushed o p key now handle default (already_registered r) v h w = tt
registered_with-Flushed o p key now handle default (bound st at os) v h
      (pushes, active, (rt, current, agent)) =
    let flushed =
      drained_to o (record p { bindings = st }) key now handle rt v (rw agent h) pushes in
    rw (live_of st key rt active current)
      (record { received = flushed.received; emptied = flushed.emptied; others = flushed.others })

-- When the inbound queue meets its invariant, a registration succeeds, and every message parked for its slot resolves to an agent, those
-- messages are pushed to the new connection in the order of arrival, each once, after all earlier
-- pushes; none stays parked for the slot, and the messages of other slots stay.
pub register_runtime-Flushes :
    (o : Options) (p : Pipeline) (input : BindInput) (handle : Push) (now : ℕ)
    → Inv p.inbound_queue
    → All
        (λ r. Resolves o input.default_agent_id r.inbound)
        (keep (parked_for input.attachment_id) p.inbound_queue.rows)
    → Flushes p input.attachment_id handle (register_runtime o p input handle now)
unfolding register_runtime
register_runtime-Flushes o p input handle now v h =
    registered_with-Flushed o p input.attachment_id now handle input.default_agent_id _ v h
      (bind-Opens p.bindings (record input { push = some handle }) now handle refl)
