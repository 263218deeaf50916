-- ===== src/Gateway/Pipeline/Turns.antt =====
-- A completed turn: who completes it, and where the reply goes.
use athena_flow_cli.Common.{ℕ, ◌≡◌, refl, ◌≢◌, Option, none, some, ◌⊎◌, inl, inr, arith, string_eq}
use athena_flow_cli.Common.Dict.{get}
use athena_flow_cli.Gateway.Types.{ChannelLocation, AttachmentKey}
use athena_flow_cli.Gateway.BindingStore
use athena_flow_cli.Gateway.BindingStore.{RegisteredRuntime}
use athena_flow_cli.Gateway.SessionRegistry.{
  Registry, DispatchEntry, CompleteDispatchResult, completed, unknown, runtime_mismatch,
}
use athena_flow_cli.Gateway.SessionRegistry.Laws.{Completes, complete_dispatch-Completes}
use athena_flow_cli.Gateway.OutboundDispatcher
use athena_flow_cli.Gateway.OutboundDispatcher.{Sent, Dispatcher}
use athena_flow_cli.Gateway.Pipeline.{Pipeline}
use athena_flow_cli.Gateway.Pipeline.Completion.{
  MessageId, TurnComplete, TurnCompleteResult, threw_runtime_mismatch, not_delivered, delivered,
  reply_to, message_id, handle_turn_complete, complete_turn, finish_turn, send_outbound,
}

-- The one call of the dispatcher that answers a turn.
abbrev pub replied :
    Pipeline
    → DispatchEntry
    → TurnComplete
    → Sent
    → ℕ
    → Dispatcher × OutboundDispatcher.DispatchResult
replied p e payload answer now =
    OutboundDispatcher.dispatch p.dispatcher e.location.channel_id (reply_to e.location payload)
      answer now

-- The runtime that completes the turn holds a slot.
abbrev pub HasSlot : Pipeline → TurnComplete → Type 0
HasSlot p payload =
    (slot : AttachmentKey × RegisteredRuntime) × (BindingStore.get_attachment_key_by_runtime_id
        p.bindings payload.runtime_id
      ≡ some slot)

-- What an answer to `session.turn.complete` says of the pipeline before and after.
abbrev pub Turn : Pipeline → TurnComplete → Sent → ℕ → Pipeline → TurnCompleteResult → Type 0
Turn p payload answer now p' threw_runtime_mismatch =
    (BindingStore.get_attachment_key_by_runtime_id p.bindings payload.runtime_id ≡ none) × (p' ≡ p)
Turn p payload answer now p' not_delivered =
    (p' ≡ p)
    × ((get payload.dispatch_id p.registry ≡ none)
        ⊎ ((e : DispatchEntry) × (get payload.dispatch_id p.registry ≡ some e)
            × (e.runtime_id ≢ payload.runtime_id)))
    × HasSlot p payload
Turn p payload answer now p' (delivered id) =
    (e : DispatchEntry) × (get payload.dispatch_id p.registry ≡ some e)
    × (e.runtime_id ≡ payload.runtime_id)
    × (get payload.dispatch_id p'.registry ≡ none)
    × (p'.dispatcher ≡ (replied p e payload answer now).0)
    × (id ≡ message_id (replied p e payload answer now).1)
    × (p'.pushes ≡ p.pushes)
    × HasSlot p payload

finish_turn-Turn :
    (p : Pipeline) (payload : TurnComplete) (answer : Sent) (now : ℕ) (r : Registry)
    (c : CompleteDispatchResult)
    → HasSlot p payload
    → Completes p.registry payload.dispatch_id payload.runtime_id r c
    → Turn p payload answer now
        (finish_turn p payload answer now (r, c)).0
        (finish_turn p payload answer now (r, c)).1
unfolding finish_turn send_outbound
finish_turn-Turn p payload answer now r (completed e) s h = (e, h.0, h.1, h.2, refl, refl, refl, s)
finish_turn-Turn p payload answer now r unknown s h = (ground arith, inl h.0, s)
finish_turn-Turn p payload answer now r (runtime_mismatch e) s h =
    (ground arith, inr (e, h.0, h.1), s)

complete_turn-Turn :
    (p : Pipeline) (payload : TurnComplete) (answer : Sent) (now : ℕ)
    (o : Option (AttachmentKey × RegisteredRuntime))
    → BindingStore.get_attachment_key_by_runtime_id p.bindings payload.runtime_id ≡ o
    → Turn p payload answer now
        (complete_turn p payload answer now o).0
        (complete_turn p payload answer now o).1
unfolding complete_turn
complete_turn-Turn p payload answer now none e = (e, refl)
complete_turn-Turn p payload answer now (some slot) e =
    finish_turn-Turn p payload answer now _ _ (slot, e)
      (complete_dispatch-Completes p.registry payload.dispatch_id payload.runtime_id)

-- A reply is sent exactly when the runtime that the turn was dispatched to completes it and holds a
-- slot; it goes to the location that was parked with the turn, through one call of the dispatcher,
-- and the turn is consumed. An unknown turn, another runtime's turn and a runtime without a slot
-- change nothing, and only the last is answered with an exception.
pub handle_turn_complete-Turn :
    (p : Pipeline) (payload : TurnComplete) (answer : Sent) (now : ℕ)
    → Turn p payload answer now
        (handle_turn_complete p payload answer now).0
        (handle_turn_complete p payload answer now).1
unfolding handle_turn_complete
handle_turn_complete-Turn p payload answer now = complete_turn-Turn p payload answer now _ refl

-- The location that a completion claims has no effect: not on the pipeline, nor on the answer.
pub handle_turn_complete_ignores_location :
    (p : Pipeline) (payload : TurnComplete) (claimed : ChannelLocation) (answer : Sent) (now : ℕ)
    → handle_turn_complete p (record payload { location = claimed }) answer now
      ≡ handle_turn_complete p payload answer now
unfolding handle_turn_complete
handle_turn_complete_ignores_location p payload claimed answer now = ground arith

absent_turn_lem :
    (p : Pipeline) (payload : TurnComplete) (answer : Sent) (now : ℕ) (r : TurnCompleteResult)
    (p' : Pipeline)
    → get payload.dispatch_id p.registry ≡ none
    → Turn p payload answer now p' r
    → (p' ≡ p) × ((r ≡ not_delivered) ⊎ (r ≡ threw_runtime_mismatch))
absent_turn_lem p payload answer now threw_runtime_mismatch p' h t = (t.1, inr refl)
absent_turn_lem p payload answer now not_delivered p' h t = (t.0, inl refl)
absent_turn_lem p payload answer now (delivered id) p' h t = cc (t.1)

delivered-consumed :
    (p : Pipeline) (payload : TurnComplete) (answer : Sent) (now : ℕ) (r : TurnCompleteResult)
    (p' : Pipeline) (id : MessageId)
    → r ≡ delivered id
    → Turn p payload answer now p' r
    → get payload.dispatch_id p'.registry ≡ none
delivered-consumed p payload answer now threw_runtime_mismatch p' id e t = cc
delivered-consumed p payload answer now not_delivered p' id e t = cc
delivered-consumed p payload answer now (delivered m) p' id e t = t.3

-- A turn is answered at most once: after a delivery, whatever is sent for the same turn, by any
-- runtime, leaves the pipeline as it is and is not delivered.
pub handle_turn_complete_once :
    (p : Pipeline) (payload again : TurnComplete) (answer answer' : Sent) (now later : ℕ)
    (id : MessageId)
    → (handle_turn_complete p payload answer now).1 ≡ delivered id
    → again.dispatch_id ≡ payload.dispatch_id
    → let p' = (handle_turn_complete p payload answer now).0 in
      ((handle_turn_complete p' again answer' later).0 ≡ p')
      × (((handle_turn_complete p' again answer' later).1 ≡ not_delivered)
          ⊎ ((handle_turn_complete p' again answer' later).1 ≡ threw_runtime_mismatch))
handle_turn_complete_once p payload again answer answer' now later id e same =
    let p' = (handle_turn_complete p payload answer now).0 in
    absent_turn_lem p' again answer' later _ _
      (rw same (
        delivered-consumed p payload answer now _ p' id e
          (handle_turn_complete-Turn p payload answer now)))
      (handle_turn_complete-Turn p' again answer' later)
