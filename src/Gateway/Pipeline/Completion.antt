-- ===== src/Gateway/Pipeline/Completion.antt =====
-- src/gateway/dispatchPipeline.ts: what a runtime sends back, the completion of a turn and the events
-- of a run. Each handler takes what `send` answers and the time that it reads.
use athena_flow_cli.Common.{ℕ, String, Option, none, some, string_eq}
use athena_flow_cli.Gateway.Types.{ChannelLocation, OutboundMessage, AttachmentKey}
use athena_flow_cli.Gateway.BindingStore
use athena_flow_cli.Gateway.BindingStore.{
  Store, RegisteredRuntime, Push, BindInput, BindResult, bound, already_registered, Observed, Timer,
}
use athena_flow_cli.Gateway.SessionKey.{◌+s◌}
use athena_flow_cli.Gateway.SessionRegistry
use athena_flow_cli.Gateway.SessionRegistry.{
  Registry, DispatchEntry, CompleteDispatchResult, completed, unknown, runtime_mismatch,
}
use athena_flow_cli.Gateway.OutboundDispatcher
use athena_flow_cli.Gateway.OutboundDispatcher.{Dispatcher, Sent, sent}
use athena_flow_cli.Gateway.Pipeline.{Pipeline, Options, RunEvent}

pub record TurnComplete : Type 0 where
  pub runtime_id : String
  pub dispatch_id : String
  pub location : ChannelLocation
  pub text : String
  pub idempotency_key : String

-- `outbox_ref n` is the text `outbox:n`.
pub data MessageId : Type 0 where
  provider : String → MessageId
  outbox_ref : ℕ → MessageId

pub data TurnCompleteResult : Type 0 where
  threw_runtime_mismatch not_delivered : TurnCompleteResult
  delivered : MessageId → TurnCompleteResult

abbrev pub message_id : OutboundDispatcher.DispatchResult → MessageId
message_id (OutboundDispatcher.DispatchResult.sent r) = provider r.provider_message_id
message_id (OutboundDispatcher.DispatchResult.queued id error) = outbox_ref id

abbrev pub reply_to : ChannelLocation → TurnComplete → OutboundMessage
reply_to place payload = record {
  location = place;
  text = payload.text;
  idempotency_key = payload.idempotency_key;
}

unfoldable pub send_outbound :
    Pipeline → ChannelLocation → TurnComplete → Sent → ℕ → Pipeline × MessageId
unfolding OutboundDispatcher.dispatch
send_outbound p place payload answer now =
    let (d, r) =
      OutboundDispatcher.dispatch p.dispatcher place.channel_id (reply_to place payload) answer
        now in
    (record p { dispatcher = d }, message_id r)

unfoldable pub finish_turn :
    Pipeline
    → TurnComplete
    → Sent
    → ℕ
    → Registry × CompleteDispatchResult
    → Pipeline × TurnCompleteResult
unfolding send_outbound
finish_turn p payload answer now (r, completed entry) =
    let (p', id) = send_outbound (record p { registry = r }) entry.location payload answer now in
    (p', delivered id)
finish_turn p payload answer now (r, unknown) = (record p { registry = r }, not_delivered)
finish_turn p payload answer now (r, runtime_mismatch entry) =
    (record p { registry = r }, not_delivered)

unfoldable pub complete_turn :
    Pipeline
    → TurnComplete
    → Sent
    → ℕ
    → Option (AttachmentKey × RegisteredRuntime)
    → Pipeline × TurnCompleteResult
unfolding finish_turn SessionRegistry.complete_dispatch
complete_turn p payload answer now none = (p, threw_runtime_mismatch)
complete_turn p payload answer now (some slot) =
    finish_turn p payload answer now
      (SessionRegistry.complete_dispatch p.registry payload.dispatch_id payload.runtime_id)

unfoldable pub handle_turn_complete :
    Pipeline → TurnComplete → Sent → ℕ → Pipeline × TurnCompleteResult
unfolding complete_turn BindingStore.get_attachment_key_by_runtime_id
handle_turn_complete p payload answer now =
    complete_turn p payload answer now
      (BindingStore.get_attachment_key_by_runtime_id p.bindings payload.runtime_id)

abbrev pub run_event_message : Options → RunEvent → OutboundMessage
run_event_message o e = record {
  location = e.location;
  text = o.envelope_text e;
  idempotency_key = "run_event:" +s e.run_id +s ":" +s o.show e.seq;
}

-- `none` is the thrown mismatch. A failed send is parked, so the answer is `delivered: true`.
unfoldable pub handle_run_event : Options → Pipeline → RunEvent → Sent → ℕ → Option Pipeline
unfolding OutboundDispatcher.dispatch BindingStore.get_attachment_key_by_runtime_id
handle_run_event o p e answer now =
    elim (BindingStore.get_attachment_key_by_runtime_id p.bindings e.runtime_id) [
      | none ↦ none
      | some slot ↦ some (record p {
        dispatcher =
            (OutboundDispatcher.dispatch p.dispatcher e.location.channel_id (run_event_message o e)
              answer now).0;
      })
    ]
