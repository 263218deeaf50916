-- ===== src/Gateway/Types.antt =====
-- src/shared/gateway-protocol/channel-events.ts: the messages that cross the gateway. Attachments of
-- a message and the sender's display name are carried by no decision and are left out.
use athena_flow_cli.Common.{ℕ, String, Option}

pub record ChannelLocation : Type 0 where
  pub channel_id : String
  pub account_id : String
  pub peer : Option String
  pub room : Option String
  pub thread : Option String

pub record NormalizedInbound : Type 0 where
  pub location : ChannelLocation
  pub sender : String
  pub text : String
  pub received_at : ℕ
  pub idempotency_key : String
  pub provider_message_id : String

pub record OutboundMessage : Type 0 where
  pub location : ChannelLocation
  pub text : String
  pub idempotency_key : String

pub record SendResult : Type 0 where
  pub provider_message_id : String
  pub delivered_at : ℕ

-- Every attachment has a slot of its own; `none` is the fallback slot.
abbrev pub AttachmentKey : Type 0
AttachmentKey = Option String
