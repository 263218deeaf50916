-- ===== src/Gateway/Tests/Sample.antt =====
-- One runtime on one Telegram chat.
use text.Mathlib.TextEquality.{eq_iff}
use athena_flow_cli.Common.{String, none, some, [], ◌∷◌, false, ◌≢◌, arith}
use athena_flow_cli.Gateway.Types.{ChannelLocation, NormalizedInbound, SendResult}
use athena_flow_cli.Gateway.BindingStore.{RegisteredRuntime, active, Slot, Store, BindInput}
use athena_flow_cli.Gateway.SessionRegistry.{DispatchEntry}
use athena_flow_cli.Gateway.InboundQueue.{Queue, Row}
use athena_flow_cli.Gateway.Outbox.{OutboxRow}
use athena_flow_cli.Gateway.OutboundDispatcher.{Dispatcher, default_backoff}
use athena_flow_cli.Gateway.Pipeline.{Pipeline, Options}
use athena_flow_cli.Gateway.Pipeline.Completion.{TurnComplete}

abbrev pub chat : ChannelLocation
chat = record {
  channel_id = "telegram";
  account_id = "bot";
  peer = some "p1";
  room = none;
  thread = none;
}

abbrev pub hello : NormalizedInbound
hello = record {
  location = chat;
  sender = "p1";
  text = "hello";
  received_at = 3;
  idempotency_key = "k1";
  provider_message_id = "m1";
}

abbrev pub runtime : RegisteredRuntime
runtime = record {
  runtime_id = "r1";
  default_agent_id = "main";
  pid = 42;
  registered_at = 0;
  attachment_id = none;
}

abbrev pub slot : Slot
slot = record {
  runtime = runtime;
  binding = some (active "c1" 0 1 none);
  push = some 7;
  stale_timer = none;
  stale_since = none;
}

abbrev pub live_store : Store
live_store = record {
  slots = (none, slot) ∷ [];
  grace_period_ms = 1000;
  timers = [];
  next_timer = 0;
}

abbrev pub bind_input : BindInput
bind_input = record {
  runtime_id = "r1";
  default_agent_id = "main";
  pid = 42;
  connection_id = "c1";
  attachment_id = none;
  push = some 7;
}

abbrev pub turn : DispatchEntry
turn = record {
  dispatch_id = "d1";
  session_key = "peer:telegram:bot:p1";
  agent_id = "main";
  runtime_id = "r1";
  attachment_key = none;
  location = chat;
  created_at = 3;
}

abbrev pub waiting_row : Row
waiting_row = record { id = 0; attachment_id = none; inbound = hello; created_at = 3 }

abbrev pub queue : Queue
queue = record { rows = waiting_row ∷ []; next_id = 1; max_entries = 10 }

abbrev pub empty_queue : Queue
empty_queue = record { rows = []; next_id = 0; max_entries = 10 }

abbrev pub unsent : OutboxRow
unsent = record {
  id = 0;
  channel_id = "telegram";
  message = record { location = chat; text = "hi"; idempotency_key = "k2" };
  attempt = 1;
  next_attempt_at = 5;
  last_error = none;
}

abbrev pub dispatcher : Dispatcher
dispatcher = record {
  outbox = record { rows = unsent ∷ []; next_id = 1 };
  backoff = default_backoff;
  max_attempts = 10;
  batch_size = 16;
  draining = false;
  stopped = false;
}

abbrev pub options : Options
options = record {
  resolve_agent = λ key channel default. default;
  id_factory = λ n. "id";
  envelope_text = λ e. "{}";
  show = λ n. "0";
}

-- A live runtime with a turn to complete, and a message that waits.
abbrev pub pipeline : Pipeline
pipeline = record {
  bindings = live_store;
  registry = ("d1", turn) ∷ [];
  inbound_queue = queue;
  dispatcher = dispatcher;
  ids_used = 0;
  pushes = [];
}

-- No runtime yet, and a message that waits.
abbrev pub waiting : Pipeline
waiting = record pipeline { bindings = record live_store { slots = [] }; registry = [] }

abbrev pub done : TurnComplete
done = record {
  runtime_id = "r1";
  dispatch_id = "d1";
  location = chat;
  text = "hi";
  idempotency_key = "k2";
}

abbrev pub accepted : SendResult
accepted = record { provider_message_id = "m2"; delivered_at = 6 }

pub main_named : ◌≢◌ {A = String} "main" ""
main_named = ground (arith, eq_iff "main" "")
