-- ===== src/Gateway/Tests/Channels.antt =====
-- A manager with one channel, and a reconciliation in which an adapter does not start.
use mathlib.Core.Logic.{inl}
use athena_flow_cli.Common.{
  ◌≤◌, String, none, some, List, [], ◌∷◌, true, ◌≡◌, refl, map, length, All, if◌then◌else◌,
  string_discrete, ◌==◌, string_eq,
}
use athena_flow_cli.Common.Dict.{get}
use athena_flow_cli.Gateway.Types.{NormalizedInbound}
use athena_flow_cli.Gateway.Reconcile.{Sidecar, has, plan_channel_reconciliation}
use athena_flow_cli.Gateway.ChannelManager.{
  ChannelManager, new_channel_manager, get_attachment_id, handle_inbound,
}
use athena_flow_cli.Gateway.ChannelManager.Window.{
  last, passes, keys_of, run_inbound, handle_inbound-Passes,
}
use athena_flow_cli.Gateway.Reconciler.{Adapters, ChannelReloadResult, input_of, reconcile}
use athena_flow_cli.Gateway.Reconciler.Outcomes.{Truthful}
use athena_flow_cli.Gateway.Reconciler.Reports.{result_id, reconcile-Truthful}

abbrev message : String → NormalizedInbound
message key = record {
  location = record {
    channel_id = "slack";
    account_id = "a";
    peer = none;
    room = none;
    thread = none;
  };
  sender = "u";
  text = "hello";
  received_at = 5;
  idempotency_key = key;
  provider_message_id = "p";
}

abbrev manager : ChannelManager
manager = record (new_channel_manager 2) {
  has_sink = true;
  entries =
      (
        "slack",
        record {
          adapter = record { id = "slack"; object = 1 };
          last_health = none;
          attachment_id = some "runner";
        },
      )
      ∷ [];
}

abbrev calls : List (String × NormalizedInbound)
calls = ("slack", message "k1") ∷ ("slack", message "k2") ∷ ("slack", message "k1") ∷ []

kept_out : (handle_inbound "slack" (message "k2") (run_inbound calls manager)).1 ≡ none
unfolding handle_inbound run_inbound string_discrete
kept_out = refl

handle_inbound-Passes_example :
    (length (run_inbound calls manager).dedup ≤ 2)
    × ((handle_inbound "slack" (message "k3") (run_inbound calls manager)).1 ≡ (
        if has "k3" (last 2 (passes 2 [] (keys_of calls)))
        then none
        else some (message "k3", get_attachment_id "slack" manager)))
handle_inbound-Passes_example =
    handle_inbound-Passes manager calls "slack" (message "k3") refl refl refl

abbrev adapters : Adapters
adapters = record {
  stop_error = λ id. none;
  start_error = λ a. if a.id == "console" then some "no port" else none;
  instantiate_adapter = λ s. inl (record { id = s.instance_id; object = 2 });
}

abbrev sidecars : List Sidecar
sidecars =
    record { instance_id = "slack"; attachment_id = none }
    ∷ record { instance_id = "console"; attachment_id = none }
    ∷ []

reconcile-Truthful_example :
    let plan = plan_channel_reconciliation (input_of sidecars [] true manager) in
    let (m', results) = reconcile adapters sidecars [] true manager in
    (map (λ (r : ChannelReloadResult). r.id) results ≡ map result_id plan)
    × All (Truthful m') results
unfolding string_discrete get
reconcile-Truthful_example =
    reconcile-Truthful adapters sidecars [] true manager (λ s a h. cc) ((refl, tt), (refl, tt))
      (refl, (refl, tt))
