-- ===== src/Gateway/Tests/Relays.antt =====
-- A permission request on one channel.
use athena_flow_cli.Common.{none, [], ◌∷◌, true, false}
use athena_flow_cli.Gateway.Relay.Asked.{Asked, request-Asked}
use athena_flow_cli.Gateway.Relay.{Request, request, Adapter}
use athena_flow_cli.Gateway.Relay.Pending.{permission, verdict, start, settle}
use athena_flow_cli.Gateway.Relay.Race.{Inv}
use athena_flow_cli.Gateway.Relay.Runs.{
  Call, asks, answers, call, Reach, begin, extend, reachable-Inv,
}
use athena_flow_cli.Gateway.Relay.Settled.{Settles, settle-Settles}

abbrev pub adapter : Adapter
adapter = record {
  id = "telegram";
  relay_permission = true;
  relay_question = false;
  has_verdict = true;
  has_answer = false;
}

abbrev pub ask : Call
ask =
    asks permission (adapter ∷ [])
      (record { channel_request_id = none; fingerprint = "Bash"; ttl_ms = none; runtime_id = none })
      "q1" 300000

abbrev asking : Request
asking = record {
  channel_request_id = none;
  fingerprint = "Bash";
  ttl_ms = none;
  runtime_id = none;
}

request-Asked_example :
    Asked start permission
      (adapter ∷ [])
      asking
      "q1"
      (request start permission (adapter ∷ []) asking "q1" 300000).0
      (request start permission (adapter ∷ []) asking "q1" 300000).1
request-Asked_example = request-Asked start permission (adapter ∷ []) asking "q1" 300000

asked-Reach : Reach (call start ask)
asked-Reach = extend start ask begin

reachable-Inv_example :
    Inv (call (call start ask) (answers permission "q1" "telegram" (verdict true "")))
reachable-Inv_example =
    reachable-Inv (call (call start ask) (answers permission "q1" "telegram" (verdict true "")))
      (extend (call start ask) (answers permission "q1" "telegram" (verdict true "")) asked-Reach)

asked-Inv : Inv (call start ask)
asked-Inv = reachable-Inv (call start ask) asked-Reach

settle-Settles_example :
    Settles
      (call start ask)
      "q1"
      (verdict true "telegram")
      (settle (call start ask) "q1" (verdict true "telegram")).0
      (settle (call start ask) "q1" (verdict true "telegram")).1
settle-Settles_example = settle-Settles (call start ask) "q1" (verdict true "telegram") asked-Inv
