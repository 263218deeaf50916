-- ===== src/Gateway/Tests/Plans.antt =====
-- A plan that registers a channel, replaces one and unregisters one.
use athena_flow_cli.Common.{
  ◌≡◌, refl, true, false, none, some, [], ◌∷◌, ◌||◌, if◌then◌else◌, string_discrete,
}
use athena_flow_cli.Common.Text.{codes}
use athena_flow_cli.Gateway.Reconcile.{PlanInput, has, desired_ids, plan_channel_reconciliation}
use athena_flow_cli.Gateway.Reconcile.Presence.{perform_all, perform_all-plan}

abbrev input : PlanInput
input = record {
  desired =
      record { instance_id = "telegram"; attachment_id = none }
      ∷ record { instance_id = "console"; attachment_id = none }
      ∷ [];
  current_channel_ids = "slack" ∷ "telegram" ∷ [];
  load_errors = record { path = codes "channels/bad.json"; reason = "no JSON" } ∷ [];
  unregister_stale = true;
}

perform_all-plan_example :
    perform_all "slack"
      (plan_channel_reconciliation input)
      (has "slack" ("slack" ∷ "telegram" ∷ []))
    ≡ some (
        has "slack" (desired_ids input.desired)
        || (if true then false else has "slack" ("slack" ∷ "telegram" ∷ [])))
unfolding string_discrete
perform_all-plan_example = perform_all-plan "slack" input (refl, (refl, tt)) (refl, (refl, tt))
