-- ===== src/Gateway/Reconciler.antt =====
-- src/gateway/channelSidecarReconciler.ts: the plan carried out on the channel manager. The adapters'
-- and the factory's answers are a parameter; an adapter that is built bears the id of its sidecar. The
-- logged texts are left out, and so are calls of the manager that come between two actions.
pub mod Outcomes
pub mod Planned
pub mod Reports
use mathlib.Core.Logic.{◌⊎◌, inl, inr}
use athena_flow_cli.Common.{
  String, Option, none, some, List, [], ◌∷◌, Bool, true, false, map, arith, ◌≡◌, refl,
}
use athena_flow_cli.Common.Text.{Text}
use athena_flow_cli.Gateway.Reconcile.{
  Sidecar, LoadError, ReconcileAction, load_error, unregister_stale, replace, register, PlanInput,
  plan_channel_reconciliation,
}
use athena_flow_cli.Gateway.ChannelManager
use athena_flow_cli.Gateway.ChannelManager.{
  ChannelManager, ChannelAdapter, ManagerError, list_channels, HealthSample,
}

-- What adapters and the factory answer: why an adapter does not stop or start, if it fails, and the
-- adapter that a sidecar gives or why there is none.
pub record Adapters : Type 0 where
  pub stop_error : String → Option String
  pub start_error : ChannelAdapter → Option String
  pub instantiate_adapter : Sidecar → ChannelAdapter ⊎ String

pub data ReloadAction : Type 0 where
  registered replaced unchanged unregistered failed : ReloadAction

-- A failure's reason: a message of the loader or the factory, or an error of the manager.
pub data Reason : Type 0 where
  message : String → Reason
  manager_error : ManagerError → Reason

-- The ids of load errors are cut from paths, the others are those of channels.
pub data ResultId : Type 0 where
  channel : String → ResultId
  path_id : Text → ResultId

pub record ChannelReloadResult : Type 0 where
  pub id : ResultId
  pub ok : Bool
  pub action : ReloadAction
  pub reason : Option Reason

abbrev pub failure : String → Reason → ChannelReloadResult
failure id reason = record { id = channel id; ok = false; action = failed; reason = some reason }

abbrev pub success : String → ReloadAction → ChannelReloadResult
success id action = record { id = channel id; ok = true; action = action; reason = none }

module _ (adapters : Adapters) where
  unfoldable pub execute_unregister_stale :
      String → ChannelManager → ChannelManager × ChannelReloadResult
  unfolding ChannelManager.unregister
  execute_unregister_stale id m =
      let (m', e) = ChannelManager.unregister id (adapters.stop_error id) m in
      elim e [ none ↦ (m', success id unregistered) | some e ↦ (m', failure id (manager_error e)) ]

  -- `executeApply` from the factory on; `done` is the action of a success.
  unfoldable pub build_and_register :
      ReloadAction → Sidecar → ChannelManager → ChannelManager × ChannelReloadResult
  unfolding ChannelManager.register
  build_and_register done sidecar m = elim (adapters.instantiate_adapter sidecar) [
    | inr reason ↦ (m, failure sidecar.instance_id (message reason))
    | inl adapter ↦
        let (m', e) =
          ChannelManager.register adapter sidecar.attachment_id (adapters.start_error adapter) m in
        elim e [
          | none ↦ (m', success sidecar.instance_id done)
          | some e ↦ (m', failure sidecar.instance_id (manager_error e))
        ]
  ]

  unfoldable pub execute_apply :
      Sidecar → Bool → ChannelManager → ChannelManager × ChannelReloadResult
  unfolding build_and_register ChannelManager.unregister
  execute_apply sidecar false m = build_and_register registered sidecar m
  execute_apply sidecar true m =
      let id = sidecar.instance_id in
      let (m', e) = ChannelManager.unregister id (adapters.stop_error id) m in
      elim e [
        | some e ↦ (m', failure id (manager_error e))
        | none ↦ build_and_register replaced sidecar m'
      ]

  unfoldable pub execute_action :
      ReconcileAction → ChannelManager → ChannelManager × ChannelReloadResult
  unfolding execute_unregister_stale execute_apply
  execute_action (load_error id path reason) m =
      (m, record { id = path_id id; ok = false; action = failed; reason = some (message reason) })
  execute_action (unregister_stale id) m = execute_unregister_stale id m
  execute_action (replace sidecar) m = execute_apply sidecar true m
  execute_action (register sidecar) m = execute_apply sidecar false m

  unfoldable pub execute_all :
      List ReconcileAction → ChannelManager → ChannelManager × List ChannelReloadResult
  unfolding execute_action
  execute_all [] m = (m, [])
  execute_all (a ∷ as') m =
      let (m', r) = execute_action a m in let (m'', rs) = execute_all as' m' in (m'', r ∷ rs)

unfoldable pub input_of : List Sidecar → List LoadError → Bool → ChannelManager → PlanInput
unfolding list_channels
input_of sidecars errors stale m = record {
  desired = sidecars;
  current_channel_ids = map (λ (c : String × Option HealthSample). c.0) (list_channels m);
  load_errors = errors;
  unregister_stale = stale;
}

unfoldable pub reconcile :
    Adapters
    → List Sidecar
    → List LoadError
    → Bool
    → ChannelManager
    → ChannelManager × List ChannelReloadResult
unfolding execute_all plan_channel_reconciliation
reconcile adapters sidecars errors stale m =
    execute_all adapters (plan_channel_reconciliation (input_of sidecars errors stale m)) m
