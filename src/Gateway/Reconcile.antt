-- ===== src/Gateway/Reconcile.antt =====
-- src/gateway/channelReconcilePlan.ts: the actions that take the registered channels to the desired
-- sidecars. Of a sidecar the plan reads its instance id; the rest of it goes along in the action.
pub mod Presence
use Prim.Native.Nat.{◌-◌}
use athena_flow_cli.Common.{
  String, Option, List, [], ◌∷◌, ◌++◌, map, length, take, if◌then◌else◌, ◌==◌, string_eq, nat_eq,
  Bool, false, ◌||◌, any, or_else,
}
use athena_flow_cli.Common.Text.{Text, codes, cons_head, same_text, last}

pub record Sidecar : Type 0 where
  pub instance_id : String
  pub attachment_id : Option String

pub record LoadError : Type 0 where
  pub path : Text
  pub reason : String

pub data ReconcileAction : Type 0 where
  load_error : (id path : Text) (reason : String) → ReconcileAction
  unregister_stale : (id : String) → ReconcileAction
  replace : Sidecar → ReconcileAction
  register : Sidecar → ReconcileAction

pub record PlanInput : Type 0 where
  pub desired : List Sidecar
  pub current_channel_ids : List String
  pub load_errors : List LoadError
  pub unregister_stale : Bool

-- `filePath.split(/[\\/]/)`
unfoldable pub segments : Text → List Text
segments [] = [] ∷ []
segments (c ∷ s) =
    let rest = segments s in if (c == 47) || (c == 92) then [] ∷ rest else cons_head c rest

-- `base.endsWith('.json')`
unfoldable pub ends_with_json : Text → Bool
ends_with_json [] = false
ends_with_json (c ∷ s) = same_text (c ∷ s) (codes ".json") || ends_with_json s

unfoldable pub path_id_from_sidecar_path : Text → Text
unfolding segments ends_with_json
path_id_from_sidecar_path path =
    let base = or_else (last (segments path)) path in
    if ends_with_json base then take (length base - 5) base else base

-- `Set.has`
abbrev pub has : String → List String → Bool
has id ids = any (λ i. i == id) ids

abbrev pub desired_ids : List Sidecar → List String
desired_ids ss = map (λ s. s.instance_id) ss

-- The three loops of `planChannelReconciliation`.
unfoldable pub report_errors : List LoadError → List ReconcileAction
unfolding path_id_from_sidecar_path
report_errors [] = []
report_errors (e ∷ es) =
    load_error (path_id_from_sidecar_path e.path) e.path e.reason ∷ report_errors es

unfoldable pub unregister_each : List String → List String → List ReconcileAction
unregister_each wanted [] = []
unregister_each wanted (id ∷ ids) =
    let rest = unregister_each wanted ids in
    if has id wanted then rest else unregister_stale id ∷ rest

unfoldable pub place_each : List String → List Sidecar → List ReconcileAction
place_each current [] = []
place_each current (s ∷ ss) =
    (if has s.instance_id current then replace s else register s) ∷ place_each current ss

unfoldable pub plan_channel_reconciliation : PlanInput → List ReconcileAction
unfolding report_errors unregister_each place_each
plan_channel_reconciliation input =
    report_errors input.load_errors
    ++ ((if input.unregister_stale
          then unregister_each (desired_ids input.desired) input.current_channel_ids
          else [])
        ++ place_each input.current_channel_ids input.desired)
