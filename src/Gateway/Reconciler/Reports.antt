-- ===== src/Gateway/Reconciler/Reports.antt =====
-- What a whole reconciliation reports, and what it leaves registered.
use mathlib.Core.Logic.{inl, inr}
use athena_flow_cli.Common.{
  String, is_some, List, [], ◌∷◌, Bool, true, false, any, map, arith, ◌≡◌, refl, ap, ◌∙◌, string_eq,
  All, Bool-cases, ==_refl,
}
use mathlib.Core.Path.{ap₂}
use athena_flow_cli.Common.Dict.{get}
use athena_flow_cli.Gateway.Reconcile.{
  Sidecar, LoadError, ReconcileAction, load_error, unregister_stale, replace, register, desired_ids,
  plan_channel_reconciliation,
}
use athena_flow_cli.Gateway.ChannelManager.{ChannelManager}
use athena_flow_cli.Gateway.Reconciler.{
  Adapters, ReloadAction, registered, replaced, ResultId, channel, path_id, ChannelReloadResult,
  execute_action, execute_all, reconcile, input_of, execute_unregister_stale, build_and_register,
  execute_apply,
}
use athena_flow_cli.Gateway.Reconciler.Outcomes.{
  Named, Truthful, touches, Ready, action-other, action-Truthful,
}
use athena_flow_cli.Gateway.Reconciler.Planned.{
  Separate, Distinct, KeyedEntries, channel_ids, plan-Separate, listed,
}

Ready-kept :
    (m m' : ChannelManager) (a : ReconcileAction)
    → ((x : String) → touches x a ≡ true → get x m'.entries ≡ get x m.entries)
    → Ready m a
    → Ready m' a
Ready-kept m m' (register s) same h = same s.instance_id (==_refl s.instance_id) ∙ h
Ready-kept m m' (replace s) same h = tt
Ready-kept m m' (unregister_stale id) same h = tt
Ready-kept m m' (load_error id path reason) same h = tt

Separate-kept :
    (m m' : ChannelManager) (as' : List ReconcileAction)
    → ((x : String) → any (touches x) as' ≡ true → get x m'.entries ≡ get x m.entries)
    → Separate m as'
    → Separate m' as'
Separate-kept m m' [] same h = tt
Separate-kept m m' (a ∷ as') same h = (
  Ready-kept m m' a (λ x t. same x (rw t refl)) h.0,
  h.1,
  Separate-kept m m' as' (λ x t. same x (rw t (ground arith))) h.2,
)

abbrev pub result_id : ReconcileAction → ResultId
result_id (load_error id path reason) = path_id id
result_id (unregister_stale id) = channel id
result_id (replace s) = channel s.instance_id
result_id (register s) = channel s.instance_id

Truthful-kept :
    (m m' : ChannelManager) (a : ReconcileAction) (r : ChannelReloadResult)
    → r.id ≡ result_id a
    → ((x : String) → touches x a ≡ true → get x m'.entries ≡ get x m.entries)
    → Truthful m r
    → Truthful m' r
Truthful-kept m m' (load_error id path reason) r e same h = rw e tt
Truthful-kept m m' (unregister_stale id) r e same h =
    rw e (ap is_some (same id (==_refl id)) ∙ (rw e at h))
Truthful-kept m m' (replace s) r e same h =
    rw e (ap is_some (same s.instance_id (==_refl s.instance_id)) ∙ (rw e at h))
Truthful-kept m m' (register s) r e same h =
    rw e (ap is_some (same s.instance_id (==_refl s.instance_id)) ∙ (rw e at h))

module _ (adapters : Adapters) where
  build-id :
      (done : ReloadAction) (s : Sidecar) (m : ChannelManager)
      → (build_and_register adapters done s m).1.id ≡ channel s.instance_id
  unfolding build_and_register
  build-id done s m = ground arith

  action-id :
      (a : ReconcileAction) (m : ChannelManager) → (execute_action adapters a m).1.id ≡ result_id a
  unfolding execute_action
  action-id (load_error id path reason) m = refl
  action-id (unregister_stale id) m = unfold execute_unregister_stale in ground arith
  action-id (register s) m = unfold execute_apply in build-id registered s m
  action-id (replace s) m = unfold execute_apply in ground (arith, build-id replaced s)

module _ (adapters : Adapters) (named : Named adapters) where
  all-other :
      (x : String) (as' : List ReconcileAction) (m : ChannelManager)
      → any (touches x) as' ≡ false
      → get x (execute_all adapters as' m).0.entries ≡ get x m.entries
  unfolding execute_all
  all-other x [] m h = refl
  all-other x (a ∷ as') m h =
      all-other x as' (execute_action adapters a m).0 (ground arith)
      ∙ action-other adapters named x a m (ground arith)

  results-Truthful :
      (as' : List ReconcileAction) (m : ChannelManager)
      → Separate m as'
      → All (Truthful (execute_all adapters as' m).0) (execute_all adapters as' m).1
  unfolding execute_all
  results-Truthful [] m h = tt
  results-Truthful (a ∷ as') m h =
      let m' = (execute_action adapters a m).0 in
      (
        Truthful-kept m' (execute_all adapters as' m').0 a (execute_action adapters a m).1
            (action-id adapters a m) (λ x t. all-other x as' m' (h.1 x t))
            (action-Truthful adapters named a m h.0),
        results-Truthful as' m' (
            Separate-kept m m' as'
              (λ x t.
                action-other adapters named x a m (elim (Bool-cases (touches x a)) [
                  | inl u ↦ absurd (cc (h.1 x u, t))
                  | inr u ↦ u
                ]))
              h.2),
      )

all-ids :
    (adapters : Adapters) (as' : List ReconcileAction) (m : ChannelManager)
    → map (λ (r : ChannelReloadResult). r.id) (execute_all adapters as' m).1 ≡ map result_id as'
unfolding execute_all
all-ids adapters [] m = refl
all-ids adapters (a ∷ as') m =
    ap₂ ◌∷◌ (action-id adapters a m) (all-ids adapters as' (execute_action adapters a m).0)

-- From a manager whose entries stand under their adapters' ids, with sidecars of distinct ids and a
-- factory that names adapters for their sidecars, whatever adapters fail to be built, to start or to
-- stop, and whether stale channels go or stay: a reconciliation gives a result for each action of the
-- plan, in its order, and each result for a channel says `registered` or `replaced` exactly when the
-- channel is registered afterwards, also those of failures.
pub reconcile-Truthful :
    (adapters : Adapters) (sidecars : List Sidecar) (errors : List LoadError) (stale : Bool)
    (m : ChannelManager)
    → Named adapters
    → KeyedEntries m.entries
    → Distinct (desired_ids sidecars)
    → let plan = plan_channel_reconciliation (input_of sidecars errors stale m) in
      let (m', results) = reconcile adapters sidecars errors stale m in
      (map (λ (r : ChannelReloadResult). r.id) results ≡ map result_id plan)
      × All (Truthful m') results
unfolding reconcile
reconcile-Truthful adapters sidecars errors stale m named keyed d =
    let input = input_of sidecars errors stale m in
    let ids : input.current_channel_ids ≡ channel_ids m.entries =
      unfold input_of in listed m.entries in
    let wanted : Distinct (desired_ids input.desired) = unfold input_of in d in
    (
      all-ids adapters (plan_channel_reconciliation input) m,
      results-Truthful adapters named (plan_channel_reconciliation input) m
          (plan-Separate m input keyed wanted ids),
    )
