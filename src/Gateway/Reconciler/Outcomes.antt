-- ===== src/Gateway/Reconciler/Outcomes.antt =====
-- What one action of a reconciliation reports, and what it leaves registered.
use mathlib.Core.Logic.{◌⊎◌, inl, inr}
use athena_flow_cli.Common.{
  String, none, is_some, Bool, true, false, not, arith, ◌≡◌, refl, sym, ap, ◌∙◌, ◌==◌, string_eq,
  Option-cases, ==_refl,
}
use athena_flow_cli.Common.Dict.{get}
use athena_flow_cli.Gateway.Reconcile.{
  Sidecar, ReconcileAction, load_error, unregister_stale, replace, register,
}
use athena_flow_cli.Gateway.ChannelManager
use athena_flow_cli.Gateway.ChannelManager.{
  ChannelManager, ChannelAdapter, Entry, ManagerError, list_channels, HealthSample, begin_register,
  end_register, stop_outcome, new_entry,
}
use athena_flow_cli.Gateway.Reconciler.{
  Adapters, ReloadAction, registered, replaced, unchanged, unregistered, failed, channel, path_id,
  ChannelReloadResult, execute_unregister_stale, build_and_register, execute_apply, execute_action,
}
use athena_flow_cli.Gateway.ChannelManager.Present.{
  present, get-unregister, get-register_other, present-register,
}

-- Whether a result says that its channel runs.
abbrev pub up : ReloadAction → Bool
up registered = true
up replaced = true
up unchanged = true
up unregistered = false
up failed = false

-- A result for a channel says whether the channel is registered.
abbrev pub Truthful : ChannelManager → ChannelReloadResult → Type 0
Truthful m r = elim r.id [ path_id id ↦ Unit {0} | channel id ↦ present id m ≡ up r.action ]

abbrev pub touches : String → ReconcileAction → Bool
touches x (load_error id path reason) = false
touches x (unregister_stale id) = id == x
touches x (replace s) = s.instance_id == x
touches x (register s) = s.instance_id == x

-- The factory names an adapter for its sidecar.
abbrev pub Named : Adapters → Type 0
Named adapters =
    (s : Sidecar) (a : ChannelAdapter)
    → adapters.instantiate_adapter s ≡ inl a
    → a.id ≡ s.instance_id

-- An id that is to be registered anew is free.
abbrev pub Ready : ChannelManager → ReconcileAction → Type 0
Ready m (register s) = get s.instance_id m.entries ≡ none
Ready m (load_error id path reason) = Unit
Ready m (unregister_stale id) = Unit
Ready m (replace s) = Unit

⊎-cases :
    (o : ChannelAdapter ⊎ String)
    → ((a : ChannelAdapter) × (o ≡ inl a)) ⊎ ((r : String) × (o ≡ inr r))
⊎-cases (inl a) = inl (a, refl)
⊎-cases (inr r) = inr (r, refl)

module _ (adapters : Adapters) (named : Named adapters) where
  build-other :
      (x : String) (done : ReloadAction) (s : Sidecar) (m : ChannelManager)
      → (s.instance_id == x) ≡ false
      → get x (build_and_register adapters done s m).0.entries ≡ get x m.entries
  unfolding build_and_register
  build-other x done s m h = elim (⊎-cases (adapters.instantiate_adapter s)) [
    | inr (r, p) ↦ rw (p, build_and_register) refl
    | inl (a, p) ↦
        let other =
          get-register_other a s.attachment_id (adapters.start_error a) m x (rw (named s a p) h) in
        elim (Option-cases
          (ChannelManager.register a s.attachment_id (adapters.start_error a) m).1) [
            | inl q ↦ rw (p, build_and_register) (rw (q, build_and_register) other)
            | inr (r, q) ↦ rw (p, build_and_register) (rw (q, build_and_register) other)
          ]
  ]

  build-Truthful :
      (done : ReloadAction) (s : Sidecar) (m : ChannelManager)
      → up done ≡ true
      → get s.instance_id m.entries ≡ none
      → Truthful (build_and_register adapters done s m).0 (build_and_register adapters done s m).1
  unfolding build_and_register
  build-Truthful done s m u h = elim (⊎-cases (adapters.instantiate_adapter s)) [
    | inr (r, p) ↦ rw (p, build_and_register) (ap is_some h)
    | inl (a, p) ↦
        let free : get a.id m.entries ≡ none = rw (named s a p) h in
        let left = present-register a s.attachment_id (adapters.start_error a) m free in
        let reg = ChannelManager.register a s.attachment_id (adapters.start_error a) m in
        let at_id : present s.instance_id reg.0 ≡ not (is_some reg.1) =
          ap (λ i. present i reg.0) (sym (named s a p)) ∙ left in
        elim (Option-cases reg.1) [
          | inl q ↦
              rw (p, build_and_register)
                (rw (q, build_and_register) (at_id ∙ ap (λ o. not (is_some o)) q ∙ sym u))
          | inr (r, q) ↦
              rw (p, build_and_register)
                (rw (q, build_and_register) (at_id ∙ ap (λ o. not (is_some o)) q))
        ]
  ]

  pub action-other :
      (x : String) (a : ReconcileAction) (m : ChannelManager)
      → touches x a ≡ false
      → get x (execute_action adapters a m).0.entries ≡ get x m.entries
  unfolding execute_action
  action-other x (load_error id path reason) m h = refl
  action-other x (register s) m h = unfold execute_apply in build-other x registered s m h
  action-other x (unregister_stale id) m h =
      let left = get-unregister x id (adapters.stop_error id) m in
      elim (Option-cases (ChannelManager.unregister id (adapters.stop_error id) m).1) [
        | inl p ↦
            unfold execute_unregister_stale in
            rw (p, execute_unregister_stale) (left ∙ ground arith)
        | inr (r, p) ↦
            unfold execute_unregister_stale in
            rw (p, execute_unregister_stale) (left ∙ ground arith)
      ]
  action-other x (replace s) m h =
      let id = s.instance_id in
      let left = get-unregister x id (adapters.stop_error id) m in
      elim (Option-cases (ChannelManager.unregister id (adapters.stop_error id) m).1) [
        | inr (r, p) ↦ unfold execute_apply in rw (p, execute_apply) (left ∙ ground arith)
        | inl p ↦
            unfold execute_apply in
            rw (p, execute_apply)
              (build-other x replaced s (ChannelManager.unregister id (adapters.stop_error id) m).0
                  h
                ∙ left
                ∙ ground arith)
      ]

  pub action-Truthful :
      (a : ReconcileAction) (m : ChannelManager)
      → Ready m a
      → Truthful (execute_action adapters a m).0 (execute_action adapters a m).1
  unfolding execute_action
  action-Truthful (load_error id path reason) m h = tt
  action-Truthful (register s) m h = unfold execute_apply in build-Truthful registered s m refl h
  action-Truthful (unregister_stale id) m h =
      let gone = get-unregister id id (adapters.stop_error id) m in
      elim (Option-cases (ChannelManager.unregister id (adapters.stop_error id) m).1) [
        | inl p ↦
            unfold execute_unregister_stale in
            rw (p, execute_unregister_stale) (ground (arith, gone, ==_refl id))
        | inr (r, p) ↦
            unfold execute_unregister_stale in
            rw (p, execute_unregister_stale) (ground (arith, gone, ==_refl id))
      ]
  action-Truthful (replace s) m h =
      let id = s.instance_id in
      let m' = (ChannelManager.unregister id (adapters.stop_error id) m).0 in
      let gone : get id m'.entries ≡ none =
        get-unregister id id (adapters.stop_error id) m ∙ ground (arith, ==_refl id) in
      elim (Option-cases (ChannelManager.unregister id (adapters.stop_error id) m).1) [
        | inr (r, p) ↦ unfold execute_apply in rw (p, execute_apply) (ap is_some gone)
        | inl p ↦
            unfold execute_apply in rw (p, execute_apply) (build-Truthful replaced s m' refl gone)
      ]
