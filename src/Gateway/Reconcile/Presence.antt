-- ===== src/Gateway/Reconcile/Presence.antt =====
-- The plan of src/gateway/channelReconcilePlan.ts, carried out on the ids of the registered channels.
use athena_flow_cli.Common.{
  String, ◌≡◌, refl, ◌∙◌, ap, Option, none, some, List, [], ◌∷◌, ◌++◌, if◌then◌else◌, ◌==◌,
  string_eq, Bool, true, false, not, ◌&&◌, ◌||◌, arith, Bool-cases, Option-cases, eq_of_==, inl,
  inr,
}
use athena_flow_cli.Gateway.Reconcile.{
  Sidecar, LoadError, ReconcileAction, load_error, unregister_stale, replace, register, PlanInput,
  has, desired_ids, report_errors, unregister_each, place_each, plan_channel_reconciliation,
}
use athena_flow_cli.Gateway.Reconciler.Planned.{Distinct}

-- One action, as it meets the channel `x`, which is registered or not: none where it does not suit, a
-- channel that is registered twice, or one that is replaced or unregistered and is not there.
abbrev pub perform : String → ReconcileAction → Bool → Option Bool
perform x (load_error id path reason) b = some b
perform x (unregister_stale id) b = if id == x then (if b then some false else none) else some b
perform x (replace s) b = if s.instance_id == x then (if b then some true else none) else some b
perform x (register s) b = if s.instance_id == x then (if b then none else some true) else some b

unfoldable pub perform_all : String → List ReconcileAction → Bool → Option Bool
perform_all x [] b = some b
perform_all x (a ∷ as') b = elim (perform x a b) [ none ↦ none | some c ↦ perform_all x as' c ]

perform_all-next :
    (x : String) (a : ReconcileAction) (as' : List ReconcileAction) (b c : Bool)
    → perform x a b ≡ some c
    → perform_all x (a ∷ as') b ≡ perform_all x as' c
unfolding perform_all
perform_all-next x a as' b c h = rw (h, perform_all) refl

perform_all-some :
    (x : String) (as' bs : List ReconcileAction) (b c : Bool)
    → perform_all x as' b ≡ some c
    → perform_all x (as' ++ bs) b ≡ perform_all x bs c
unfolding perform_all
perform_all-some x [] bs b c h = ap (perform_all x bs) (cc h)
perform_all-some x (a ∷ as') bs b c h = elim (Option-cases (perform x a b)) [
  | inl p ↦ cc (rw (p, perform_all) at h)
  | inr (d, p) ↦ rw (p, perform_all) (perform_all-some x as' bs d c (rw (p, perform_all) at h))
]

perform_all-report_errors :
    (x : String) (es : List LoadError) (b : Bool) → perform_all x (report_errors es) b ≡ some b
unfolding perform_all report_errors
perform_all-report_errors x [] b = refl
perform_all-report_errors x (e ∷ es) b = perform_all-report_errors x es b

perform_all-place_each :
    (x : String) (current : List String) (ss : List Sidecar) (b : Bool)
    → Distinct (desired_ids ss)
    → (has x (desired_ids ss) ≡ true → b ≡ has x current)
    → perform_all x (place_each current ss) b ≡ some (has x (desired_ids ss) || b)
unfolding perform_all place_each
perform_all-place_each x current [] b d h = refl
perform_all-place_each x current (s ∷ ss) b d h = elim (Bool-cases (s.instance_id == x)) [
  | inr t ↦
      let rest = perform_all-place_each x current ss b d.1 (λ k. h (ground (arith, k))) in
      elim (Bool-cases (has s.instance_id current)) [
        | inl e ↦ rw e (
            perform_all-next x (replace s) (place_each current ss) b b (rw t refl)
            ∙ rest
            ∙ ap some (ground (arith, t)))
        | inr e ↦ rw e (
            perform_all-next x (register s) (place_each current ss) b b (rw t refl)
            ∙ rest
            ∙ ap some (ground (arith, t)))
      ]
  | inl t ↦
      let same : s.instance_id ≡ x = eq_of_== s.instance_id x t in
      let once : has x (desired_ids ss) ≡ false = rw same at d.0 in
      let rest = perform_all-place_each x current ss true d.1 (λ k. cc (k, once)) in
      let was : b ≡ has x current = h (ground (arith, t)) in
      elim (Bool-cases (has s.instance_id current)) [
        | inl e ↦
            let there : b ≡ true = was ∙ (rw same at e) in
            rw e (
              perform_all-next x (replace s) (place_each current ss) b true (rw (t, there) refl)
              ∙ rest
              ∙ ap some (ground (arith, t)))
        | inr e ↦
            let free : b ≡ false = was ∙ (rw same at e) in
            rw e (
              perform_all-next x (register s) (place_each current ss) b true (rw (t, free) refl)
              ∙ rest
              ∙ ap some (ground (arith, t)))
      ]
]

perform_all-unregister_each :
    (x : String) (wanted ids : List String) (b : Bool)
    → Distinct ids
    → (has x ids ≡ true → b ≡ true)
    → perform_all x (unregister_each wanted ids) b
      ≡ some (if has x ids && not (has x wanted) then false else b)
unfolding perform_all unregister_each
perform_all-unregister_each x wanted [] b d h = refl
perform_all-unregister_each x wanted (id ∷ ids) b d h = elim (Bool-cases (id == x)) [
  | inr t ↦
      let rest = perform_all-unregister_each x wanted ids b d.1 (λ k. h (ground (arith, k))) in
      elim (Bool-cases (has id wanted)) [
        | inl e ↦ rw e (rest ∙ ap some (ground (arith, t)))
        | inr e ↦ rw e (
            perform_all-next x (unregister_stale id) (unregister_each wanted ids) b b (rw t refl)
            ∙ rest
            ∙ ap some (ground (arith, t)))
      ]
  | inl t ↦
      let same : id ≡ x = eq_of_== id x t in
      let once : has x ids ≡ false = rw same at d.0 in
      let there : b ≡ true = h (ground (arith, t)) in
      elim (Bool-cases (has id wanted)) [
        | inl e ↦
            let want : has x wanted ≡ true = rw same at e in
            let rest = perform_all-unregister_each x wanted ids b d.1 (λ k. there) in
            rw e (rest ∙ ap some (ground (arith, want, once)))
        | inr e ↦
            let want : has x wanted ≡ false = rw same at e in
            let rest = perform_all-unregister_each x wanted ids false d.1 (λ k. cc (k, once)) in
            rw e (
              perform_all-next x (unregister_stale id) (unregister_each wanted ids) b false
                (rw (t, there) refl)
              ∙ rest
              ∙ ap some (ground (arith, want, once, t)))
      ]
]

-- When neither the registered ids nor the desired ones repeat, the plan can be carried out in its order:
-- it registers no channel that is there, and replaces and unregisters none that is not. Afterwards
-- exactly the desired channels are registered when stale ones are to be unregistered, and else the
-- desired ones besides those that were registered already, whatever sidecars failed to load.
pub perform_all-plan :
    (x : String) (input : PlanInput)
    → Distinct input.current_channel_ids
    → Distinct (desired_ids input.desired)
    → perform_all x (plan_channel_reconciliation input) (has x input.current_channel_ids)
      ≡ some (
          has x (desired_ids input.desired)
          || (if input.unregister_stale then false else has x input.current_channel_ids))
unfolding plan_channel_reconciliation
perform_all-plan x input c d =
    let current = input.current_channel_ids in
    let wanted = desired_ids input.desired in
    perform_all-some x (report_errors input.load_errors) _ (has x current) (has x current)
      (perform_all-report_errors x input.load_errors (has x current))
    ∙ elim (Bool-cases input.unregister_stale) [
      | inl e ↦ rw e (
          perform_all-some x (unregister_each wanted current) _ (has x current) _
            (perform_all-unregister_each x wanted current (has x current) c (λ k. k))
          ∙ perform_all-place_each x current input.desired _ d (λ k. ground (arith, k))
          ∙ ap some (stale_gone (has x wanted) (has x current)))
      | inr e ↦ rw e (perform_all-place_each x current input.desired (has x current) d (λ k. refl))
    ]
  where
    stale_gone : (d c : Bool) → (d || (if c && not d then false else c)) ≡ (d || false)
    stale_gone true c = refl
    stale_gone false true = refl
    stale_gone false false = refl
