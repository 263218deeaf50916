-- ===== src/Gateway/Reconciler/Planned.antt =====
-- The channels that the actions of a plan name.
use mathlib.Core.Logic.{inl, inr}
use athena_flow_cli.Common.{
  String, Option, none, is_some, List, [], ◌∷◌, ◌++◌, true, false, not, ◌&&◌, ◌||◌, any, map, arith,
  ◌≡◌, refl, ap, ◌∙◌, ◌==◌, string_eq, All, Bool-cases, eq_of_==,
}
use athena_flow_cli.Common.Dict
use athena_flow_cli.Common.Dict.{Dict, get}
use athena_flow_cli.Gateway.Reconcile.{
  Sidecar, LoadError, ReconcileAction, PlanInput, has, desired_ids, plan_channel_reconciliation,
  report_errors, unregister_each, place_each,
}
use athena_flow_cli.Gateway.ChannelManager.{ChannelManager, Entry, HealthSample}
use athena_flow_cli.Gateway.Reconciler.Outcomes.{touches, Ready}

-- Each channel is named by one action, and what is to be registered anew is free.
abbrev pub Separate : ChannelManager → List ReconcileAction → Type 0
Separate m [] = Unit
Separate m (a ∷ as') =
    Ready m a × ((x : String) → touches x a ≡ true → any (touches x) as' ≡ false) × Separate m as'

-- No id occurs twice.
abbrev pub Distinct : List String → Type 0
Distinct [] = Unit
Distinct (x ∷ xs) = (has x xs ≡ false) × Distinct xs

any-append :
    (x : String) (xs ys : List ReconcileAction)
    → any (touches x) (xs ++ ys) ≡ (any (touches x) xs || any (touches x) ys)
any-append x [] ys = refl
any-append x (a ∷ xs) ys = ground (arith, any-append x xs ys)

Separate-append :
    (m : ChannelManager) (xs ys : List ReconcileAction)
    → Separate m xs
    → Separate m ys
    → ((x : String) → any (touches x) xs ≡ true → any (touches x) ys ≡ false)
    → Separate m (xs ++ ys)
Separate-append m [] ys h k apart = k
Separate-append m (a ∷ xs) ys h k apart = (
  h.0,
  λ x t. ground (arith, any-append x xs ys, h.1 x t, apart x),
  Separate-append m xs ys h.2 k (λ x t. apart x (rw t (ground arith))),
)

errors-touch : (x : String) (es : List LoadError) → any (touches x) (report_errors es) ≡ false
unfolding report_errors
errors-touch x [] = refl
errors-touch x (e ∷ es) = errors-touch x es

report_errors-Separate : (m : ChannelManager) (es : List LoadError) → Separate m (report_errors es)
unfolding report_errors
report_errors-Separate m [] = tt
report_errors-Separate m (e ∷ es) = (tt, λ x t. cc, report_errors-Separate m es)

stale-touch :
    (x : String) (wanted ids : List String)
    → any (touches x) (unregister_each wanted ids) ≡ (has x ids && not (has x wanted))
unfolding unregister_each
stale-touch x wanted [] = refl
stale-touch x wanted (id ∷ ids) = elim (Bool-cases (id == x)) [
  | inl e ↦
      let same : id ≡ x = eq_of_== id x e in
      ground (arith, stale-touch x wanted ids, ap (λ i. has i wanted) same)
  | inr e ↦ ground (arith, stale-touch x wanted ids)
]

unregister_each-Separate :
    (m : ChannelManager) (wanted ids : List String)
    → Distinct ids
    → Separate m (unregister_each wanted ids)
unfolding unregister_each
unregister_each-Separate m wanted [] d = tt
unregister_each-Separate m wanted (id ∷ ids) d = elim (Bool-cases (has id wanted)) [
  | inl e ↦ rw e (unregister_each-Separate m wanted ids d.1)
  | inr e ↦ rw e (
    tt,
    λ x t. stale-touch x wanted ids ∙ (rw (← eq_of_== id x t, d.0) refl),
    unregister_each-Separate m wanted ids d.1,
  )
]

place-touch :
    (x : String) (current : List String) (ss : List Sidecar)
    → any (touches x) (place_each current ss) ≡ has x (desired_ids ss)
unfolding place_each
place-touch x current [] = refl
place-touch x current (s ∷ ss) = elim (Bool-cases (has s.instance_id current)) [
  | inl e ↦ rw e (ground (arith, place-touch x current ss))
  | inr e ↦ rw e (ground (arith, place-touch x current ss))
]

place_each-Separate :
    (m : ChannelManager) (current : List String) (ss : List Sidecar)
    → Distinct (desired_ids ss)
    → ((x : String) → has x current ≡ false → get x m.entries ≡ none)
    → Separate m (place_each current ss)
unfolding place_each
place_each-Separate m current [] d free = tt
place_each-Separate m current (s ∷ ss) d free =
    let apart : (x : String)
        → (s.instance_id == x) ≡ true
        → any (touches x) (place_each current ss) ≡ false =
      λ x t. place-touch x current ss ∙ (rw (← eq_of_== s.instance_id x t) d.0) in
    elim (Bool-cases (has s.instance_id current)) [
      | inl e ↦ rw e (tt, apart, place_each-Separate m current ss d.1 free)
      | inr e ↦ rw e (free s.instance_id e, apart, place_each-Separate m current ss d.1 free)
    ]

-- Every entry is kept under its adapter's id, and no id twice.
abbrev pub KeyedEntries : Dict String Entry → Type 0
KeyedEntries entries =
    All (λ (x : String × Entry). x.0 ≡ x.1.adapter.id) entries × Dict.Distinct entries

abbrev pub channel_ids : Dict String Entry → List String
channel_ids entries = map (λ (x : String × Entry). x.1.adapter.id) entries

has-channel_ids :
    (x : String) (es : Dict String Entry)
    → All (λ (e : String × Entry). e.0 ≡ e.1.adapter.id) es
    → has x (channel_ids es) ≡ is_some (get x es)
unfolding get
has-channel_ids x [] h = refl
has-channel_ids x ((k, e) ∷ es) h = rw (← h.0) (ground (arith, has-channel_ids x es h.1))

channel_ids-Distinct : (es : Dict String Entry) → KeyedEntries es → Distinct (channel_ids es)
channel_ids-Distinct [] h = tt
channel_ids-Distinct ((k, e) ∷ es) (h, d) = (
  has-channel_ids e.adapter.id es h.1 ∙ (rw (← h.0, d.0) refl),
  channel_ids-Distinct es (h.1, d.1),
)

pub listed :
    (es : Dict String Entry)
    → map
        (λ (c : String × Option HealthSample). c.0)
        (map (λ (x : String × Entry). (x.1.adapter.id, x.1.last_health)) es)
      ≡ channel_ids es
listed [] = refl
listed (x ∷ es) = ap (◌∷◌ x.1.adapter.id) (listed es)

pub plan-Separate :
    (m : ChannelManager) (input : PlanInput)
    → KeyedEntries m.entries
    → Distinct (desired_ids input.desired)
    → input.current_channel_ids ≡ channel_ids m.entries
    → Separate m (plan_channel_reconciliation input)
unfolding plan_channel_reconciliation
plan-Separate m input keyed d e =
    let wanted = desired_ids input.desired in
    let current = input.current_channel_ids in
    let ids : Distinct current = rw e (channel_ids-Distinct m.entries keyed) in
    let places =
      place_each-Separate m current input.desired d
        (λ x h. ground (arith, has-channel_ids x m.entries keyed.0, ap (has x) e)) in
    Separate-append m (report_errors input.load_errors) _
      (report_errors-Separate m input.load_errors)
      (elim (Bool-cases input.unregister_stale) [
        | inr u ↦ rw u places
        | inl u ↦ rw u (
            Separate-append m (unregister_each wanted current) (place_each current input.desired)
              (unregister_each-Separate m wanted current ids) places
              (λ x t.
                ground (arith, stale-touch x wanted current, place-touch x current input.desired)))
      ])
      (λ x t. absurd (cc (errors-touch x input.load_errors, t)))
