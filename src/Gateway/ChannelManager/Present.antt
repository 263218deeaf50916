-- ===== src/Gateway/ChannelManager/Present.antt =====
-- What registering and unregistering an adapter leaves under every id.
use mathlib.Core.Logic.{inl, inr}
use athena_flow_cli.Common.{
  String, Option, none, some, is_some, Bool, true, false, not, arith, ◌≡◌, refl, ◌∙◌, if◌then◌else◌,
  ◌==◌, string_eq, Bool-cases, Option-cases, eq_of_==, ==_refl,
}
use athena_flow_cli.Common.Dict.{get, get-set, get-delete}
use athena_flow_cli.Gateway.ChannelManager
use athena_flow_cli.Gateway.ChannelManager.{
  ChannelManager, ChannelAdapter, Entry, ManagerError, list_channels, HealthSample, begin_register,
  end_register, stop_outcome, new_entry,
}

-- Whether a channel is registered.
abbrev pub present : String → ChannelManager → Bool
present x m = is_some (get x m.entries)

pub get-unregister :
    (x id : String) (e : Option String) (m : ChannelManager)
    → get x (ChannelManager.unregister id e m).0.entries
      ≡ (if id == x then none else get x m.entries)
unfolding ChannelManager.unregister
get-unregister x id e m = elim (Option-cases (get id m.entries)) [
  | inl p ↦ elim (Bool-cases (id == x)) [
    | inl q ↦ let same : id ≡ x = eq_of_== id x q in ground (arith, same)
    | inr q ↦ ground arith
  ]
  | inr (entry, p) ↦ ground (arith, get-delete id x m.entries)
]

module _ (a : ChannelAdapter) (att e : Option String) (m : ChannelManager) where
  get-begin_register :
      (x : String)
      → (a.id == x) ≡ false
      → get x (begin_register a att m).0.entries ≡ get x m.entries
  unfolding begin_register
  get-begin_register x h = elim (Bool-cases m.stopped) [
    | inl p ↦ ground arith
    | inr p ↦ elim (Bool-cases (is_some (get a.id m.entries))) [
      | inl q ↦ ground arith
      | inr q ↦ ground (arith, get-set a.id x (new_entry a att) m.entries)
    ]
  ]

  get-end_register :
      (x : String) (m' : ChannelManager)
      → (a.id == x) ≡ false
      → get x (end_register a e m').0.entries ≡ get x m'.entries
  get-end_register x m' h = end_at e x m' h
    where
      end_at :
          (o : Option String) (x : String) (m' : ChannelManager)
          → (a.id == x) ≡ false
          → get x (end_register a o m').0.entries ≡ get x m'.entries
      end_at none x m' h = unfold end_register in refl
      end_at (some r) x m' h = unfold end_register in ground (arith, get-delete a.id x m'.entries)

  pub get-register_other :
      (x : String)
      → (a.id == x) ≡ false
      → get x (ChannelManager.register a att e m).0.entries ≡ get x m.entries
  unfolding ChannelManager.register
  get-register_other x h = elim (Option-cases (begin_register a att m).1) [
    | inl p ↦
        rw (p, ChannelManager.register)
          (get-end_register x (begin_register a att m).0 h ∙ get-begin_register x h)
    | inr (r, p) ↦ rw (p, ChannelManager.register) (get-begin_register x h)
  ]

  begin_register-present :
      get a.id m.entries ≡ none
      → present a.id (begin_register a att m).0 ≡ not (is_some (begin_register a att m).1)
  unfolding begin_register
  begin_register-present h = elim (Bool-cases m.stopped) [
    | inl p ↦ ground arith
    | inr p ↦ ground (arith, get-set a.id a.id (new_entry a att) m.entries, ==_refl a.id)
  ]

  end_register-present :
      (m' : ChannelManager)
      → present a.id m' ≡ true
      → present a.id (end_register a e m').0 ≡ not (is_some (end_register a e m').1)
  end_register-present m' h = end_at e
    where
      end_at :
          (o : Option String)
          → present a.id (end_register a o m').0 ≡ not (is_some (end_register a o m').1)
      end_at none = unfold end_register in h
      end_at (some r) =
          unfold end_register in ground (arith, get-delete a.id a.id m'.entries, ==_refl a.id)

  -- What an adapter's id is left with, when it was free.
  pub present-register :
      get a.id m.entries ≡ none
      → present a.id (ChannelManager.register a att e m).0
        ≡ not (is_some (ChannelManager.register a att e m).1)
  unfolding ChannelManager.register
  present-register h =
      let began = begin_register-present h in
      elim (Option-cases (begin_register a att m).1) [
        | inl p ↦
            rw (p, ChannelManager.register)
              (end_register-present (begin_register a att m).0 (ground arith))
        | inr (r, p) ↦ rw (p, ChannelManager.register) (ground arith)
      ]
