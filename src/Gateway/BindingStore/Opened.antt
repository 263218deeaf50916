-- ===== src/Gateway/BindingStore/Opened.antt =====
-- What a client reads from the slot that a bind has just opened.
use athena_flow_cli.Common.{
  [], ℕ, String, ◌≡◌, refl, ◌∙◌, Option, none, some, inl, inr, true, Bool-cases, ◌==◌, string_eq,
  option_eq,
}
use athena_flow_cli.Common.Dict.{get, get-set_self}
use athena_flow_cli.Gateway.Types.{AttachmentKey}
use athena_flow_cli.Gateway.BindingStore.{
  RegisteredRuntime, Store, Slot, Push, BindInput, BindResult, Binding, bound, already_registered,
  bind, bind_slot, is_bound, push_to, has_active_binding_for_attachment, get_current_by_attachment,
  next_binding, clear_stale_timer_for_slot, or_keep,
}

pub push_to_of :
    (st : Store) (key : AttachmentKey) (s : Slot)
    → get key st.slots ≡ some s
    → push_to st key ≡ s.push
unfolding push_to
push_to_of st key s e = rw (e, push_to)

pub has_active_of :
    (st : Store) (key : AttachmentKey) (s : Slot)
    → get key st.slots ≡ some s
    → has_active_binding_for_attachment st key ≡ is_bound s.binding
unfolding has_active_binding_for_attachment
has_active_of st key s e = rw (e, has_active_binding_for_attachment)

pub current_of :
    (st : Store) (key : AttachmentKey) (s : Slot)
    → get key st.slots ≡ some s
    → get_current_by_attachment st key ≡ some s.runtime
unfolding get_current_by_attachment
current_of st key s e = rw e refl

abbrev pub Opens : AttachmentKey → Push → String → BindResult → Type 0
Opens key handle default (already_registered r) = Unit {0}
Opens key handle default (bound st at os) =
    (push_to st key ≡ some handle)
    × (has_active_binding_for_attachment st key ≡ true)
    × ((rt : RegisteredRuntime) × (get_current_by_attachment st key ≡ some rt)
        × (rt.default_agent_id ≡ default))

opened_slot :
    (st : Store) (key : AttachmentKey) (s : Slot) (handle : Push)
    → get key st.slots ≡ some s
    → s.push ≡ some handle
    → is_bound s.binding ≡ true
    → Opens key handle s.runtime.default_agent_id (bound st 0 [])
opened_slot st key s handle e p b = (
  push_to_of st key s e ∙ p,
  has_active_of st key s e ∙ b,
  (s.runtime, current_of st key s e, refl),
)

rebound :
    (b : Option Binding) (c : String) (now : ℕ) → is_bound (some (next_binding b c now)) ≡ true
unfolding next_binding
rebound none c now = refl
rebound (some b) c now = refl

bind_slot-Opens :
    (st : Store) (input : BindInput) (now : ℕ) (handle : Push) (old : Option Slot)
    → input.push ≡ some handle
    → Opens input.attachment_id handle input.default_agent_id (bind_slot st input now old)
unfolding bind_slot next_binding clear_stale_timer_for_slot or_keep
bind_slot-Opens st input now handle none e =
    opened_slot _ input.attachment_id _ handle (get-set_self input.attachment_id _ st.slots) e refl
bind_slot-Opens st input now handle (some old) e =
    elim (Bool-cases (old.runtime.runtime_id == input.runtime_id)) [
      | inl same ↦ rw same (
          opened_slot _ input.attachment_id _ handle (get-set_self input.attachment_id _ st.slots)
            (rw e refl) (rebound old.binding input.connection_id now))
      | inr other ↦ rw other tt
    ]

-- A bind with a push handle leaves its slot live, with that handle and the runtime's agent.
pub bind-Opens :
    (st : Store) (input : BindInput) (now : ℕ) (handle : Push)
    → input.push ≡ some handle
    → Opens input.attachment_id handle input.default_agent_id (bind st input now)
unfolding bind
bind-Opens st input now handle e = bind_slot-Opens st input now handle _ e
