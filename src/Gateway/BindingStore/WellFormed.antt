-- ===== src/Gateway/BindingStore/WellFormed.antt =====
-- What holds of the binding store between any two calls.
use athena_flow_cli.Common.{
  ℕ, String, ◌≡◌, refl, ◌≢◌, ◌⊎◌, inl, inr, true, false, Option, none, some, List, ◌==◌, option_eq,
  string_eq, nat_eq, is_some, Bool-cases,
}
use athena_flow_cli.Common.Dict.{
  Distinct, get, set-Distinct, delete-Distinct, get-set_cases, get-delete_cases, set, delete,
}
use athena_flow_cli.Gateway.Types.{AttachmentKey}
use athena_flow_cli.Gateway.BindingStore.Timers.{
  Below, Pending, OwnedBy, clear-Below, clear-OwnedBy, clear-Pending,
}
use athena_flow_cli.Gateway.BindingStore.{
  Store, Slot, Timer, Binding, is_bound, init, bind, bind_slot, clear_timeout, BindInput,
  BindResult, bound, already_registered, next_binding,
}

-- One slot: it is keyed by its runtime's attachment and has a binding; an active slot has no timer;
-- a stale one has no push handle, and an expiry timer is pending for it.
pub record SlotOk (ts : List Timer) (n : ℕ) (key : AttachmentKey) (s : Slot) : Type 0 where
  pub keyed : s.runtime.attachment_id ≡ key
  pub has_binding : is_some s.binding ≡ true
  pub calm : is_bound s.binding ≡ true → (s.stale_timer ≡ none) × (s.stale_since ≡ none)
  pub lost : is_bound s.binding ≡ false → s.push ≡ none
  pub expiring : is_bound s.binding ≡ false → Pending key s.runtime.runtime_id ts
  pub owned : OwnedBy key s.stale_timer n ts

pub record WellFormed (st : Store) : Type 0 where
  pub distinct : Distinct st.slots
  pub below : Below st.next_timer st.timers
  pub slots_ok :
      (k : AttachmentKey) (s : Slot) → get k st.slots ≡ some s → SlotOk st.timers st.next_timer k s

pub init-WellFormed : (grace : ℕ) → WellFormed (init grace)
unfolding init get
init-WellFormed grace = record { distinct = tt; below = tt; slots_ok = λ k s e. cc }

-- The timers may change as long as the slot's own stay.
pub SlotOk-timers :
    {ts us : List Timer} {n m : ℕ} {key : AttachmentKey} {s : Slot}
    → (Pending key s.runtime.runtime_id ts → Pending key s.runtime.runtime_id us)
    → (OwnedBy key s.stale_timer n ts → OwnedBy key s.stale_timer m us)
    → SlotOk ts n key s
    → SlotOk us m key s
SlotOk-timers pending owned ok = record {
  keyed = ok.keyed;
  has_binding = ok.has_binding;
  calm = ok.calm;
  lost = ok.lost;
  expiring = λ e. pending (ok.expiring e);
  owned = owned ok.owned;
}

-- One slot is written, and the timer `o` of that slot is cleared.
module _ (st : Store) (ok : WellFormed st) (key : AttachmentKey) (o : Option ℕ)
    (mine : OwnedBy key o st.next_timer st.timers) where
  others_kept :
      (k : AttachmentKey) (s : Slot)
      → key ≢ k
      → get k st.slots ≡ some s
      → SlotOk (clear_timeout o st.timers) st.next_timer k s
  others_kept k s ne e =
      SlotOk-timers (clear-Pending key o st.next_timer k s.runtime.runtime_id st.timers mine ne)
        (clear-OwnedBy o k s.stale_timer st.next_timer st.timers) (ok.slots_ok k s e)

  set_ok :
      (new : Slot)
      → SlotOk (clear_timeout o st.timers) st.next_timer key new
      → (k : AttachmentKey) (s : Slot)
      → ((key ≡ k) × (new ≡ s)) ⊎ ((key ≢ k) × (get k st.slots ≡ some s))
      → SlotOk (clear_timeout o st.timers) st.next_timer k s
  set_ok new fits k s (inl (here, same)) = rw (← here, ← same) fits
  set_ok new fits k s (inr (there, e)) = others_kept k s there e

  pub set-WellFormed :
      (new : Slot)
      → SlotOk (clear_timeout o st.timers) st.next_timer key new
      → WellFormed (record st { slots = set key new st.slots; timers = clear_timeout o st.timers })
  set-WellFormed new fits = record {
    distinct = set-Distinct key new st.slots ok.distinct;
    below = clear-Below o st.next_timer st.timers ok.below;
    slots_ok = λ k s e. set_ok new fits k s (get-set_cases key k new s st.slots e);
  }

  pub delete-WellFormed :
      WellFormed (record st { slots = delete key st.slots; timers = clear_timeout o st.timers })
  delete-WellFormed = record {
    distinct = delete-Distinct key st.slots ok.distinct;
    below = clear-Below o st.next_timer st.timers ok.below;
    slots_ok = λ k s e.
        let (there, old) = get-delete_cases key k s st.slots e in others_kept k s there old;
  }

-- An active slot with no timer is in order, whatever timers are pending.
calm-SlotOk :
    {ts : List Timer} {n : ℕ} {key : AttachmentKey} (s : Slot)
    → s.runtime.attachment_id ≡ key
    → is_bound s.binding ≡ true
    → is_some s.binding ≡ true
    → s.stale_timer ≡ none
    → s.stale_since ≡ none
    → SlotOk ts n key s
calm-SlotOk {ts} {n} {key} s k b h t c = record {
  keyed = k;
  has_binding = h;
  calm = λ _. (t, c);
  lost = λ e. cc;
  expiring = λ e. cc;
  owned = rw t tt;
}

next_binding-is_bound :
    (b : Option Binding) (c : String) (now : ℕ) → is_bound (some (next_binding b c now)) ≡ true
unfolding next_binding
next_binding-is_bound none c now = refl
next_binding-is_bound (some b) c now = refl

abbrev pub Outcome : (Store → Type 0) → BindResult → Type 0
Outcome P (bound st t os) = P st
Outcome P (already_registered r) = Unit {0}

bind_slot-WellFormed :
    (st : Store) (input : BindInput) (now : ℕ) (o : Option Slot)
    → get input.attachment_id st.slots ≡ o
    → WellFormed st
    → Outcome WellFormed (bind_slot st input now o)
unfolding bind_slot clear_timeout
bind_slot-WellFormed st input now none e ok =
    set-WellFormed st ok input.attachment_id none tt _
      (calm-SlotOk _ refl (next_binding-is_bound none input.connection_id now) refl refl refl)
bind_slot-WellFormed st input now (some old) e ok =
    elim (Bool-cases (old.runtime.runtime_id == input.runtime_id)) [
      | inl same ↦ rw same (
          set-WellFormed st ok input.attachment_id old.stale_timer was.owned _ (
            calm-SlotOk _ was.keyed (next_binding-is_bound old.binding input.connection_id now) refl
              refl refl))
      | inr other ↦ rw other tt
    ]
  where
    was : SlotOk st.timers st.next_timer input.attachment_id old
    was = ok.slots_ok input.attachment_id old e

pub bind-WellFormed :
    (st : Store) (input : BindInput) (now : ℕ)
    → WellFormed st
    → Outcome WellFormed (bind st input now)
unfolding bind
bind-WellFormed st input now ok = bind_slot-WellFormed st input now _ refl ok
