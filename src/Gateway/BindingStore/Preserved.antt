-- ===== src/Gateway/BindingStore/Preserved.antt =====
-- The calls that lose a connection, on a well-formed binding store.
use athena_flow_cli.Common.{
  ℕ, suc, String, ◌≡◌, refl, ◌≢◌, ◌⊎◌, inl, inr, Bool, false, Option, none, some, List, ◌∷◌, arith,
  ◌==◌, option_eq, string_eq, nat_eq, Bool-cases, find,
}
use athena_flow_cli.Common.Dict.{get-find}
use athena_flow_cli.Gateway.Types.{AttachmentKey}
use athena_flow_cli.Gateway.BindingStore.Timers.{
  Pending, Owned, OwnedBy, Scheduled, clear-OwnedBy, fresh-Owned, fired-Pending,
}
use athena_flow_cli.Gateway.BindingStore.WellFormed.{
  SlotOk, WellFormed, SlotOk-timers, set-WellFormed, delete-WellFormed,
}
use athena_flow_cli.Gateway.BindingStore.{
  Store, Slot, Timer, Binding, is_bound, unbind, notify_connection_closed, close_slot, closed_slot,
  clear_timeout, BindResult, bound, already_registered, unbind_slot, find_slot_by_connection_id,
  bound_to, Observed, stale_binding,
}

-- The store after a call: the old one where the call throws.
abbrev pub after_unbind : Store → Option (Store × List Observed) → Store
after_unbind st none = st
after_unbind st (some r) = r.0

abbrev pub after_bind : Store → BindResult → Store
after_bind st (bound st' t os) = st'
after_bind st (already_registered r) = st

-- A slot that a search by runtime or by connection finds is the one at its key.
found_slot :
    (st : Store) (p : AttachmentKey × Slot → Bool) (key : AttachmentKey) (s : Slot)
    → WellFormed st
    → find p st.slots ≡ some (key, s)
    → SlotOk st.timers st.next_timer key s
found_slot st p key s ok e = ok.slots_ok key s (get-find p st.slots key s ok.distinct e)

unbind_slot-WellFormed :
    (st : Store) (id : String) (o : Option (AttachmentKey × Slot))
    → find (λ e. e.1.runtime.runtime_id == id) st.slots ≡ o
    → WellFormed st
    → WellFormed (after_unbind st (unbind_slot st id o))
unfolding unbind_slot
unbind_slot-WellFormed st id none e ok = ok
unbind_slot-WellFormed st id (some (key, s)) e ok =
    delete-WellFormed st ok key s.stale_timer (found_slot st _ key s ok e).owned

pub unbind-WellFormed :
    (st : Store) (id : String) → WellFormed st → WellFormed (after_unbind st (unbind st id))
unfolding unbind
unbind-WellFormed st id ok = unbind_slot-WellFormed st id _ refl ok

-- `setTimeout`: what was in order stays so.
schedule-WellFormed :
    (st : Store) (t : Timer)
    → t.timer_id ≡ st.next_timer
    → WellFormed st
    → WellFormed (record st { timers = t ∷ st.timers; next_timer = suc st.next_timer })
schedule-WellFormed st t e ok = record {
  distinct = ok.distinct;
  below = (omega arith, rw e ok.below);
  slots_ok = λ k s g. SlotOk-timers inr (weaken k s.stale_timer) (ok.slots_ok k s g);
}
  where
    weaken :
        (k : AttachmentKey) (o : Option ℕ)
        → OwnedBy k o st.next_timer st.timers
        → OwnedBy k o (suc st.next_timer) (t ∷ st.timers)
    weaken k none h = tt
    weaken k (some i) (lt, h) = (omega arith, (λ same. absurd (omega arith), h))

stale_binding-is_stale :
    (b : Option Binding) (c : String) (now : ℕ) → is_bound (some (stale_binding b c now)) ≡ false
unfolding stale_binding
stale_binding-is_stale none c now = refl
stale_binding-is_stale (some b) c now = refl

closed_slot-SlotOk :
    (ts : List Timer) (n : ℕ) (key : AttachmentKey) (s : Slot) (c : String) (now : ℕ)
    → s.runtime.attachment_id ≡ key
    → Pending key s.runtime.runtime_id ts
    → Owned key n ts
    → SlotOk ts (suc n) key (closed_slot s c now n)
unfolding closed_slot
closed_slot-SlotOk ts n key s c now k p o = record {
  keyed = k;
  has_binding = refl;
  calm = λ b. cc (stale_binding-is_stale s.binding c now);
  lost = λ _. refl;
  expiring = λ _. p;
  owned = (omega arith, o);
}

close_slot-WellFormed :
    (st : Store) (c : String) (now : ℕ) (o : Option (AttachmentKey × Slot))
    → find (λ e. bound_to c e.1.binding) st.slots ≡ o
    → WellFormed st
    → WellFormed (close_slot st c now o).0
unfolding close_slot clear_timeout
close_slot-WellFormed st c now none e ok = ok
close_slot-WellFormed st c now (some (key, s)) e ok = elim (Bool-cases (st.grace_period_ms == 0)) [
  | inl z ↦ rw z (delete-WellFormed st ok key none tt)
  | inr z ↦ rw z (
      set-WellFormed _ (schedule-WellFormed st _ refl ok) key none tt _ (
        closed_slot-SlotOk _ st.next_timer key s c now (found_slot st _ key s ok e).keyed
          (inl (refl, refl)) ((λ _. refl), fresh-Owned key st.next_timer st.timers ok.below)))
]

pub notify_connection_closed-WellFormed :
    (st : Store) (c : String) (now : ℕ)
    → WellFormed st
    → WellFormed (notify_connection_closed st c now).0
unfolding notify_connection_closed find_slot_by_connection_id
notify_connection_closed-WellFormed st c now ok = close_slot-WellFormed st c now _ refl ok

-- A timer of another slot, or of a runtime that has gone, is not the one that the slot waits for.
pub fire_kept :
    (st : Store) (t : Timer) (k : AttachmentKey) (s : Slot)
    → WellFormed st
    → Scheduled t st.timers
    → (t.key ≢ k) ⊎ (t.runtime_id ≢ s.runtime.runtime_id)
    → SlotOk st.timers st.next_timer k s
    → SlotOk (clear_timeout (some t.timer_id) st.timers) st.next_timer k s
fire_kept st t k s ok sch ne was =
    SlotOk-timers (fired-Pending t st.next_timer k s.runtime.runtime_id st.timers ok.below sch ne)
      (clear-OwnedBy (some t.timer_id) k s.stale_timer st.next_timer st.timers) was
