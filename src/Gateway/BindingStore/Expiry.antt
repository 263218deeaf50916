-- ===== src/Gateway/BindingStore/Expiry.antt =====
-- The timers of src/gateway/runtimeBindingStore.ts, and the stores that a history of calls reaches
-- before `stop`.
use athena_flow_cli.Common.{
  ℕ, String, ◌≡◌, refl, ◌≢◌, ◌⊎◌, inl, inr, Bool, true, false, not, Option, none, some, arith, ◌==◌,
  option_eq, string_eq, Bool-cases, ◌||◌,
}
use athena_flow_cli.Common.Dict.{
  Dict, Distinct, get, set, delete, set-Distinct, delete-Distinct, get-set_cases, get-delete_cases,
}
use athena_flow_cli.Gateway.Types.{AttachmentKey}
use athena_flow_cli.Gateway.BindingStore.Timers.{Scheduled, clear-Below}
use athena_flow_cli.Gateway.BindingStore.WellFormed.{
  SlotOk, WellFormed, Outcome, bind-WellFormed, init-WellFormed,
}
use athena_flow_cli.Gateway.BindingStore.Preserved.{
  fire_kept, unbind-WellFormed, notify_connection_closed-WellFormed, after_unbind, after_bind,
}
use athena_flow_cli.Gateway.BindingStore.{
  Store, Slot, Timer, is_bound, init, bind, unbind, BindResult, bound, already_registered,
  notify_connection_closed, fire, expire_stale_binding, expire_slot, BindInput, clear_timeout,
  clear_stale_timer_for_slot,
}

stays_why :
    (a b : String) (active : Bool) → (not (a == b) || active) ≡ true → (active ≡ true) ⊎ (b ≢ a)
stays_why a b true h = inl refl
stays_why a b false h = inr (λ e. ground arith)

bound_or_not :
    (st : Store) (r : BindResult)
    → WellFormed st
    → Outcome WellFormed r
    → WellFormed (after_bind st r)
bound_or_not st (bound st' t os) ok h = h
bound_or_not st (already_registered r) ok h = ok

module _ (st : Store) (t : Timer) (ok : WellFormed st) (sch : Scheduled t st.timers) where
  -- The store with the fired timer gone and other slots.
  abbrev fired : Dict AttachmentKey Slot → Store
  fired m = record st { slots = m; timers = clear_timeout (some t.timer_id) st.timers }

  other_kept :
      (k : AttachmentKey) (s : Slot)
      → t.key ≢ k
      → get k st.slots ≡ some s
      → SlotOk (clear_timeout (some t.timer_id) st.timers) st.next_timer k s
  other_kept k s ne e = fire_kept st t k s ok sch (inl ne) (ok.slots_ok k s e)

  fired_ok :
      (m : Dict AttachmentKey Slot)
      → Distinct m
      → ((k : AttachmentKey) (s : Slot)
          → get k m ≡ some s
          → SlotOk (clear_timeout (some t.timer_id) st.timers) st.next_timer k s)
      → WellFormed (fired m)
  fired_ok m d each = record {
    distinct = d;
    below = clear-Below (some t.timer_id) st.next_timer st.timers ok.below;
    slots_ok = each;
  }

  set_each :
      (new : Slot)
      → SlotOk (clear_timeout (some t.timer_id) st.timers) st.next_timer t.key new
      → (k : AttachmentKey) (s : Slot)
      → ((t.key ≡ k) × (new ≡ s)) ⊎ ((t.key ≢ k) × (get k st.slots ≡ some s))
      → SlotOk (clear_timeout (some t.timer_id) st.timers) st.next_timer k s
  set_each new fits k s (inl (here, same)) = rw (← here, ← same) fits
  set_each new fits k s (inr (there, e)) = other_kept k s there e

  -- A slot that survives the timer is bound, or another runtime's whose own timer is still pending.
  survivor-SlotOk :
      (s : Slot)
      → (is_bound s.binding ≡ true) ⊎ (t.runtime_id ≢ s.runtime.runtime_id)
      → SlotOk st.timers st.next_timer t.key s
      → SlotOk
          (clear_timeout (some t.timer_id) st.timers)
          st.next_timer
          t.key
          (clear_stale_timer_for_slot s)
  unfolding clear_stale_timer_for_slot
  survivor-SlotOk s (inl b) was = record {
    keyed = was.keyed;
    has_binding = was.has_binding;
    calm = λ _. (refl, refl);
    lost = was.lost;
    expiring = λ e. cc;
    owned = tt;
  }
  survivor-SlotOk s (inr ne) was = record {
    keyed = was.keyed;
    has_binding = was.has_binding;
    calm = λ _. (refl, refl);
    lost = was.lost;
    expiring = (fire_kept st t t.key s ok sch (inr ne) was).expiring;
    owned = tt;
  }

  survive :
      (s : Slot)
      → get t.key st.slots ≡ some s
      → (is_bound s.binding ≡ true) ⊎ (t.runtime_id ≢ s.runtime.runtime_id)
      → WellFormed (fired (set t.key (clear_stale_timer_for_slot s) st.slots))
  survive s e why =
      let new = clear_stale_timer_for_slot s in
      let fits = survivor-SlotOk s why (ok.slots_ok t.key s e) in
      fired_ok (set t.key new st.slots) (set-Distinct t.key new st.slots ok.distinct)
        (λ k s' g. set_each new fits k s' (get-set_cases t.key k new s' st.slots g))

  expire : WellFormed (fired (delete t.key st.slots))
  expire = fired_ok (delete t.key st.slots) (delete-Distinct t.key st.slots ok.distinct) (λ k s e.
      let (there, old) = get-delete_cases t.key k s st.slots e in other_kept k s there old)

  expire_slot-WellFormed :
      (now : ℕ) (o : Option Slot)
      → get t.key st.slots ≡ o
      → WellFormed (expire_slot (fired st.slots) t.key t.runtime_id now o).0
  unfolding expire_slot
  expire_slot-WellFormed now none e =
      fired_ok st.slots ok.distinct (λ k s g. other_kept k s (λ same. cc (rw same at e)) g)
  expire_slot-WellFormed now (some s) e =
      elim (Bool-cases (not (s.runtime.runtime_id == t.runtime_id) || is_bound s.binding)) [
        | inl stays ↦ rw stays (survive s e (stays_why s.runtime.runtime_id t.runtime_id _ stays))
        | inr goes ↦ rw goes expire
      ]

pub fire-WellFormed :
    (st : Store) (t : Timer) (now : ℕ)
    → Scheduled t st.timers
    → WellFormed st
    → WellFormed (fire st t now).0
unfolding fire expire_stale_binding
fire-WellFormed st t now sch ok = expire_slot-WellFormed st t ok sch now _ refl

-- A call of the store before its `stop`, with the time that it reads.
pub data Call : Type 0 where
  binds : BindInput → Call
  unbinds closes : String → Call
  fires : Timer → Call

-- The event loop runs no timer that is not pending.
abbrev pub Enabled : Store → Call → Type 0
Enabled st (fires t) = Scheduled t st.timers
Enabled st _ = Unit {0}

unfoldable pub step : Store → ℕ × Call → Store
step st (now, binds input) = after_bind st (bind st input now)
step st (now, unbinds id) = after_unbind st (unbind st id)
step st (now, closes c) = (notify_connection_closed st c now).0
step st (now, fires t) = (fire st t now).0

pub data Reach (s : Store) : Store → Type 0 where
  here : Reach s s
  next :
      {t : Store}
      → Reach s t
      → (c : ℕ × Call) → Enabled t c.1
      → (u : Store) → u ≡ step t c
      → Reach s u

step-WellFormed :
    (st : Store) (c : ℕ × Call) → Enabled st c.1 → WellFormed st → WellFormed (step st c)
unfolding step
step-WellFormed st (now, binds input) h ok =
    bound_or_not st (bind st input now) ok (bind-WellFormed st input now ok)
step-WellFormed st (now, unbinds id) h ok = unbind-WellFormed st id ok
step-WellFormed st (now, closes c) h ok = notify_connection_closed-WellFormed st c now ok
step-WellFormed st (now, fires t) h ok = fire-WellFormed st t now h ok

-- In every store that binds, unbinds, closed connections and timers reach from an empty one, before the
-- store's `stop`, which clears the timers and is none of these calls: each slot is keyed by its runtime's
-- attachment; an active slot has no timer; a stale one has no push handle, and the timer that
-- will expire it is pending.
pub reachable-WellFormed : (grace : ℕ) (st : Store) → Reach (init grace) st → WellFormed st
reachable-WellFormed grace st here = init-WellFormed grace
reachable-WellFormed grace st (next {t} r c h u e) =
    rw e (step-WellFormed t c h (reachable-WellFormed grace t r))
