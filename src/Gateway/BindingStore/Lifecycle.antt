-- ===== src/Gateway/BindingStore/Lifecycle.antt =====
-- The life of an attachment slot: absent → active → stale → (active | absent), as the head
-- of src/gateway/runtimeBindingStore.ts says, and the steps of it that each call may take.
use athena_flow_cli.Common.{
  ℕ, ◌+◌, String, ◌≡◌, refl, sym, ap, ◌∙◌, ◌≢◌, ◌⊎◌, inl, inr, true, false, not, Option, none, some,
  List, arith, ◌==◌, option_eq, string_eq, nat_eq, if◌then◌else◌, is_some, ◌||◌, Bool-cases,
  ==-false_of_ne, ==-true_of_eq, eq_of_==, ne_of_==,
}
use native.Mathlib.Decide.{ℕ_discrete}
use athena_flow_cli.Common.Dict.{
  Dict, get, set, delete, get-set_self, get-set_ne, get-delete_self, get-delete_ne, get-find,
  find-holds,
}
use athena_flow_cli.Gateway.Types.{AttachmentKey}
use athena_flow_cli.Gateway.BindingStore.WellFormed.{WellFormed}
use athena_flow_cli.Gateway.BindingStore.Preserved.{after_unbind, after_bind}
use athena_flow_cli.Gateway.BindingStore.Expiry.{Call, binds, unbinds, closes, fires, step}
use athena_flow_cli.Gateway.BindingStore.{
  bound, already_registered, get_current_by_attachment, BindResult, RegisteredRuntime, Store, Slot,
  Timer, Binding, is_bound, bind, bind_slot, unbind, unbind_slot, notify_connection_closed,
  close_slot, closed_slot, stale_binding, fire, expire_stale_binding, expire_slot, BindInput,
  clear_stale_timer_for_slot, next_binding, is_rebind, active, stale, bound_to,
  find_slot_by_connection_id, find_slot_by_runtime_id,
}

-- The connection that holds the slot, or held it last, and the epoch.
pub data Status : Type 0 where
  absent : Status
  live lost : (connection_id : String) (epoch : ℕ) → Status

abbrev pub status_of_binding : Option Binding → Status
status_of_binding none = absent
status_of_binding (some (active c t e r)) = live c e
status_of_binding (some (stale c t e r)) = lost c e

abbrev pub status_of : Option Slot → Status
status_of none = absent
status_of (some s) = status_of_binding s.binding

unfoldable pub status : Store → AttachmentKey → Status
unfolding get
status st key = status_of (get key st.slots)

-- A bind on connection `c`: only a repeat on the live connection keeps the epoch.
abbrev pub opened : Status → String → Status
opened absent c = live c 1
opened (live c' e) c = live c (if c' == c then e else e + 1)
opened (lost c' e) c = live c (e + 1)

-- No other runtime holds the slot.
abbrev pub Free : Store → AttachmentKey → String → Type 0
Free st key id =
    (r : RegisteredRuntime) → get_current_by_attachment st key ≡ some r → r.runtime_id ≡ id

-- Why a call leaves the slot alone: it is about another key, about a slot that another runtime holds, or
-- about a runtime or a connection whose slot is not this one; or the timer finds no slot, another
-- runtime's or an active one.
abbrev pub Idle : Store → AttachmentKey → Call → Type 0
Idle st key (binds input) =
    (input.attachment_id ≢ key)
    ⊎ ((r : RegisteredRuntime) × (get_current_by_attachment st key ≡ some r)
        × (r.runtime_id ≢ input.runtime_id))
Idle st key (unbinds id) =
    (e : AttachmentKey × Slot) → find_slot_by_runtime_id st id ≡ some e → e.0 ≢ key
Idle st key (closes c) =
    (e : AttachmentKey × Slot) → find_slot_by_connection_id st c ≡ some e → e.0 ≢ key
Idle st key (fires t) =
    (t.key ≢ key)
    ⊎ (get key st.slots ≡ none)
    ⊎ ((s : Slot) × (get key st.slots ≡ some s)
        × ((s.runtime.runtime_id ≢ t.runtime_id) ⊎ (is_bound s.binding ≡ true)))

pub data Move (st : Store) (key : AttachmentKey) (call : Call) (v w : Status) : Type 0 where
  keep : Idle st key call → w ≡ v → Move st key call v w
  open_slot :
      (input : BindInput)
      → call ≡ binds input
      → input.attachment_id ≡ key
      → Free st key input.runtime_id
      → w ≡ opened v input.connection_id
      → Move st key call v w
  drop :
      (id : String) (s : Slot)
      → call ≡ unbinds id
      → find_slot_by_runtime_id st id ≡ some (key, s)
      → w ≡ absent
      → Move st key call v w
  lose :
      (c : String) (e : ℕ) (s : Slot)
      → call ≡ closes c
      → find_slot_by_connection_id st c ≡ some (key, s)
      → st.grace_period_ms ≢ 0
      → (v ≡ live c e) ⊎ (v ≡ lost c e)
      → w ≡ lost c e
      → Move st key call v w
  close :
      (c : String) (e : ℕ) (s : Slot)
      → call ≡ closes c
      → find_slot_by_connection_id st c ≡ some (key, s)
      → st.grace_period_ms ≡ 0
      → (v ≡ live c e) ⊎ (v ≡ lost c e)
      → w ≡ absent
      → Move st key call v w
  expire :
      (t : Timer) (c : String) (e : ℕ) (s : Slot)
      → call ≡ fires t
      → t.key ≡ key
      → get key st.slots ≡ some s
      → s.runtime.runtime_id ≡ t.runtime_id
      → v ≡ lost c e
      → w ≡ absent
      → Move st key call v w

status-next_binding :
    (b : Option Binding) (c : String) (now : ℕ)
    → is_some b ≡ true
    → status_of_binding (some (next_binding b c now)) ≡ opened (status_of_binding b) c
unfolding next_binding is_rebind
status-next_binding none c now h = cc
status-next_binding (some (active c' t e r)) c now h = ground arith
status-next_binding (some (stale c' t e r)) c now h = refl

status-bound_to :
    (c : String) (b : Option Binding)
    → bound_to c b ≡ true
    → (e : ℕ) × ((status_of_binding b ≡ live c e) ⊎ (status_of_binding b ≡ lost c e))
      × ((now : ℕ) → status_of_binding (some (stale_binding b c now)) ≡ lost c e)
unfolding bound_to stale_binding
status-bound_to c none h = cc
status-bound_to c (some (active c' t e r)) h = (e, inl (ground arith), λ now. refl)
status-bound_to c (some (stale c' t e r)) h = (e, inr (ground arith), λ now. refl)

-- A write or a removal at one key, seen from another.
status-set_ne :
    (k key : AttachmentKey) (s : Slot) (m : Dict AttachmentKey Slot)
    → k ≢ key
    → status_of (get key (set k s m)) ≡ status_of (get key m)
status-set_ne k key s m ne = ap status_of (get-set_ne k key s m ne)

status-delete_ne :
    (k key : AttachmentKey) (m : Dict AttachmentKey Slot)
    → k ≢ key
    → status_of (get key (delete k m)) ≡ status_of (get key m)
status-delete_ne k key m ne = ap status_of (get-delete_ne k key m ne)

module _ (st : Store) (key : AttachmentKey) (now : ℕ) (ok : WellFormed st) where
  bind_slot-Move :
      (input : BindInput) (o : Option Slot)
      → get input.attachment_id st.slots ≡ o
      → Move st key
          (binds input)
          (status st key)
          (status (after_bind st (bind_slot st input now o)) key)
  unfolding bind_slot status clear_stale_timer_for_slot get_current_by_attachment
  bind_slot-Move input none e = elim (option_eq.dec input.attachment_id key) [
    | yes mine ↦
        open_slot input refl mine (λ r h. cc (h, e, mine))
          (rw (← mine) (
            ap status_of (get-set_self input.attachment_id _ st.slots)
            ∙ sym (ap (λ o. opened (status_of o) input.connection_id) e)))
    | no other ↦ keep (inl other) (status-set_ne input.attachment_id key _ st.slots other)
  ]
  bind_slot-Move input (some old) e =
      elim (Bool-cases (old.runtime.runtime_id == input.runtime_id)) [
        | inl same ↦ rw same (elim (option_eq.dec input.attachment_id key) [
          | yes mine ↦
              open_slot input refl mine
                (λ r h. cc (h, e, mine, eq_of_== old.runtime.runtime_id input.runtime_id same))
                (rw (← mine) (
                  ap status_of (get-set_self input.attachment_id _ st.slots)
                  ∙ status-next_binding old.binding input.connection_id now
                      (ok.slots_ok input.attachment_id old e).has_binding
                  ∙ sym (ap (λ o. opened (status_of o) input.connection_id) e)))
          | no other ↦ keep (inl other) (status-set_ne input.attachment_id key _ st.slots other)
        ])
        | inr differs ↦ rw differs (elim (option_eq.dec input.attachment_id key) [
          | yes mine ↦
              keep
                (inr (
                  old.runtime,
                  rw (← mine, e) refl,
                  ne_of_== old.runtime.runtime_id input.runtime_id differs,
                ))
                refl
          | no other ↦ keep (inl other) refl
        ])
      ]

  elsewhere :
      {o : Option (AttachmentKey × Slot)} (k : AttachmentKey) (s : Slot)
      → k ≢ key
      → o ≡ some (k, s)
      → (e : AttachmentKey × Slot) → o ≡ some e
      → e.0 ≢ key
  elsewhere k s other here e there q = other (cc (here, there, q))

  unbind_slot-Move :
      (id : String) (o : Option (AttachmentKey × Slot))
      → find_slot_by_runtime_id st id ≡ o
      → Move st key
          (unbinds id)
          (status st key)
          (status (after_unbind st (unbind_slot st id o)) key)
  unfolding unbind_slot status
  unbind_slot-Move id none e = keep (λ x h q. cc (e, h)) refl
  unbind_slot-Move id (some (k, s)) e = elim (option_eq.dec k key) [
    | yes mine ↦
        drop id s refl (rw mine at e) (rw (← mine) (ap status_of (get-delete_self k st.slots)))
    | no other ↦ keep (elsewhere k s other e) (status-delete_ne k key st.slots other)
  ]

  -- The slot at `k` is the one that the closed connection holds.
  module _ (c : String) (k : AttachmentKey) (s : Slot) (n : ℕ) (at : get k st.slots ≡ some s)
      (found : find_slot_by_connection_id st c ≡ some (k, s))
      (was : (status_of_binding s.binding ≡ live c n) ⊎ (status_of_binding s.binding ≡ lost c n))
      (after : status_of_binding (some (stale_binding s.binding c now)) ≡ lost c n) where
    was_at : (k ≡ key) → (status st key ≡ live c n) ⊎ (status st key ≡ lost c n)
    unfolding status
    was_at mine = rw (← mine, at) was

    close_found :
        Move st key (closes c) (status st key) (status (close_slot st c now (some (k, s))).0 key)
    unfolding close_slot status closed_slot
    close_found = elim (option_eq.dec k key) [
      | yes mine ↦ elim (ℕ_discrete st.grace_period_ms 0) [
        | yes z ↦
            close c n s refl (rw mine at found) z (was_at mine)
              (ground (arith, get-delete_self k st.slots))
        | no nz ↦
            lose c n s refl (rw mine at found) nz (was_at mine)
              (ground (arith, get-set_self k (closed_slot s c now st.next_timer) st.slots, after))
      ]
      | no other ↦ keep (elsewhere k s other found) (
          ground (
            arith,
            status-delete_ne k key st.slots other,
            status-set_ne k key (closed_slot s c now st.next_timer) st.slots other,
          ))
    ]

  close_slot-Move :
      (c : String) (o : Option (AttachmentKey × Slot))
      → find_slot_by_connection_id st c ≡ o
      → Move st key (closes c) (status st key) (status (close_slot st c now o).0 key)
  unfolding close_slot find_slot_by_connection_id
  close_slot-Move c none e = keep (λ x h q. cc (e, h)) refl
  close_slot-Move c (some (k, s)) e =
      let (n, was, after) = status-bound_to c s.binding (find-holds _ st.slots (k, s) e) in
      close_found c k s n (get-find _ st.slots k s ok.distinct e) e was (after now)

-- A slot that is not bound has the status `lost`.
status-lost :
    (b : Option Binding)
    → is_some b ≡ true
    → is_bound b ≡ false
    → (c : String) × (e : ℕ) × (status_of_binding b ≡ lost c e)
status-lost none h k = cc
status-lost (some (active c t e r)) h k = cc
status-lost (some (stale c t e r)) h k = (c, e, refl)

stays_why :
    (s : Slot) (t : Timer)
    → (not (s.runtime.runtime_id == t.runtime_id) || is_bound s.binding) ≡ true
    → (s.runtime.runtime_id ≢ t.runtime_id) ⊎ (is_bound s.binding ≡ true)
stays_why s t h = elim (Bool-cases (s.runtime.runtime_id == t.runtime_id)) [
  | inl same ↦ inr (ground (arith, h, same))
  | inr differs ↦ inl (ne_of_== s.runtime.runtime_id t.runtime_id differs)
]

expire_slot-Move :
    (st : Store) (key : AttachmentKey) (now : ℕ) (t : Timer) (ts : List Timer) (o : Option Slot)
    → ((s : Slot) → o ≡ some s → is_some s.binding ≡ true)
    → get t.key st.slots ≡ o
    → Move st key
        (fires t)
        (status st key)
        (status (expire_slot (record st { timers = ts }) t.key t.runtime_id now o).0 key)
unfolding expire_slot status clear_stale_timer_for_slot
expire_slot-Move st key now t ts none b e = elim (option_eq.dec t.key key) [
  | yes mine ↦ keep (inr (inl (rw mine at e))) refl
  | no other ↦ keep (inl other) refl
]
expire_slot-Move st key now t ts (some s) b e = elim (option_eq.dec t.key key) [
  | yes mine ↦
      elim (Bool-cases (not (s.runtime.runtime_id == t.runtime_id) || is_bound s.binding)) [
        | inl stays ↦ keep (inr (inr (s, rw mine at e, stays_why s t stays))) (
            rw (stays, ← mine)
              (ap status_of (get-set_self t.key _ st.slots) ∙ sym (ap status_of e)))
        | inr goes ↦
            let (c, n, was) = status-lost s.binding (b s refl) (ground arith) in
            expire t c n s refl mine (rw mine at e)
              (eq_of_== s.runtime.runtime_id t.runtime_id (ground arith))
              (rw (← mine) (ap status_of e ∙ was))
              (rw (goes, ← mine) (ap status_of (get-delete_self t.key st.slots)))
      ]
  | no other ↦ keep (inl other) (
      ground (
        arith,
        status-delete_ne t.key key st.slots other,
        status-set_ne t.key key (clear_stale_timer_for_slot s) st.slots other,
      ))
]

-- From a well-formed store, a bind, an unbind, a closed connection or a timer takes each slot along an
-- edge of its life cycle: a bind opens it, where no other runtime holds it, counting an epoch unless the
-- live connection repeats itself; a closed connection leaves the first slot that it holds stale, or empty
-- without a grace period; an unregistration empties the runtime's first slot; and a timer empties only
-- the slot and the runtime that it was set for, and only while that is stale. The slot stays as it was
-- only where the call is about another key, is refused for the runtime that holds the slot, names a
-- runtime or a connection whose slot is not this one, or is a timer that finds no slot, another runtime's
-- or an active one.
pub step-Move :
    (st : Store) (c : ℕ × Call) (key : AttachmentKey)
    → WellFormed st
    → Move st key c.1 (status st key) (status (step st c) key)
unfolding step bind unbind notify_connection_closed fire expire_stale_binding
step-Move st (now, binds input) key ok = bind_slot-Move st key now ok input _ refl
step-Move st (now, unbinds id) key ok = unbind_slot-Move st key now ok id _ refl
step-Move st (now, closes c) key ok = close_slot-Move st key now ok c _ refl
step-Move st (now, fires t) key ok =
    expire_slot-Move st key now t _ _ (λ s e. (ok.slots_ok t.key s e).has_binding) refl

-- What a bind did: it was refused in favour of the runtime that holds the slot, or it opened the
-- slot, which no other runtime held, and left every other slot as it was.
abbrev pub Binds : Store → BindInput → BindResult → Type 0
Binds st input (already_registered r) =
    (get_current_by_attachment st input.attachment_id ≡ some r) × (r.runtime_id ≢ input.runtime_id)
Binds st input (bound st' t os) =
    (status st' input.attachment_id ≡ opened (status st input.attachment_id) input.connection_id)
    × ((k : AttachmentKey) → input.attachment_id ≢ k → get k st'.slots ≡ get k st.slots)
    × ((r : RegisteredRuntime)
        → get_current_by_attachment st input.attachment_id ≡ some r
        → r.runtime_id ≡ input.runtime_id)

bind_slot-Binds :
    (st : Store) (input : BindInput) (now : ℕ) (o : Option Slot)
    → WellFormed st
    → get input.attachment_id st.slots ≡ o
    → Binds st input (bind_slot st input now o)
unfolding bind_slot status clear_stale_timer_for_slot get_current_by_attachment
bind_slot-Binds st input now none ok e = (
  ap status_of (get-set_self input.attachment_id _ st.slots)
      ∙ sym (ap (λ o. opened (status_of o) input.connection_id) e),
  λ k ne. get-set_ne input.attachment_id k _ st.slots ne,
  λ r h. cc (h, e),
)
bind_slot-Binds st input now (some old) ok e =
    elim (string_eq.dec old.runtime.runtime_id input.runtime_id) [
      | yes same ↦ rw (==-true_of_eq old.runtime.runtime_id input.runtime_id same) (
        ap status_of (get-set_self input.attachment_id _ st.slots)
            ∙ status-next_binding old.binding input.connection_id now
                (ok.slots_ok input.attachment_id old e).has_binding
            ∙ sym (ap (λ o. opened (status_of o) input.connection_id) e),
        λ k ne. get-set_ne input.attachment_id k _ st.slots ne,
        λ r h. cc (h, e, same),
      )
      | no differs ↦
          rw (==-false_of_ne old.runtime.runtime_id input.runtime_id differs) (rw e refl, differs)
    ]

pub bind-Binds :
    (st : Store) (input : BindInput) (now : ℕ) → WellFormed st → Binds st input (bind st input now)
unfolding bind
bind-Binds st input now ok = bind_slot-Binds st input now _ ok refl
