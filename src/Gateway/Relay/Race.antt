-- ===== src/Gateway/Relay/Race.antt =====
-- The race of a broadcast: its results and its promise.
use athena_flow_cli.Common.{
  ℕ, ◌<◌, String, ◌≡◌, refl, ap, ◌≢◌, ◌⊎◌, inl, inr, arith, Option, none, some, List, [], ◌∷◌, map,
  string_eq, option_eq, nat_eq, false, All, All-mono, Bool-cases,
}
use athena_flow_cli.Common.Dict.{get, get-set_cases, get-delete_cases}
use athena_flow_cli.Gateway.Relay.Pending.{
  RelayState, Result, Entry, CancelReason, cancelled, start, register, settle, settle_entry, cancel,
  cancel_entry, cancel_each, dispose_all, foreign,
}

-- No result has been recorded for a promise.
abbrev pub Unresolved : ℕ → List (ℕ × Result) → Type 0
Unresolved p [] = Unit {0}
Unresolved p (x ∷ xs) = (x.0 ≢ p) × Unresolved p xs

-- No promise is resolved twice.
abbrev pub Once : List (ℕ × Result) → Type 0
Once [] = Unit {0}
Once (x ∷ xs) = Unresolved x.0 xs × Once xs

pub record Inv (st : RelayState) : Type 0 where
  pub once : Once st.resolved
  pub issued : All (λ x. x.0 < st.next) st.resolved
  pub waiting :
      (id : String) (e : Entry)
      → get id st.entries ≡ some e
      → (e.settled ≡ false) × (e.promise < st.next) × Unresolved e.promise st.resolved
  pub apart :
      (id id' : String) (e e' : Entry)
      → get id st.entries ≡ some e
      → get id' st.entries ≡ some e'
      → e.promise ≡ e'.promise
      → id ≡ id'

pub start-Inv : Inv start
unfolding get
start-Inv = record {
  once = tt;
  issued = tt;
  waiting = λ id e h. cc;
  apart = λ id id' e e' h h' p. cc;
}

fresh-Unresolved : (n : ℕ) (xs : List (ℕ × Result)) → All (λ x. x.0 < n) xs → Unresolved n xs
fresh-Unresolved n [] h = tt
fresh-Unresolved n (x ∷ xs) h = ((λ e. absurd (omega arith)), fresh-Unresolved n xs h.1)

settle_entry-Inv :
    (st : RelayState) (id : String) (r : Result) (o : Option Entry)
    → get id st.entries ≡ o
    → Inv st
    → Inv (settle_entry st id r o).0
unfolding settle_entry
settle_entry-Inv st id r none e v = v
settle_entry-Inv st id r (some x) e v = elim (Bool-cases x.settled) [
  | inl s ↦ rw s v
  | inr s ↦ rw s (record {
    once = ((v.waiting id x e).2, v.once);
    issued = ((v.waiting id x e).1, v.issued);
    waiting = λ j y h.
        let (ne, old) = get-delete_cases id j y st.entries h in
        let (a, b, c) = v.waiting j y old in (a, b, (λ same. ne (v.apart id j x y e old same), c));
    apart = λ j k y z h h' same.
        v.apart j k y z (get-delete_cases id j y st.entries h).1
          (get-delete_cases id k z st.entries h').1 same;
  })
]

pub settle-Inv : (st : RelayState) (id : String) (r : Result) → Inv st → Inv (settle st id r).0
unfolding settle
settle-Inv st id r v = settle_entry-Inv st id r _ refl v

-- Timers do not bear on the promises.
pub timers-Inv :
    (st : RelayState) (ts : List (ℕ × String)) → Inv st → Inv (record st { timers = ts })
timers-Inv st ts v = record {
  once = v.once;
  issued = v.issued;
  waiting = v.waiting;
  apart = v.apart;
}

cancel_entry-Inv :
    (st : RelayState) (id : String) (reason : CancelReason) (by : Option String) (o : Option Entry)
    → Inv st
    → Inv (cancel_entry st id reason by o).0
unfolding cancel_entry
cancel_entry-Inv st id reason by none v = v
cancel_entry-Inv st id reason by (some x) v = elim (Bool-cases (foreign by x.runtime_id)) [
  | inl f ↦ rw f v
  | inr f ↦ rw f (settle-Inv st id (cancelled reason) v)
]

pub cancel-Inv :
    (st : RelayState) (id : String) (reason : CancelReason) (by : Option String)
    → Inv st
    → Inv (cancel st id reason by).0
unfolding cancel
cancel-Inv st id reason by v = cancel_entry-Inv st id reason by _ v

cancel_each-Inv :
    (st : RelayState) (ids : List String) (reason : CancelReason)
    → Inv st
    → Inv (cancel_each st ids reason)
unfolding cancel_each
cancel_each-Inv st [] reason v = v
cancel_each-Inv st (id ∷ ids) reason v =
    cancel_each-Inv (cancel st id reason none).0 ids reason (cancel-Inv st id reason none v)

pub dispose_all-Inv :
    (st : RelayState) (reason : CancelReason) → Inv st → Inv (dispose_all st reason)
unfolding dispose_all
dispose_all-Inv st reason v = cancel_each-Inv st (map (λ e. e.0) st.entries) reason v

-- A fresh entry, whose promise is the next number.
module _ (st : RelayState) (e : Entry) (n : ℕ) (ts : List (ℕ × String)) (v : Inv st)
    (fresh : e.promise ≡ st.next) (grows : st.next < n) (open_entry : e.settled ≡ false) where
  waiting_after :
      (j : String) (y : Entry)
      → ((e.channel_request_id ≡ j) × (e ≡ y))
        ⊎ ((e.channel_request_id ≢ j) × (get j st.entries ≡ some y))
      → (y.settled ≡ false) × (y.promise < n) × Unresolved y.promise st.resolved
  waiting_after j y (inl (here, same)) =
      rw (← same)
        (open_entry, omega arith, rw fresh (fresh-Unresolved st.next st.resolved v.issued))
  waiting_after j y (inr (there, old)) = let (a, b, c) = v.waiting j y old in (a, omega arith, c)

  apart_after :
      (j k : String) (y z : Entry)
      → ((e.channel_request_id ≡ j) × (e ≡ y))
        ⊎ ((e.channel_request_id ≢ j) × (get j st.entries ≡ some y))
      → ((e.channel_request_id ≡ k) × (e ≡ z))
        ⊎ ((e.channel_request_id ≢ k) × (get k st.entries ≡ some z))
      → y.promise ≡ z.promise
      → j ≡ k
  apart_after j k y z (inl (here, same)) (inl (here', same')) p = cc
  apart_after j k y z (inl (here, same)) (inr (there, old)) p =
      absurd (omega (arith, (v.waiting k z old).1, ap (λ (t : Entry). t.promise) same))
  apart_after j k y z (inr (there, old)) (inl (here, same)) p =
      absurd (omega (arith, (v.waiting j y old).1, ap (λ (t : Entry). t.promise) same))
  apart_after j k y z (inr (there, old)) (inr (there', old')) p = v.apart j k y z old old' p

  pub register-Inv : Inv (register (record st { timers = ts; next = n }) e)
  unfolding register
  register-Inv = record {
    once = v.once;
    issued = All-mono (λ x. x.0 < st.next) (λ x. x.0 < n) (λ x h. omega arith) st.resolved v.issued;
    waiting = λ j y h. waiting_after j y (get-set_cases e.channel_request_id j e y st.entries h);
    apart = λ j k y z h h' p.
        apart_after j k y z (get-set_cases e.channel_request_id j e y st.entries h)
          (get-set_cases e.channel_request_id k e z st.entries h') p;
  }
