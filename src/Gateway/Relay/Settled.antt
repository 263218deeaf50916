-- ===== src/Gateway/Relay/Settled.antt =====
-- What a result does to the waiting entries.
use athena_flow_cli.Common.{
  String, ◌≡◌, refl, ◌≢◌, Option, none, some, ◌∷◌, string_eq, option_eq, nat_eq, Bool, true, false,
}
use athena_flow_cli.Common.Dict.{get, get-delete_self, get-delete_ne}
use athena_flow_cli.Gateway.Relay.Pending.{RelayState, Result, Entry, settle, settle_entry}
use athena_flow_cli.Gateway.Relay.Race.{Inv}

abbrev pub Settles : RelayState → String → Result → RelayState → Bool → Type 0
Settles st id r st' true =
    (e : Entry) × (get id st.entries ≡ some e)
    × (get id st'.entries ≡ none)
    × (st'.resolved ≡ (e.promise, r) ∷ st.resolved)
    × ((j : String) → id ≢ j → get j st'.entries ≡ get j st.entries)
Settles st id r st' false = (get id st.entries ≡ none) × (st' ≡ st)

settle_entry-Settles :
    (st : RelayState) (id : String) (r : Result) (o : Option Entry)
    → get id st.entries ≡ o
    → Inv st
    → Settles st id r (settle_entry st id r o).0 (settle_entry st id r o).1
unfolding settle_entry
settle_entry-Settles st id r none e v = (e, refl)
settle_entry-Settles st id r (some x) e v =
    let (open_entry, issued, u) = v.waiting id x e in
    rw open_entry
      (x, e, get-delete_self id st.entries, refl, (λ j ne. get-delete_ne id j st.entries ne))

-- In a state that meets the invariant, a result for a waiting entry takes that entry alone out of
-- the table and resolves its promise with that very result; a result for any other id changes
-- nothing.
pub settle-Settles :
    (st : RelayState) (id : String) (r : Result)
    → Inv st
    → Settles st id r (settle st id r).0 (settle st id r).1
unfolding settle
settle-Settles st id r v = settle_entry-Settles st id r _ refl v

absent_settle :
    (st : RelayState) (id : String) (r : Result)
    → get id st.entries ≡ none
    → settle st id r ≡ (st, false)
unfolding settle settle_entry
absent_settle st id r h = rw h refl

settled_gone :
    (st : RelayState) (id : String) (r : Result) (o : RelayState × Bool)
    → Settles st id r o.0 o.1
    → get id o.0.entries ≡ none
settled_gone st id r (st', true) (e, h, gone, first, others) = gone
settled_gone st id r (st', false) (h, same) = rw same h

-- The first result wins: after `settle` in a state that meets the invariant, whatever it answered, a
-- second result for the same id is refused and changes nothing.
pub settle_twice :
    (st : RelayState) (id : String) (r later : Result)
    → Inv st
    → settle (settle st id r).0 id later ≡ ((settle st id r).0, false)
settle_twice st id r later v =
    absent_settle (settle st id r).0 id later
      (settled_gone st id r (settle st id r) (settle-Settles st id r v))
