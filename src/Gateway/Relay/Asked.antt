-- ===== src/Gateway/Relay/Asked.antt =====
-- What a request is answered, and what it does to the table of waiting requests.
use athena_flow_cli.Common.{
  ℕ, String, ◌≡◌, refl, ◌≢◌, ◌⊎◌, inl, inr, Option, none, some, List, length, ◌==◌, string_eq,
  option_eq, nat_eq, true, false, keep, Bool-cases, or_else, eq_of_==, ne_of_==,
}
use athena_flow_cli.Common.Dict.{get, get-set_self, get-set_ne}
use athena_flow_cli.Gateway.Relay.{
  Adapter, Request, Broadcast, unrelayed, promised, threw, request, can_relay, inspected, broadcast,
}
use athena_flow_cli.Gateway.Relay.Pending.{
  RelayState, Kind, permission, question, Entry, Inspect, absent, attach, collision, Collision,
  kind_differs, payload_differs, owner_differs, inspect, inspect_entry, same_kind, register,
}

-- The waiting entry asks the same thing for the same runtime.
abbrev pub Same : Kind → Request → Entry → Type 0
Same kind req e =
    (e.kind ≡ kind) × (e.fingerprint ≡ req.fingerprint) × (e.runtime_id ≡ req.runtime_id)

-- In what the waiting entry differs.
abbrev pub Differs : Kind → Request → Entry → Collision → Type 0
Differs kind req e kind_differs = e.kind ≢ kind
Differs kind req e payload_differs = e.fingerprint ≢ req.fingerprint
Differs kind req e owner_differs = e.runtime_id ≢ req.runtime_id

-- What an inspection found under an id.
abbrev pub Finds : Kind → Request → Option Entry → Inspect → Type 0
Finds kind req o absent = o ≡ none
Finds kind req o (attach e) = (o ≡ some e) × Same kind req e
Finds kind req o (collision c) = (e : Entry) × (o ≡ some e) × Differs kind req e c

same_kind→eq : (a b : Kind) → same_kind a b ≡ true → a ≡ b
same_kind→eq permission permission h = refl
same_kind→eq question question h = refl
same_kind→eq permission question h = cc
same_kind→eq question permission h = cc

same_kind→ne : (a b : Kind) → same_kind a b ≡ false → a ≢ b
same_kind→ne permission permission h = cc
same_kind→ne question question h = cc
same_kind→ne permission question h = λ e. cc
same_kind→ne question permission h = λ e. cc

inspect_entry-Finds :
    (kind : Kind) (req : Request) (o : Option Entry)
    → Finds kind req o (inspect_entry kind req.fingerprint req.runtime_id o)
unfolding inspect_entry
inspect_entry-Finds kind req none = refl
inspect_entry-Finds kind req (some e) = elim (Bool-cases (same_kind e.kind kind)) [
  | inr k ↦ rw k (e, refl, same_kind→ne e.kind kind k)
  | inl k ↦ elim (Bool-cases (e.fingerprint == req.fingerprint)) [
    | inr f ↦ rw (k, f) (e, refl, ne_of_== e.fingerprint req.fingerprint f)
    | inl f ↦ elim (Bool-cases (e.runtime_id == req.runtime_id)) [
      | inr r ↦ rw (k, f, r) (e, refl, ne_of_== e.runtime_id req.runtime_id r)
      | inl r ↦
          rw (k, f, r)
            (
              refl,
              (
                same_kind→eq e.kind kind k,
                eq_of_== e.fingerprint req.fingerprint f,
                eq_of_== e.runtime_id req.runtime_id r,
              ),
            )
    ]
  ]
]

-- A fresh promise: one new entry waits on it, and no other entry changes.
abbrev pub Opens : RelayState → Kind → Request → String → ℕ → RelayState → Type 0
Opens st kind req id promise st' =
    (get id st.entries ≡ none)
    × (promise ≡ st.next)
    × ((e : Entry) × (get id st'.entries ≡ some e) × Same kind req e × (e.promise ≡ promise))
    × ((j : String) → id ≢ j → get j st'.entries ≡ get j st.entries)
    × (st'.resolved ≡ st.resolved)

-- A second request for what is being asked already.
abbrev pub Joins : RelayState → Kind → Request → String → ℕ → RelayState → Type 0
Joins st kind req id promise st' =
    (st' ≡ st)
    × ((e : Entry) × (get id st.entries ≡ some e) × Same kind req e × (e.promise ≡ promise))

abbrev pub Asked :
    RelayState → Kind → List Adapter → Request → String → RelayState → Broadcast → Type 0
Asked st kind adapters req id st' (unrelayed i) =
    (i ≡ id) × (length (keep (can_relay kind) adapters) ≡ 0) × (st' ≡ st)
Asked st kind adapters req id st' (promised i promise) =
    (i ≡ id)
    × (length (keep (can_relay kind) adapters) ≢ 0)
    × (Opens st kind req id promise st' ⊎ Joins st kind req id promise st')
Asked st kind adapters req id st' (threw c) =
    (st' ≡ st)
    × (length (keep (can_relay kind) adapters) ≢ 0)
    × ((e : Entry) × (get id st.entries ≡ some e) × Differs kind req e c)

inspected-Asked :
    (st : RelayState) (kind : Kind) (id : String) (ttl : Option ℕ) (adapters : List Adapter)
    (req : Request) (targets : List Adapter) (i : Inspect)
    → length (keep (can_relay kind) adapters) ≢ 0
    → Finds kind req (get id st.entries) i
    → Asked st kind adapters req id
        (inspected st kind id ttl req targets i).0
        (inspected st kind id ttl req targets i).1
unfolding inspected broadcast register
inspected-Asked st kind id ttl adapters req targets absent some_relay h = (
  refl,
  some_relay,
  inl (
    h,
    refl,
    (_, get-set_self id _ st.entries, (refl, refl, refl), refl),
    (λ j ne. get-set_ne id j _ st.entries ne),
    refl,
  ),
)
inspected-Asked st kind id ttl adapters req targets (attach e) some_relay (h, same) =
    (refl, some_relay, inr (refl, (e, h, same, refl)))
inspected-Asked st kind id ttl adapters req targets (collision c) some_relay (e, h, d) =
    (refl, some_relay, (e, h, d))

-- Every request of the relay, on every branch: with no adapter that can relay it nothing happens; a
-- request for a new id opens one entry, on a fresh promise, and changes no other; a repetition of a
-- waiting request joins its promise and changes nothing; and a request under the id of a different
-- one is refused with what differs, and changes nothing.
pub request-Asked :
    (st : RelayState) (kind : Kind) (adapters : List Adapter) (req : Request) (fresh : String)
    (default_ttl : ℕ)
    → Asked st kind adapters req
        (or_else req.channel_request_id fresh)
        (request st kind adapters req fresh default_ttl).0
        (request st kind adapters req fresh default_ttl).1
unfolding request inspect
request-Asked st kind adapters req fresh default_ttl =
    elim (Bool-cases (length (keep (can_relay kind) adapters) == 0)) [
      | inl e ↦ rw e (refl, eq_of_== _ _ e, refl)
      | inr e ↦ rw e (
          inspected-Asked st kind _ _ adapters req _ _ (ne_of_== _ _ e)
            (inspect_entry-Finds kind req (get (or_else req.channel_request_id fresh) st.entries)))
    ]
