-- ===== src/Feed/DecisionCorrelation/History.antt =====
-- The correlation against the history of its calls.
use athena_flow_cli.Common.{
  String, ◌≡◌, refl, ◌∙◌, ◌≢◌, ap, Option, none, some, List, [], ◌∷◌, if◌then◌else◌, ◌==◌,
  string_eq, Bool-cases, inl, inr, ==-false_of_ne, ==-true_of_eq,
}
use athena_flow_cli.Common.Dict.{get, get-set, get-delete_self, get-delete_ne}
use athena_flow_cli.Feed.DecisionCorrelation.{
  Correlation, no_requests, record_request, lookup_resolved, consume_event, consume_for_decision,
}

pub data Call : Type 0 where
  records : (request event kind : String) → Call
  consumes : (request : String) → Call
  resets : Call

pub after : Correlation → Call → Correlation
unfolding record_request consume_for_decision
after c (records request event kind) = record_request c request event kind
after c (consumes request) = (consume_for_decision c request).0
after c resets = no_requests

-- The state after some calls, the newest first.
pub state_of : List Call → Correlation
unfolding after
state_of [] = no_requests
state_of (c ∷ older) = after (state_of older) c

-- A consumption takes what waits, unless its event has no name.
abbrev pub taken : Option (String × String) → Option (String × String)
taken none = none
taken (some (event, kind)) = if event == "" then some (event, kind) else none

-- What waits for a decision: the latest record of the request in this run that was not consumed.
abbrev pub waiting : List Call → String → Option (String × String)
waiting [] id = none
waiting (records request event kind ∷ older) id =
    let before = waiting older id in if request == id then some (event, kind) else before
waiting (consumes request ∷ older) id =
    let before = waiting older id in if request == id then taken before else before
waiting (resets ∷ older) id = none

-- The latest record of the request in this run.
abbrev pub recorded : List Call → String → Option (String × String)
recorded [] id = none
recorded (records request event kind ∷ older) id =
    let before = recorded older id in if request == id then some (event, kind) else before
recorded (consumes request ∷ older) id = recorded older id
recorded (resets ∷ older) id = none

abbrev pub event_of : Option (String × String) → Option String
event_of none = none
event_of (some p) = some p.0

abbrev pub kind_of : Option (String × String) → Option String
kind_of none = none
kind_of (some p) = some p.1

-- The two indexes hold what waits.
abbrev pub Holds : Correlation → String → Option (String × String) → Type 0
Holds c id o =
    (get id c.event_id_by_request_id ≡ event_of o) × (get id c.event_kind_by_request_id ≡ kind_of o)

record_request-Holds :
    (c : Correlation) (request event kind id : String) (o : Option (String × String))
    → Holds c id o
    → Holds
        (record_request c request event kind)
        id
        (if request == id then some (event, kind) else o)
unfolding record_request
record_request-Holds c request event kind id o h = elim (Bool-cases (request == id)) [
  | inl e ↦ simp (e, get-set) (refl, refl)
  | inr e ↦ simp (e, get-set) h
]

consume_self-Holds :
    (c : Correlation) (id : String) (o : Option (String × String))
    → Holds c id o
    → Holds (consume_event c id (event_of o)).0 id (taken o)
unfolding consume_event
consume_self-Holds c id none h = h
consume_self-Holds c id (some (event, kind)) h = elim (Bool-cases (event == "")) [
  | inl e ↦ rw e h
  | inr e ↦
      rw e
        (get-delete_self id c.event_id_by_request_id, get-delete_self id c.event_kind_by_request_id)
]

consume_other-Holds :
    (c : Correlation) (request id : String) (event : Option String) (o : Option (String × String))
    → request ≢ id
    → Holds c id o
    → Holds (consume_event c request event).0 id o
unfolding consume_event
consume_other-Holds c request id none o ne h = h
consume_other-Holds c request id (some event) o ne h = elim (Bool-cases (event == "")) [
  | inl e ↦ rw e h
  | inr e ↦ rw e (
    get-delete_ne request id c.event_id_by_request_id ne ∙ h.0,
    get-delete_ne request id c.event_kind_by_request_id ne ∙ h.1,
  )
]

consume_for_decision-Holds :
    (c : Correlation) (request id : String) (o : Option (String × String))
    → Holds c id o
    → Holds (consume_for_decision c request).0 id (if request == id then taken o else o)
unfolding consume_for_decision
consume_for_decision-Holds c request id o h = elim (string_eq.dec request id) [
  | yes p ↦ rw (==-true_of_eq request id p, p, h.0) (consume_self-Holds c id o h)
  | no p ↦
      rw (==-false_of_ne request id p)
        (consume_other-Holds c request id (get request c.event_id_by_request_id) o p h)
]

state_of-Holds : (calls : List Call) (id : String) → Holds (state_of calls) id (waiting calls id)
unfolding state_of after get
state_of-Holds [] id = (refl, refl)
state_of-Holds (records request event kind ∷ older) id =
    record_request-Holds (state_of older) request event kind id _ (state_of-Holds older id)
state_of-Holds (consumes request ∷ older) id =
    consume_for_decision-Holds (state_of older) request id _ (state_of-Holds older id)
state_of-Holds (resets ∷ older) id = (refl, refl)

-- What a consumption answers for what waits.
abbrev pub consumed : Option (String × String) → Option (String × Option String)
consumed none = none
consumed (some (event, kind)) = if event == "" then none else some (event, some kind)

consume_event-consumed :
    (c : Correlation) (id : String) (o : Option (String × String))
    → Holds c id o
    → (consume_event c id (event_of o)).1 ≡ consumed o
unfolding consume_event
consume_event-consumed c id none h = refl
consume_event-consumed c id (some (event, kind)) h = elim (Bool-cases (event == "")) [
  | inl e ↦ rw e refl
  | inr e ↦ rw (e, h.1) refl
]

-- After any calls, a decision for a request is given the event and the kind of the request's latest
-- record in this run, if that has not been consumed and its event has a name, and nothing otherwise.
pub consume_for_decision-waiting :
    (calls : List Call) (id : String)
    → (consume_for_decision (state_of calls) id).1 ≡ consumed (waiting calls id)
unfolding consume_for_decision
consume_for_decision-waiting calls id =
    rw (state_of-Holds calls id).0
      (consume_event-consumed (state_of calls) id (waiting calls id) (state_of-Holds calls id))

consume_event-resolved :
    (c : Correlation) (request : String) (o : Option String)
    → (consume_event c request o).0.resolved_request_by_id ≡ c.resolved_request_by_id
unfolding consume_event
consume_event-resolved c request none = refl
consume_event-resolved c request (some event) = elim (Bool-cases (event == "")) [
  | inl e ↦ rw e refl
  | inr e ↦ rw e refl
]

-- After any calls, the lookup of a request gives its latest record in this run, consumed or not.
pub lookup_resolved-recorded :
    (calls : List Call) (id : String) → lookup_resolved (state_of calls) id ≡ recorded calls id
unfolding lookup_resolved state_of after get record_request consume_for_decision
lookup_resolved-recorded [] id = refl
lookup_resolved-recorded (records request event kind ∷ older) id =
    get-set request id (event, kind) (state_of older).resolved_request_by_id
    ∙ ap (λ o. if request == id then some (event, kind) else o) (lookup_resolved-recorded older id)
lookup_resolved-recorded (consumes request ∷ older) id =
    ap (get id) (consume_event-resolved (state_of older) request _)
    ∙ lookup_resolved-recorded older id
lookup_resolved-recorded (resets ∷ older) id = refl
