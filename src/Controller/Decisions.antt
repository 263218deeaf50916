-- ===== src/Controller/Decisions.antt =====
-- What `handleEvent` decides by itself, and what it leaves to the user.
use athena_flow_cli.Common.{
  String, ◌≡◌, ◌≢◌, refl, Option, none, some, List, [], ◌∷◌, ◌==◌, string_eq, Bool, true, false,
  ◌&&◌, if◌then◌else◌, Bool-cases, inl, inr, ◌⊎◌, eq_of_==, ne_of_==, ==-false_of_ne,
}
use athena_flow_cli.Controller.{
  Callback, enqueue_permission, enqueue_question, relay_permission, relay_question, HookRule,
  RuleAction, deny, approve, Event, Callbacks, ControllerResult, Intent, permission_allow,
  permission_deny, pre_tool_allow, pre_tool_deny, handle_event, with_tool, named_tool,
  permission_by, pre_tool_by, tool_of, is_scoped_permissions_request,
}
use athena_flow_cli.Controller.Matching.{
  First, Nowhere, denies, approves, Decides, match_rule-Decides,
}

-- The first deny rule for the tool was added by the one named.
abbrev pub Denied : List HookRule → String → String → Type 0
Denied rules tool by = (r : HookRule) × First (denies tool) r rules × (r.added_by ≡ by)

-- No deny rule matches the tool, and an approve rule does.
abbrev pub Approved : List HookRule → String → Type 0
Approved rules tool = Nowhere (denies tool) rules × ((r : HookRule) × First (approves tool) r rules)

-- The event is no request for user input, or no question tool: its tool goes by the rules.
abbrev pub Ruled : Event → String → String → String → Type 0
Ruled e kind question tool = (e.kind ≡ kind) × (tool ≢ question) × (tool ≢ "")

-- Nothing is done: the event is of another kind, or its tool has no name.
abbrev pub Passes : Event → String → Type 0
Passes e tool = ((e.kind ≢ "permission.request") × (e.kind ≢ "tool.pre")) ⊎ (tool ≡ "")

-- The user is asked once, and then the relay where there is one.
abbrev pub Asks : Callback → Callback → Bool → List Callback → Type 0
Asks enqueue relay true calls = calls ≡ enqueue ∷ relay ∷ []
Asks enqueue relay false calls = calls ≡ enqueue ∷ []

-- The user is asked: it is a question, or a permission on which no rule decides.
abbrev pub Open : Event → Callbacks → String → List Callback → Type 0
Open e cb tool calls =
    (((e.kind ≡ "permission.request") × (tool ≡ "user_input"))
      × Asks (enqueue_question e.id) (relay_question e.id) cb.relays_question calls)
    ⊎ (((e.kind ≡ "tool.pre") × (tool ≡ "AskUserQuestion"))
        × Asks (enqueue_question e.id) (relay_question e.id) cb.relays_question calls)
    ⊎ ((Ruled e "permission.request" "user_input" tool
          × Nowhere (denies tool) cb.rules
          × Nowhere (approves tool) cb.rules)
        × Asks (enqueue_permission e.id) (relay_permission e.id) cb.relays_permission calls)

-- What is decided has the rules behind it, by the kind of the decision.
abbrev pub Backed : Event → Callbacks → String → List Callback → Bool → Option Intent → Type 0
Backed e cb tool calls false none = Passes e tool × (calls ≡ [])
Backed e cb tool calls true none = Open e cb tool calls
Backed e cb tool calls h (some (permission_allow session)) =
    Ruled e "permission.request" "user_input" tool
    × Approved cb.rules tool
    × (session ≡ is_scoped_permissions_request e.hook_name)
Backed e cb tool calls h (some (permission_deny by)) =
    Ruled e "permission.request" "user_input" tool × Denied cb.rules tool by
Backed e cb tool calls h (some pre_tool_allow) =
    Ruled e "tool.pre" "AskUserQuestion" tool × Nowhere (denies tool) cb.rules
Backed e cb tool calls h (some (pre_tool_deny by)) =
    Ruled e "tool.pre" "AskUserQuestion" tool × Denied cb.rules tool by

-- A decision comes with no callback.
abbrev pub Silent : Option Intent → List Callback → Type 0
Silent none cs = Unit {0}
Silent (some i) cs = cs ≡ []

abbrev pub Complies : Event → Callbacks → Option String → ControllerResult → Type 0
Complies e cb none r = (r.handled ≡ false) × (r.decision ≡ none) × (r.calls ≡ [])
Complies e cb (some tool) r =
    Backed e cb tool r.calls r.handled r.decision × Silent r.decision r.calls

asked-Asks :
    (enqueue relay : Callback) (b : Bool)
    → Asks enqueue relay b (enqueue ∷ (if b then relay ∷ [] else []))
asked-Asks enqueue relay true = refl
asked-Asks enqueue relay false = refl

First-holds :
    (p : HookRule → Bool) (r : HookRule) (rules : List HookRule) → First p r rules → p r ≡ true
First-holds p r [] h = elim h [ ]
First-holds p r (x ∷ xs) (inl (h, same)) = rw (← same) h
First-holds p r (x ∷ xs) (inr (h, later)) = First-holds p r xs later

-- How a rule that decides acts.
deny_of :
    (a : RuleAction) (m : Bool)
    → ((elim a [ deny ↦ true | approve ↦ false ]) && m) ≡ true
    → a ≡ deny
deny_of deny m h = refl
deny_of approve m h = cc

approve_of :
    (a : RuleAction) (m : Bool)
    → ((elim a [ deny ↦ false | approve ↦ true ]) && m) ≡ true
    → a ≡ approve
approve_of approve m h = refl
approve_of deny m h = cc

permission_by-Complies :
    (e : Event) (cb : Callbacks) (tool : String) (o : Option HookRule)
    → Ruled e "permission.request" "user_input" tool
    → Decides cb.rules tool o
    → Complies e cb (some tool) (permission_by e cb o)
unfolding permission_by
permission_by-Complies e cb tool none k (d, a) =
    (inr (inr ((k, d, a), asked-Asks _ _ cb.relays_permission)), tt)
permission_by-Complies e cb tool (some r) k (inl f) =
    rw (deny_of r.action _ (First-holds (denies tool) r cb.rules f)) ((k, (r, f, refl)), refl)
permission_by-Complies e cb tool (some r) k (inr (d, f)) =
    rw (approve_of r.action _ (First-holds (approves tool) r cb.rules f))
      ((k, (d, (r, f)), refl), refl)

pre_tool_by-Complies :
    (e : Event) (cb : Callbacks) (tool : String) (o : Option HookRule)
    → Ruled e "tool.pre" "AskUserQuestion" tool
    → Decides cb.rules tool o
    → Complies e cb (some tool) (pre_tool_by o)
unfolding pre_tool_by
pre_tool_by-Complies e cb tool none k (d, a) = ((k, d), refl)
pre_tool_by-Complies e cb tool (some r) k (inl f) =
    rw (deny_of r.action _ (First-holds (denies tool) r cb.rules f)) ((k, (r, f, refl)), refl)
pre_tool_by-Complies e cb tool (some r) k (inr (d, f)) =
    rw (approve_of r.action _ (First-holds (approves tool) r cb.rules f)) ((k, d), refl)

nameless :
    (e : Event) (cb : Callbacks) (tool : String)
    → (e.kind == "permission.request") ≡ false
    → (tool == "") ≡ true
    → Complies e cb (some tool) (named_tool e cb tool)
unfolding named_tool
nameless e cb tool k t = rw (k, t) ((inr (eq_of_== tool _ t), refl), tt)

no_permission :
    (e : Event) (cb : Callbacks) (tool : String)
    → e.kind ≢ "permission.request"
    → tool ≢ ""
    → Complies e cb (some tool) (named_tool e cb tool)
unfolding named_tool
no_permission e cb tool k t =
    rw (==-false_of_ne e.kind "permission.request" k, ==-false_of_ne tool "" t)
      (elim (Bool-cases (e.kind == "tool.pre")) [
        | inl p ↦ elim (Bool-cases (tool == "AskUserQuestion")) [
          | inl q ↦
              rw (p, q)
                (
                  inr (
                      inl (
                        (eq_of_== e.kind _ p, eq_of_== tool _ q),
                        asked-Asks _ _ cb.relays_question,
                      )),
                  tt,
                )
          | inr q ↦
              rw (p, q)
                (pre_tool_by-Complies e cb tool _ (eq_of_== e.kind _ p, ne_of_== tool _ q, t)
                  (match_rule-Decides cb.rules tool))
        ]
        | inr p ↦ rw p ((inl (k, ne_of_== e.kind _ p), refl), tt)
      ])

permission :
    (e : Event) (cb : Callbacks) (tool : String)
    → (e.kind == "permission.request") ≡ true
    → Complies e cb (some tool) (named_tool e cb tool)
unfolding named_tool
permission e cb tool k = rw k (elim (Bool-cases (tool == "user_input")) [
  | inl q ↦
      rw q (inl ((eq_of_== e.kind _ k, eq_of_== tool _ q), asked-Asks _ _ cb.relays_question), tt)
  | inr q ↦ rw q (elim (Bool-cases (tool == "")) [
    | inl t ↦ rw t ((inr (eq_of_== tool _ t), refl), tt)
    | inr t ↦ rw t (
        permission_by-Complies e cb tool _
          (eq_of_== e.kind _ k, ne_of_== tool _ q, ne_of_== tool _ t)
          (match_rule-Decides cb.rules tool))
  ])
])

with_tool-Complies :
    (e : Event) (cb : Callbacks) (o : Option String) → Complies e cb o (with_tool e cb o)
unfolding with_tool
with_tool-Complies e cb none = (refl, refl, refl)
with_tool-Complies e cb (some tool) = elim (Bool-cases (e.kind == "permission.request")) [
  | inl k ↦ permission e cb tool k
  | inr k ↦ elim (Bool-cases (tool == "")) [
    | inl t ↦ nameless e cb tool k t
    | inr t ↦ no_permission e cb tool (ne_of_== e.kind _ k) (ne_of_== tool _ t)
  ]
]

-- For every event: it is allowed by itself only when no deny rule matches its tool, a permission
-- only when an approve rule matches besides; it is denied only by the first deny rule that matches,
-- whose author is named; the user is asked, with no decision, only for a question or for a permission
-- that no rule decides, by one callback that enqueues it under the event's id, followed by the one
-- that relays it where that is given; it is passed over, with no callback, only when its kind or its
-- tool is none of these; and a decision comes with no callback. The rules bind a permission request
-- whatever its scope, a scoped one included.
pub handle_event-Complies :
    (e : Event) (cb : Callbacks) → Complies e cb (tool_of e) (handle_event e cb)
unfolding handle_event
handle_event-Complies e cb = with_tool-Complies e cb (tool_of e)
