-- ===== src/Controller.antt =====
-- src/core/controller: the rules over tools (`rules.ts`), what counts as a scoped request
-- (`permission.ts`), and `handleEvent` (`runtimeController.ts`). The callbacks that `handleEvent`
-- makes are returned as a list, in their order.
pub mod Matching
pub mod Decisions
pub mod Tests
use Prim.Native.Char.{code}
use Prim.Native.String
use athena_flow_cli.Common.{
  String, Option, none, some, List, [], ◌∷◌, if◌then◌else◌, ◌==◌, string_eq, option_eq, nat_eq,
  Bool, true, false, ◌&&◌, ◌||◌, find,
}

pub data RuleAction : Type 0 where
  deny approve : RuleAction

pub record HookRule : Type 0 where
  pub id : String
  pub tool_name : String
  pub action : RuleAction
  pub added_by : String

abbrev pub is_deny : HookRule → Bool
is_deny r = elim r.action [ deny ↦ true | approve ↦ false ]

abbrev pub is_approve : HookRule → Bool
is_approve r = elim r.action [ deny ↦ false | approve ↦ true ]

-- `s.startsWith(p)`
unfoldable pub starts_with : String → String → Bool
starts_with s String.[] = true
starts_with String.[] (String.◌∷◌ c p) = false
starts_with (String.◌∷◌ d s) (String.◌∷◌ c p) = (code d == code c) && starts_with s p

-- `s.endsWith(p)`
unfoldable pub ends_with : String → String → Bool
ends_with String.[] p = String.[] == p
ends_with (String.◌∷◌ c s) p = (String.◌∷◌ c s == p) || ends_with s p

-- `s.slice(0, -1)`
unfoldable pub drop_last : String → String
drop_last String.[] = String.[]
drop_last (String.◌∷◌ c String.[]) = String.[]
drop_last (String.◌∷◌ c (String.◌∷◌ d s)) = String.◌∷◌ c (drop_last (String.◌∷◌ d s))

unfoldable pub rule_matches : String → String → Bool
unfolding starts_with ends_with drop_last
rule_matches rule_tool tool =
    if rule_tool == "*"
    then true
    else if rule_tool == tool
    then true
    else if ends_with rule_tool "__*"
    then starts_with tool (drop_last rule_tool)
    else false

unfoldable pub or_find : Option HookRule → Option HookRule → Option HookRule
or_find (some r) other = some r
or_find none other = other

unfoldable pub match_rule : List HookRule → String → Option HookRule
unfolding or_find rule_matches
match_rule rules tool =
    or_find (find (λ r. is_deny r && rule_matches r.tool_name tool) rules)
      (find (λ r. is_approve r && rule_matches r.tool_name tool) rules)

abbrev pub is_scoped_permissions_request : String → Bool
is_scoped_permissions_request hook = hook == "item/permissions/requestApproval"

-- What `handleEvent` reads of a `RuntimeEvent`; `data_tool_name` is `data.tool_name`, when a string.
pub record Event : Type 0 where
  pub id : String
  pub kind : String
  pub hook_name : String
  pub tool_name : Option String
  pub data_tool_name : Option String

pub data Intent : Type 0 where
  permission_allow : (session_scope : Bool) → Intent
  permission_deny : (added_by : String) → Intent
  pre_tool_allow : Intent
  pre_tool_deny : (added_by : String) → Intent

pub data Callback : Type 0 where
  enqueue_permission enqueue_question relay_permission relay_question : String → Callback

-- The rules, and which of the optional callbacks are given.
pub record Callbacks : Type 0 where
  pub rules : List HookRule
  pub relays_permission : Bool
  pub relays_question : Bool

pub record ControllerResult : Type 0 where
  pub handled : Bool
  pub decision : Option Intent
  pub calls : List Callback

abbrev pub decided : Intent → ControllerResult
decided i = record { handled = true; decision = some i; calls = [] }

abbrev pub asked : List Callback → ControllerResult
asked cs = record { handled = true; decision = none; calls = cs }

abbrev pub unhandled : ControllerResult
unhandled = record { handled = false; decision = none; calls = [] }

-- `event.toolName ?? data.tool_name`
abbrev pub tool_of : Event → Option String
tool_of e = elim e.tool_name [ some t ↦ some t | none ↦ e.data_tool_name ]

abbrev pub ask_question : Event → Callbacks → ControllerResult
ask_question e cb =
    asked (enqueue_question e.id ∷ (if cb.relays_question then relay_question e.id ∷ [] else []))

abbrev pub ask_permission : Event → Callbacks → ControllerResult
ask_permission e cb =
    asked
      (enqueue_permission e.id ∷ (if cb.relays_permission then relay_permission e.id ∷ [] else []))

unfoldable pub permission_by : Event → Callbacks → Option HookRule → ControllerResult
permission_by e cb none = ask_permission e cb
permission_by e cb (some r) = elim r.action [
  | deny ↦ decided (permission_deny r.added_by)
  | approve ↦ decided (permission_allow (is_scoped_permissions_request e.hook_name))
]

unfoldable pub pre_tool_by : Option HookRule → ControllerResult
pre_tool_by none = decided pre_tool_allow
pre_tool_by (some r) = elim r.action [
  | deny ↦ decided (pre_tool_deny r.added_by)
  | approve ↦ decided pre_tool_allow
]

-- The tests of `handleEvent` for a tool that is named; an empty name passes no test but the first.
unfoldable pub named_tool : Event → Callbacks → String → ControllerResult
unfolding match_rule permission_by pre_tool_by
named_tool e cb tool =
    if e.kind == "permission.request" && (tool == "user_input")
    then ask_question e cb
    else if tool == ""
    then unhandled
    else if e.kind == "permission.request"
    then permission_by e cb (match_rule cb.rules tool)
    else if e.kind == "tool.pre" && (tool == "AskUserQuestion")
    then ask_question e cb
    else if e.kind == "tool.pre"
    then pre_tool_by (match_rule cb.rules tool)
    else unhandled

unfoldable pub with_tool : Event → Callbacks → Option String → ControllerResult
unfolding named_tool
with_tool e cb none = unhandled
with_tool e cb (some tool) = named_tool e cb tool

unfoldable pub handle_event : Event → Callbacks → ControllerResult
unfolding with_tool
handle_event e cb = with_tool e cb (tool_of e)
