-- ===== src/Feed/Subagents.antt =====
-- src/core/feed/internals/subagentTracker.ts and subagentLifecycle.ts, with the registry of actors of
-- src/core/feed/entities.ts: who acts in a run. An actor id is a constructor of its own in place of its
-- text `subagent:…`.
pub mod Nested
use athena_flow_cli.Common.{
  String, Option, none, some, List, [], ◌∷◌, ◌++◌, if◌then◌else◌, ◌==◌, string_eq, Eq, Bool, true,
  false, ◌||◌, any, or_else, is_some, map, string_discrete,
}
use athena_flow_cli.Common.Dict.{Dict, get, set}
use athena_flow_cli.Feed.RunLifecycle.{Run, Lifecycle}

pub data ActorId : Type 0 where
  user root system : ActorId
  subagent : String → ActorId

unfoldable pub ActorId-discrete : Discrete ActorId
ActorId-discrete = hlevel string_discrete

instance abbrev pub actor_id_eq : Eq ActorId
actor_id_eq = record { dec = ActorId-discrete }

pub data ActorKind : Type 0 where
  user_kind agent_kind subagent_kind system_kind : ActorKind

pub record Actor : Type 0 where
  pub actor_id : ActorId
  pub kind : ActorKind
  pub display_name : String
  pub agent_type : Option String
  pub parent_actor_id : Option ActorId

abbrev pub plain_actor : ActorId → ActorKind → String → Actor
plain_actor id kind name = record {
  actor_id = id;
  kind = kind;
  display_name = name;
  agent_type = none;
  parent_actor_id = none;
}

-- `new ActorRegistry()`
abbrev pub new_actors : Dict ActorId Actor
new_actors =
    (user, plain_actor user user_kind "You")
    ∷ (root, plain_actor root agent_kind "Claude")
    ∷ (system, plain_actor system system_kind "System")
    ∷ []

abbrev pub or_text : String → String → String
or_text a b = if a == "" then b else a

unfoldable pub ensure_subagent : String → String → Dict ActorId Actor → Dict ActorId Actor
ensure_subagent agent_id agent_type actors =
    if is_some (get (subagent agent_id) actors)
    then actors
    else set (subagent agent_id)
        (record {
          actor_id = subagent agent_id;
          kind = subagent_kind;
          display_name = or_text agent_type agent_id;
          agent_type = some agent_type;
          parent_actor_id = some root;
        })
        actors

-- `stack`, innermost last.
pub record SubagentTracker : Type 0 where
  pub stack : List ActorId
  pub descriptions : Dict String String
  pub pending_description : Option String

abbrev pub new_tracker : SubagentTracker
new_tracker = record { stack = []; descriptions = []; pending_description = none }

unfoldable pub push_actor : ActorId → SubagentTracker → SubagentTracker
push_actor id t = record t { stack = t.stack ++ id ∷ [] }

-- `stack.splice(stack.lastIndexOf(id), 1)`
unfoldable pub remove_last : ActorId → List ActorId → List ActorId
remove_last id [] = []
remove_last id (x ∷ xs) =
    let rest = remove_last id xs in
    if any (λ y. y == id) xs then x ∷ rest else if x == id then xs else x ∷ xs

unfoldable pub pop_actor : ActorId → SubagentTracker → SubagentTracker
unfolding remove_last
pop_actor id t = record t { stack = remove_last id t.stack }

unfoldable pub peek : List ActorId → Option ActorId
peek [] = none
peek (x ∷ []) = some x
peek (x ∷ y ∷ xs) = peek (y ∷ xs)

unfoldable pub clear : SubagentTracker → SubagentTracker
clear t = record t { stack = [] }

pub data Scope : Type 0 where
  root_scope subagent_scope : Scope

unfoldable pub current_scope : SubagentTracker → Scope
unfolding peek
current_scope t = if is_some (peek t.stack) then subagent_scope else root_scope

unfoldable pub consume_pending_description : SubagentTracker → SubagentTracker × Option String
consume_pending_description t = (record t { pending_description = none }, t.pending_description)

-- `isSubagentTool`
abbrev pub is_subagent_tool : String → Bool
is_subagent_tool tool = (tool == "Task") || (tool == "Agent")

-- The description of the tool's input, if it is a text.
unfoldable pub observe_tool_input : String → Option String → SubagentTracker → SubagentTracker
observe_tool_input tool description t =
    if is_subagent_tool tool then record t { pending_description = description } else t

-- The tracker with the two objects that it acts on: the registry of actors and the current run's list.
pub record Subagents : Type 0 where
  pub tracker : SubagentTracker
  pub actors : Dict ActorId Actor
  pub run_subagents : Option (List String)

-- `if (text)`
abbrev pub truthy : Option String → Option String
truthy none = none
truthy (some s) = if s == "" then none else some s

abbrev pub either : Option String → Option String → Option String
either none b = b
either (some a) b = some a

abbrev pub describe : String → Option String → Dict String String → Dict String String
describe id none ds = ds
describe id (some d) ds = set id d ds

-- `startSubagent` with an id
unfoldable pub register_subagent : String → Option String → Option String → Subagents → Subagents
unfolding ensure_subagent push_actor
register_subagent id agent_type description s =
    let t = push_actor (subagent id) s.tracker in
    record s {
      actors = ensure_subagent id (or_else agent_type "unknown") s.actors;
      run_subagents = elim s.run_subagents [ none ↦ none | some ids ↦ some (ids ++ id ∷ []) ];
      tracker = record t { descriptions = describe id (truthy description) t.descriptions };
    }

pub record Started : Type 0 where
  pub actor_id : ActorId
  pub description : Option String

unfoldable pub start_if : Option String → Option String → Option String → Subagents → Subagents
unfolding register_subagent
start_if none agent_type description s = s
start_if (some id) agent_type description s = register_subagent id agent_type description s

unfoldable pub start_subagent :
    Option String → Option String → Option String → Subagents → Subagents × Started
unfolding start_if consume_pending_description
start_subagent agent_id agent_type fallback s =
    let (t, pending) = consume_pending_description s.tracker in
    let description = either pending fallback in
    (
      start_if (truthy agent_id) agent_type description (record s { tracker = t }),
      record { actor_id = root; description = description },
    )

unfoldable pub pop_if : Option String → SubagentTracker → SubagentTracker
unfolding pop_actor
pop_if none t = t
pop_if (some id) t = pop_actor (subagent id) t

unfoldable pub stop_subagent : Option String → Subagents → Subagents × Started
unfolding pop_if
stop_subagent agent_id s =
    let t = pop_if (truthy agent_id) s.tracker in
    (
      record s { tracker = t },
      record {
        actor_id = subagent (or_else agent_id "unknown");
        description = get (or_else agent_id "") t.descriptions;
      },
    )

unfoldable pub current_actor : Subagents → ActorId
unfolding peek
current_actor s = or_else (peek s.tracker.stack) root
