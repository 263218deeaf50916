-- ===== src/Feed/Tasks.antt =====
-- src/core/feed/internals/taskLifecycleTracker.ts, rootPlanTracker.ts and taskStateTracker.ts: the task
-- list of a run. A value read from a tool's input or answer is absent (or null), a text, or something
-- else; a field of a value that is no object is absent. `todos` and the plan steps are the arrays that
-- the source casts, if they are arrays.
pub mod Ordered
mod Tests
use athena_flow_cli.Common.{
  ℕ, suc, String, Option, none, some, List, [], ◌∷◌, ◌++◌, if◌then◌else◌, ◌==◌, string_eq,
  option_eq, Eq, Bool, true, false, not, ◌&&◌, ◌||◌, any, map, or_else, fold_left, is_some,
}

pub data TodoStatus : Type 0 where
  pending in_progress completed failed : TodoStatus

unfoldable pub TodoStatus-discrete : Discrete TodoStatus
TodoStatus-discrete = hlevel

instance abbrev pub todo_status_eq : Eq TodoStatus
todo_status_eq = record { dec = TodoStatus-discrete }

pub record TodoItem : Type 0 where
  pub content : String
  pub status : TodoStatus
  pub active_form : Option String
  pub task_id : Option String

-- `coerceTaskStatus` of a text
unfoldable pub coerce_status_text : String → Option TodoStatus
coerce_status_text s =
    if s == "pending"
    then some pending
    else if s == "in_progress"
    then some in_progress
    else if s == "completed"
    then some completed
    else if s == "failed"
    then some failed
    else none

-- `items.findIndex(item => item.taskId === id)`, and the item there changed.
abbrev pub has_task : String → TodoItem → Bool
has_task id item = item.task_id == some id

unfoldable pub change_first :
    (TodoItem → Bool) → (TodoItem → TodoItem) → List TodoItem → List TodoItem
change_first p f [] = []
change_first p f (x ∷ xs) = let rest = change_first p f xs in if p x then f x ∷ xs else x ∷ rest

-- `a ?? b`
abbrev pub first_of_two : Option String → Option String → Option String
first_of_two none b = b
first_of_two (some a) b = some a

unfoldable pub upsert_created :
    String → String → Option String → Option String → List TodoItem → List TodoItem
unfolding change_first
upsert_created id subject description active_form items =
    let active = first_of_two active_form description in
    if any (has_task id) items
    then change_first (has_task id)
        (λ item. record item {
          task_id = some id;
          content = subject;
          active_form = first_of_two active item.active_form;
        })
        items
    else items
      ++ (record { content = subject; status = pending; active_form = active; task_id = some id })
        ∷ []

-- `!subject`
abbrev pub non_empty : Option String → Option String
non_empty none = none
non_empty (some s) = if s == "" then none else some s

unfoldable pub mark_completed : String → Option String → List TodoItem → List TodoItem
unfolding change_first
mark_completed id subject items =
    if any (has_task id) items
    then change_first (has_task id) (λ item. record item { status = completed }) items
    else elim (non_empty subject) [
      | none ↦ items
      | some s ↦
          items
          ++ (record { content = s; status = completed; active_form = none; task_id = some id })
            ∷ []
    ]

unfoldable pub update_status : String → TodoStatus → List TodoItem → List TodoItem
update_status id status items =
    map (λ (item : TodoItem). if has_task id item then record item { status = status } else item)
      items

-- `rootPlan.differs`
unfoldable pub differs : List TodoItem → List TodoItem → Bool
differs [] [] = false
differs [] (y ∷ ys) = true
differs (x ∷ xs) [] = true
differs (x ∷ xs) (y ∷ ys) =
    not (x.content == y.content) || (not (x.status == y.status) || differs xs ys)

pub data Value : Type 0 where
  absent : Value
  text : String → Value
  something : Value

-- `readString` of one value and of several
abbrev pub as_text : Value → Option String
as_text absent = none
as_text (text s) = some s
as_text something = none

unfoldable pub read_string : List Value → Option String
read_string [] = none
read_string (absent ∷ vs) = read_string vs
read_string (text s ∷ vs) = some s
read_string (something ∷ vs) = read_string vs

-- `a ?? b`
abbrev pub or_value : Value → Value → Value
or_value absent b = b
or_value (text s) b = text s
or_value something b = something

unfoldable pub coerce_task_status : Value → Option TodoStatus
unfolding coerce_status_text
coerce_task_status absent = none
coerce_task_status (text s) = coerce_status_text s
coerce_task_status something = none

pub record ToolInput : Type 0 where
  pub todos : Option (List TodoItem)
  pub task_id_camel : Value
  pub task_id_snake : Value
  pub status : Value
  pub subject : Value
  pub description : Value
  pub active_form : Value

-- `task` and `statusChange` by their fields.
pub record ToolResponse : Type 0 where
  pub task_id_camel : Value
  pub task_id_snake : Value
  pub status_change_to : Value
  pub created_id : Value
  pub created_task_id : Value
  pub created_subject : Value

pub record PlanStep : Type 0 where
  pub step : Value
  pub status : Value

pub record TaskState : Type 0 where
  pub root_plan : List TodoItem
  pub tasks : List TodoItem

abbrev pub no_tasks : TaskState
no_tasks = record { root_plan = []; tasks = [] }

unfoldable pub current : TaskState → List TodoItem
current t = t.root_plan ++ t.tasks

-- `if (taskId && status) updateStatus`
unfoldable pub update_if : Option String → Option TodoStatus → TaskState → TaskState
unfolding update_status
update_if none status t = t
update_if (some id) none t = t
update_if (some id) (some status) t = record t { tasks = update_status id status t.tasks }

unfoldable pub extract_todo_items : ToolInput → List TodoItem
extract_todo_items input = or_else input.todos []

unfoldable pub apply_tool_pre : String → ToolInput → String → TaskState → TaskState
unfolding update_if extract_todo_items read_string coerce_task_status
apply_tool_pre tool input actor t =
    if (tool == "TodoWrite") && (actor == "agent:root")
    then record t { root_plan = extract_todo_items input }
    else if tool == "TaskUpdate"
    then update_if (non_empty (read_string (input.task_id_camel ∷ input.task_id_snake ∷ [])))
        (coerce_task_status input.status) t
    else t

-- `if (taskId && subject) upsertCreated`
unfoldable pub create_if :
    Option String → Option String → Option String → Option String → TaskState → TaskState
unfolding upsert_created
create_if none subject description active_form t = t
create_if (some id) none description active_form t = t
create_if (some id) (some subject) description active_form t = record t {
  tasks = upsert_created id subject description active_form t.tasks;
}

unfoldable pub apply_tool_post : String → ToolInput → ToolResponse → TaskState → TaskState
unfolding create_if update_if read_string coerce_task_status
apply_tool_post tool input response t =
    if tool == "TaskCreate"
    then create_if (non_empty (read_string (response.created_id ∷ response.created_task_id ∷ [])))
        (non_empty (read_string (response.created_subject ∷ input.subject ∷ [])))
        (read_string (input.description ∷ [])) (read_string (input.active_form ∷ [])) t
    else if tool == "TaskUpdate"
    then update_if
        (non_empty (
          read_string (
            response.task_id_camel ∷ response.task_id_snake ∷ input.task_id_camel
            ∷ input.task_id_snake ∷ [])))
        (coerce_task_status (or_value response.status_change_to input.status)) t
    else t

unfoldable pub map_plan_step_status : Option String → TodoStatus
map_plan_step_status none = pending
map_plan_step_status (some s) =
    if s == "inProgress" then in_progress else if s == "completed" then completed else pending

unfoldable pub plan_item : PlanStep → TodoItem
unfolding map_plan_step_status
plan_item s = record {
  content = or_else (as_text s.step) "";
  status = map_plan_step_status (as_text s.status);
  active_form = none;
  task_id = none;
}

-- The plan, and whether it has changed.
unfoldable pub apply_plan_delta : Option (List PlanStep) → TaskState → TaskState × Bool
unfolding differs plan_item
apply_plan_delta none t = (t, false)
apply_plan_delta (some []) t = (t, false)
apply_plan_delta (some (s ∷ ss)) t =
    let next = map plan_item (s ∷ ss) in
    if not (differs next t.root_plan) then (t, false) else (record t { root_plan = next }, true)

pub record TaskData : Type 0 where
  pub task_id : Value
  pub task_subject : Value
  pub task_description : Value

unfoldable pub apply_task_created_event : TaskData → TaskState → TaskState
unfolding create_if
apply_task_created_event d t =
    create_if (non_empty (as_text d.task_id)) (non_empty (as_text d.task_subject))
      (as_text d.task_description) none t

unfoldable pub complete_if : Option String → Option String → TaskState → TaskState
unfolding mark_completed
complete_if none subject t = t
complete_if (some id) subject t = record t { tasks = mark_completed id subject t.tasks }

unfoldable pub apply_task_completed_event : TaskData → TaskState → TaskState
unfolding complete_if
apply_task_completed_event d t =
    complete_if (non_empty (as_text d.task_id)) (as_text d.task_subject) t

-- The stored events that `restore` replays; a plan delta is none of them.
pub data StoredEvent : Type 0 where
  tool_pre : (tool : String) (input : ToolInput) (actor : String) → StoredEvent
  tool_post : (tool : String) (input : ToolInput) (response : ToolResponse) → StoredEvent
  task_created : TaskData → StoredEvent
  task_completed : TaskData → StoredEvent
  other_event : StoredEvent

unfoldable pub restore_event : TaskState → StoredEvent → TaskState
unfolding apply_tool_pre apply_tool_post apply_task_created_event apply_task_completed_event
restore_event t (tool_pre tool input actor) = apply_tool_pre tool input actor t
restore_event t (tool_post tool input response) = apply_tool_post tool input response t
restore_event t (task_created d) = apply_task_created_event d t
restore_event t (task_completed d) = apply_task_completed_event d t
restore_event t other_event = t

unfoldable pub restore : List StoredEvent → TaskState → TaskState
unfolding restore_event
restore events t = fold_left restore_event t events
