-- ===== src/Feed/Tasks/Ordered.antt =====
-- The places of the tasks in the list.
use athena_flow_cli.Common.{
  String, Option, none, some, List, [], ◌∷◌, ◌++◌, ◌==◌, string_eq, option_eq, true, false, ◌&&◌,
  ◌||◌, any, fold_left, arith, ◌≡◌, refl, sym, ap, ◌∙◌, Bool-cases, inl, inr, Option-cases,
  append-nil, append_assoc, eq_of_==,
}
use athena_flow_cli.Feed.Tasks.{
  TodoItem, TodoStatus, has_task, change_first, upsert_created, mark_completed, update_status,
  TaskState, no_tasks, update_if, apply_tool_pre, create_if, apply_tool_post, apply_plan_delta,
  apply_task_created_event, complete_if, apply_task_completed_event, ToolInput, ToolResponse,
  PlanStep, non_empty, StoredEvent, tool_pre, tool_post, task_created, task_completed, other_event,
  restore_event,
}

-- The ids of the tasks, in order.
abbrev pub ids : List TodoItem → List (Option String)
ids [] = []
ids (x ∷ xs) = x.task_id ∷ ids xs

-- No id twice.
abbrev pub Distinct : List TodoItem → Type 0
Distinct [] = Unit
Distinct (x ∷ xs) =
    ((id : String) → has_task id x ≡ true → any (has_task id) xs ≡ false) × Distinct xs

-- A list of tasks grows: the ids stay in their places, and new ones come behind.
abbrev pub Grows : List TodoItem → List TodoItem → Type 0
Grows xs ys = (new : List (Option String)) × (ids ys ≡ ids xs ++ new)

any-ids :
    (id : String) (xs ys : List TodoItem)
    → ids xs ≡ ids ys
    → any (has_task id) xs ≡ any (has_task id) ys
any-ids id [] [] h = refl
any-ids id [] (y ∷ ys) h = absurd (ground arith)
any-ids id (x ∷ xs) [] h = absurd (ground arith)
any-ids id (x ∷ xs) (y ∷ ys) h = ground (arith, any-ids id xs ys)

Distinct-ids : (xs ys : List TodoItem) → ids xs ≡ ids ys → Distinct xs → Distinct ys
Distinct-ids [] [] h d = tt
Distinct-ids [] (y ∷ ys) h d = absurd (ground arith)
Distinct-ids (x ∷ xs) [] h d = absurd (ground arith)
Distinct-ids (x ∷ xs) (y ∷ ys) h d =
    let head : x.task_id ≡ y.task_id = ground arith in
    let tail : ids xs ≡ ids ys = ground arith in
    (
      λ id t. sym (any-ids id xs ys tail) ∙ d.0 id (ap (λ o. o == some id) head ∙ t),
      Distinct-ids xs ys tail d.1,
    )

ids-change_first :
    (id : String) (f : TodoItem → TodoItem) (xs : List TodoItem)
    → ((x : TodoItem) → has_task id x ≡ true → (f x).task_id ≡ x.task_id)
    → ids (change_first (has_task id) f xs) ≡ ids xs
unfolding change_first
ids-change_first id f [] h = refl
ids-change_first id f (x ∷ xs) h = elim (Bool-cases (has_task id x)) [
  | inl e ↦ rw e (ap (λ i. i ∷ ids xs) (h x e))
  | inr e ↦ rw e (ap (◌∷◌ x.task_id) (ids-change_first id f xs h))
]

ids-update_status :
    (id : String) (status : TodoStatus) (xs : List TodoItem)
    → ids (update_status id status xs) ≡ ids xs
unfolding update_status
ids-update_status id status [] = refl
ids-update_status id status (x ∷ xs) = elim (Bool-cases (has_task id x)) [
  | inl e ↦ rw e (ap (◌∷◌ x.task_id) (ids-update_status id status xs))
  | inr e ↦ rw e (ap (◌∷◌ x.task_id) (ids-update_status id status xs))
]

ids-append : (xs ys : List TodoItem) → ids (xs ++ ys) ≡ ids xs ++ ids ys
ids-append [] ys = refl
ids-append (x ∷ xs) ys = ap (◌∷◌ x.task_id) (ids-append xs ys)

any-append :
    (id : String) (xs : List TodoItem) (y : TodoItem)
    → any (has_task id) (xs ++ y ∷ []) ≡ (any (has_task id) xs || has_task id y)
any-append id [] y = ground arith
any-append id (x ∷ xs) y = ground (arith, any-append id xs y)

append-Distinct :
    (id : String) (xs : List TodoItem) (y : TodoItem)
    → y.task_id ≡ some id
    → any (has_task id) xs ≡ false
    → Distinct xs
    → Distinct (xs ++ y ∷ [])
append-Distinct id [] y e h d = (λ j t. refl, tt)
append-Distinct id (x ∷ xs) y e h d = (
  λ j t. any-append j xs y ∙ ground (arith, d.0 j t, e, eq_of_== x.task_id (some j) t),
  append-Distinct id xs y e (ground arith) d.1,
)

-- What an operation on the tasks keeps.
abbrev pub Keeps : List TodoItem → List TodoItem → Type 0
Keeps xs ys = Grows xs ys × (Distinct xs → Distinct ys)

Keeps-same : (xs ys : List TodoItem) → ids ys ≡ ids xs → Keeps xs ys
Keeps-same xs ys e = (([], e ∙ sym (append-nil (ids xs))), Distinct-ids xs ys (sym e))

Keeps-append :
    (id : String) (xs : List TodoItem) (y : TodoItem)
    → y.task_id ≡ some id
    → any (has_task id) xs ≡ false
    → Keeps xs (xs ++ y ∷ [])
Keeps-append id xs y e h =
    ((ids (y ∷ []), ids-append xs (y ∷ [])), λ d. append-Distinct id xs y e h d)

upsert_created-Keeps :
    (id subject : String) (description active : Option String) (xs : List TodoItem)
    → Keeps xs (upsert_created id subject description active xs)
unfolding upsert_created
upsert_created-Keeps id subject description active xs = elim (Bool-cases (any (has_task id) xs)) [
  | inl e ↦
      rw e
        (Keeps-same xs _ (ids-change_first id _ xs (λ x t. sym (eq_of_== x.task_id (some id) t))))
  | inr e ↦ rw e (Keeps-append id xs _ refl e)
]

mark_completed-Keeps :
    (id : String) (subject : Option String) (xs : List TodoItem)
    → Keeps xs (mark_completed id subject xs)
unfolding mark_completed
mark_completed-Keeps id subject xs = elim (Bool-cases (any (has_task id) xs)) [
  | inl e ↦ rw e (Keeps-same xs _ (ids-change_first id _ xs (λ x t. refl)))
  | inr e ↦ elim (Option-cases (non_empty subject)) [
    | inl n ↦ rw (e, n) (Keeps-same xs xs refl)
    | inr (s, n) ↦ rw (e, n) (Keeps-append id xs _ refl e)
  ]
]

update_status-Keeps :
    (id : String) (status : TodoStatus) (xs : List TodoItem) → Keeps xs (update_status id status xs)
update_status-Keeps id status xs = Keeps-same xs _ (ids-update_status id status xs)

update_if-Keeps :
    (id : Option String) (status : Option TodoStatus) (t : TaskState)
    → Keeps t.tasks (update_if id status t).tasks
unfolding update_if
update_if-Keeps none status t = Keeps-same t.tasks t.tasks refl
update_if-Keeps (some id) none t = Keeps-same t.tasks t.tasks refl
update_if-Keeps (some id) (some status) t = update_status-Keeps id status t.tasks

create_if-Keeps :
    (id subject description active : Option String) (t : TaskState)
    → Keeps t.tasks (create_if id subject description active t).tasks
unfolding create_if
create_if-Keeps none subject description active t = Keeps-same t.tasks t.tasks refl
create_if-Keeps (some id) none description active t = Keeps-same t.tasks t.tasks refl
create_if-Keeps (some id) (some subject) description active t =
    upsert_created-Keeps id subject description active t.tasks

complete_if-Keeps :
    (id subject : Option String) (t : TaskState) → Keeps t.tasks (complete_if id subject t).tasks
unfolding complete_if
complete_if-Keeps none subject t = Keeps-same t.tasks t.tasks refl
complete_if-Keeps (some id) subject t = mark_completed-Keeps id subject t.tasks

-- What reaches the tracker: events as they happen, or stored ones, and plan deltas.
pub data Call : Type 0 where
  event : StoredEvent → Call
  plan_delta : Option (List PlanStep) → Call

unfoldable pub step : TaskState → Call → TaskState
unfolding restore_event apply_plan_delta
step t (event e) = restore_event t e
step t (plan_delta steps) = (apply_plan_delta steps t).0

apply_tool_pre-Keeps :
    (tool actor : String) (input : ToolInput) (t : TaskState)
    → Keeps t.tasks (apply_tool_pre tool input actor t).tasks
unfolding apply_tool_pre
apply_tool_pre-Keeps tool actor input t =
    elim (Bool-cases ((tool == "TodoWrite") && (actor == "agent:root"))) [
      | inl e ↦ rw e (Keeps-same t.tasks t.tasks refl)
      | inr e ↦ elim (Bool-cases (tool == "TaskUpdate")) [
        | inl u ↦ rw (e, u) (update_if-Keeps _ _ t)
        | inr u ↦ rw (e, u) (Keeps-same t.tasks t.tasks refl)
      ]
    ]

apply_tool_post-Keeps :
    (tool : String) (input : ToolInput) (response : ToolResponse) (t : TaskState)
    → Keeps t.tasks (apply_tool_post tool input response t).tasks
unfolding apply_tool_post
apply_tool_post-Keeps tool input response t = elim (Bool-cases (tool == "TaskCreate")) [
  | inl e ↦ rw e (create_if-Keeps _ _ _ _ t)
  | inr e ↦ elim (Bool-cases (tool == "TaskUpdate")) [
    | inl u ↦ rw (e, u) (update_if-Keeps _ _ t)
    | inr u ↦ rw (e, u) (Keeps-same t.tasks t.tasks refl)
  ]
]

plan_delta-Keeps :
    (steps : Option (List PlanStep)) (t : TaskState)
    → Keeps t.tasks (apply_plan_delta steps t).0.tasks
plan_delta-Keeps steps t = Keeps-same t.tasks _ (ap ids (kept steps))
  where
    kept : (s : Option (List PlanStep)) → (apply_plan_delta s t).0.tasks ≡ t.tasks
    kept none = unfold apply_plan_delta in refl
    kept (some []) = unfold apply_plan_delta in refl
    kept (some (s ∷ ss)) = unfold apply_plan_delta in ground arith

step-Keeps : (t : TaskState) (c : Call) → Keeps t.tasks (step t c).tasks
unfolding step
step-Keeps t (event (tool_pre tool input actor)) = apply_tool_pre-Keeps tool actor input t
step-Keeps t (event (tool_post tool input response)) = apply_tool_post-Keeps tool input response t
step-Keeps t (event (task_created d)) = unfold apply_task_created_event in create_if-Keeps _ _ _ _ t
step-Keeps t (event (task_completed d)) =
    unfold apply_task_completed_event in complete_if-Keeps _ _ t
step-Keeps t (event other_event) = Keeps-same t.tasks t.tasks refl
step-Keeps t (plan_delta steps) = plan_delta-Keeps steps t

steps-Keeps : (cs : List Call) (t : TaskState) → Keeps t.tasks (fold_left step t cs).tasks
steps-Keeps [] t = Keeps-same t.tasks t.tasks refl
steps-Keeps (c ∷ cs) t =
    let ((new, e), d) = step-Keeps t c in
    let ((new', e'), d') = steps-Keeps cs (step t c) in
    (
      (new ++ new', e' ∙ ap (λ is. is ++ new') e ∙ append_assoc (ids t.tasks) new new'),
      λ h. d' (d h),
    )

-- Whatever events of tools and tasks come, live or replayed, and whatever plan deltas: no task id is
-- listed twice, and a listed task keeps its place, new ones coming behind.
pub steps-Ordered :
    (before after : List Call)
    → let t = fold_left step no_tasks before in
      Distinct t.tasks × Grows t.tasks (fold_left step t after).tasks
steps-Ordered before after =
    ((steps-Keeps before no_tasks).1 tt, (steps-Keeps after (fold_left step no_tasks before)).0)
