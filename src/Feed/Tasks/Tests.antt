-- ===== src/Feed/Tasks/Tests.antt =====
-- A task that is created, renamed and completed.
use athena_flow_cli.Common.{
  string_discrete, option_discrete, ◌≡◌, refl, none, some, List, [], ◌∷◌, ◌++◌, fold_left,
  string_eq, option_eq,
}
use athena_flow_cli.Feed.Tasks.{
  TodoItem, text, absent, task_created, task_completed, no_tasks, pending, completed,
}
use athena_flow_cli.Feed.Tasks.Ordered.{Call, event, step, Distinct, Grows, steps-Ordered}

abbrev created : List Call
created =
    event (
      task_created (record {
        task_id = text "t1";
        task_subject = text "Read the code";
        task_description = absent;
      }))
    ∷ event (
        task_created (record {
          task_id = text "t2";
          task_subject = text "Write the test";
          task_description = absent;
        }))
    ∷ []

abbrev finished : List Call
finished =
    event (
      task_completed
        (record { task_id = text "t1"; task_subject = absent; task_description = absent }))
    ∷ event (
        task_created (record {
          task_id = text "t1";
          task_subject = text "Read it again";
          task_description = absent;
        }))
    ∷ []

abbrev item : TodoItem
item = record {
  content = "Read it again";
  status = completed;
  active_form = none;
  task_id = some "t1";
}

abbrev other : TodoItem
other = record {
  content = "Write the test";
  status = pending;
  active_form = none;
  task_id = some "t2";
}

renamed : (fold_left step no_tasks (created ++ finished)).tasks ≡ item ∷ other ∷ []
unfolding step string_discrete option_discrete
renamed = refl

steps-Ordered_example :
    Distinct (fold_left step no_tasks created).tasks
    × Grows
        (fold_left step no_tasks created).tasks
        (fold_left step (fold_left step no_tasks created) finished).tasks
steps-Ordered_example = steps-Ordered created finished
