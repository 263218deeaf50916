-- ===== src/Dashboard/Tests.antt =====
-- A decision that is sent twice, and one that comes after it was consumed; and runs of one runner.
use native.Mathlib.Decide.{ℕ_discrete}
use athena_flow_cli.Common.{
  some, ◌++◌, map, is_some, true, inl, ◌⊎◌, ◌≤◌, none, length, string_discrete, ℕ, ◌≡◌, refl,
  String, string_eq, List, [], ◌∷◌, fold_left,
}
use athena_flow_cli.Common.Dict.{get, set, delete}
use athena_flow_cli.Dashboard.AssignmentIntake
use athena_flow_cli.Dashboard.AssignmentIntake.{
  JobAssignmentFrame, ValidatedAssignment, answer_of, receives, ready, executes,
  assignment_accepted, assignment_rejected,
}
use athena_flow_cli.Dashboard.AssignmentIntake.Answers.{
  run, new_intake, answered, assigned_ids, received, run-Answers,
}
use athena_flow_cli.Dashboard.PairedExecution
use athena_flow_cli.Dashboard.PairedExecution.{
  Rejection, new_paired_execution, admit_assignment, accepted, admission_rejected, local_capacity,
  at_concurrency_cap, duplicate, assign, cancel, settles,
}
use athena_flow_cli.Dashboard.PairedExecution.Buckets.{runs_of}
use athena_flow_cli.Dashboard.PairedExecution.Capacity.{Admits, admit_assignment-Capped}
use athena_flow_cli.Dashboard.DecisionInbox.{
  Decision, Call, put, mark, step, new_inbox, pending_for_session, new_row,
}
use athena_flow_cli.Dashboard.DecisionInbox.Waiting.{Inv, Waits, step-reachable}

abbrev sent : String → String → ℕ → Decision String
sent request decision at = record {
  athena_session_id = "s1";
  request_id = request;
  decision = decision;
  received_at = at;
}

abbrev calls : List (Call String)
calls =
    put (sent "q1" "allow" 1) ∷ put (sent "q1" "deny" 2) ∷ mark 3 1 ∷ put (sent "q1" "allow" 4) ∷ []

asked_again :
    pending_for_session "s1" 10 (fold_left step new_inbox calls)
    ≡ new_row 3 (sent "q1" "allow" 4) ∷ []
unfolding step pending_for_session string_discrete native.Mathlib.Decide.ℕ_discrete
asked_again = refl

step-reachable_example :
    let inbox = fold_left step new_inbox calls in
    Inv inbox × Waits (sent "q1" "deny" 5) (step inbox (put (sent "q1" "deny" 5))).rows
step-reachable_example = step-reachable calls (sent "q1" "deny" 5)

abbrev assigned : List PairedExecution.Call
assigned = assign "a" "r1" 1 ∷ assign "b" "r2" 2 ∷ cancel "a" ∷ []

at_cap :
    (admit_assignment "c" "r1" 3
      (fold_left PairedExecution.step (new_paired_execution 1 100) assigned)).1
    ≡ admission_rejected (record { reason = local_capacity; message = at_concurrency_cap 1 "r1" })
unfolding PairedExecution.step admit_assignment string_discrete ℕ_discrete get
    PairedExecution.cancel_run set PairedExecution.run_settles delete
at_cap = refl

freed :
    (admit_assignment "c" "r1" 5 (
      PairedExecution.step
        (fold_left PairedExecution.step (new_paired_execution 1 100) assigned)
        (settles "a" none 4))).1
    ≡ accepted
unfolding PairedExecution.step admit_assignment string_discrete ℕ_discrete get
    PairedExecution.cancel_run set PairedExecution.run_settles delete
freed = refl

admit_assignment-Capped_example :
    let e = fold_left PairedExecution.step (new_paired_execution 1 100) assigned in
    ((r : String) → length (runs_of r e.active) ≤ 1)
    × Admits e "c" "r1" (admit_assignment "c" "r1" 3 e).0 (admit_assignment "c" "r1" 3 e).1
admit_assignment-Capped_example = admit_assignment-Capped 1 100 assigned "c" "r1" 3

abbrev frame : String → JobAssignmentFrame String
frame id = record { run_id = id; run_spec = "spec"; runner_id = some "r1" }

abbrev resolve : ValidatedAssignment String String → ℕ → String ⊎ Rejection
resolve a context = inl "/tmp"

abbrev arrivals : List (AssignmentIntake.Call String ℕ)
arrivals =
    receives (frame "a") 1
    ∷ receives (frame "b") 2
    ∷ ready 0 3
    ∷ executes (settles "a" none 4)
    ∷ receives (frame "c") 5
    ∷ []

answered_late :
    (run some resolve (new_intake (new_paired_execution 1 100)) arrivals).1
    ≡ answer_of "a" accepted
      ∷ assignment_rejected "b"
          (PairedExecution.capacity_rejection "r1" (new_paired_execution 1 100))
      ∷ answer_of "c" accepted
      ∷ []
unfolding run AssignmentIntake.step admit_assignment get set PairedExecution.step string_discrete
    PairedExecution.run_settles delete
answered_late = refl

run-Answers_example :
    let (i, answers) = run some resolve (new_intake (new_paired_execution 1 100)) arrivals in
    (map answered answers ++ assigned_ids i.pending ≡ received arrivals)
    × (is_some i.context ≡ true → i.pending ≡ [])
run-Answers_example = run-Answers some resolve arrivals (new_paired_execution 1 100)
