-- ===== src/Dashboard/AssignmentIntake.antt =====
-- src/app/dashboard/dashboardAssignmentIntake.ts, with `validateDashboardAssignment` of
-- remoteRunExecutor.ts: assignments wait until the daemon's attachments are current, then they are
-- handled on the paired execution. The parser of a run's spec and the resolver of a workspace are
-- parameters. The frames that go to the socket are returned; the project directory goes to the executor.
pub mod Answers
use mathlib.Core.Logic.{◌⊎◌, inl, inr}
use athena_flow_cli.Common.{ℕ, String, Option, none, some, List, [], ◌∷◌, ◌++◌, or_else}
use athena_flow_cli.Dashboard.PairedExecution.{
  PairedExecution, Rejection, malformed_assignment, failure, Admission, accepted,
  admission_rejected, admit_assignment, reject_assignment,
}
use athena_flow_cli.Dashboard.PairedExecution

pub record JobAssignmentFrame (R : Type 0) : Type 0 where
  pub run_id : String
  pub run_spec : R
  pub runner_id : Option String

pub record ValidatedAssignment (R S : Type 0) : Type 0 where
  pub run_id : String
  pub runner_id : String
  pub spec : S
  pub frame : JobAssignmentFrame R

-- What is sent to the dashboard.
pub data Answer : Type 0 where
  assignment_accepted : (run_id : String) → Answer
  assignment_rejected : (run_id : String) (rejection : Rejection) → Answer

pub record Intake (R C : Type 0) : Type 0 where
  pub pending : List (JobAssignmentFrame R)
  pub context : Option C
  pub execution : PairedExecution

unfoldable pub validate_dashboard_assignment :
    {R S : Type 0} → (R → Option S) → JobAssignmentFrame R → ValidatedAssignment R S ⊎ Rejection
validate_dashboard_assignment parse_remote_run_spec frame =
    elim (parse_remote_run_spec frame.run_spec) [
      | none ↦ inr (record {
        reason = malformed_assignment;
        message = failure "remote assignment missing prompt";
      })
      | some spec ↦ inl (record {
        run_id = frame.run_id;
        runner_id = or_else frame.runner_id "legacy";
        spec = spec;
        frame = frame;
      })
    ]

-- A rejection goes to the execution and to the dashboard.
unfoldable pub refuse : String → Rejection → ℕ → PairedExecution → PairedExecution × Answer
refuse run_id rejection now e =
    (reject_assignment run_id rejection now e, assignment_rejected run_id rejection)

abbrev pub answer_of : String → Admission → Answer
answer_of run_id accepted = assignment_accepted run_id
answer_of run_id (admission_rejected rejection) = assignment_rejected run_id rejection

-- `handle` from the resolved workspace on
unfoldable pub admit_resolved :
    {R S : Type 0}
    → JobAssignmentFrame R
    → ValidatedAssignment R S
    → String ⊎ Rejection
    → ℕ
    → PairedExecution
    → PairedExecution × Answer
unfolding refuse
admit_resolved frame assignment (inr rejection) now e = refuse frame.run_id rejection now e
admit_resolved frame assignment (inl project_dir) now e =
    let (e', outcome) = admit_assignment assignment.run_id assignment.runner_id now e in
    (e', answer_of frame.run_id outcome)

pub data Call (R C : Type 0) : Type 0 where
  receives : JobAssignmentFrame R → (now : ℕ) → Call R C
  ready : C → (now : ℕ) → Call R C
  not_ready : Call R C
  executes : PairedExecution.Call → Call R C

module _ {R S C : Type 0} (parse_remote_run_spec : R → Option S)
    (resolve_workspace : ValidatedAssignment R S → C → String ⊎ Rejection) where
  -- `handle` from the validated frame on
  unfoldable pub handle_validated :
      JobAssignmentFrame R
      → ValidatedAssignment R S ⊎ Rejection
      → C
      → ℕ
      → PairedExecution
      → PairedExecution × Answer
  unfolding refuse admit_resolved
  handle_validated frame (inr rejection) context now e = refuse frame.run_id rejection now e
  handle_validated frame (inl assignment) context now e =
      admit_resolved frame assignment (resolve_workspace assignment context) now e

  unfoldable pub handle : JobAssignmentFrame R → C → ℕ → PairedExecution → PairedExecution × Answer
  unfolding validate_dashboard_assignment handle_validated
  handle frame context now e =
      handle_validated frame (validate_dashboard_assignment parse_remote_run_spec frame) context now
        e

  -- The loop of `drain`
  unfoldable pub handle_all :
      List (JobAssignmentFrame R) → C → ℕ → PairedExecution → PairedExecution × List Answer
  unfolding handle
  handle_all [] context now e = (e, [])
  handle_all (frame ∷ frames) context now e =
      let (e', answer) = handle frame context now e in
      let (e'', answers) = handle_all frames context now e' in (e'', answer ∷ answers)

  unfoldable pub receive : JobAssignmentFrame R → ℕ → Intake R C → Intake R C × List Answer
  unfolding handle
  receive frame now i = elim i.context [
    | none ↦ (record i { pending = i.pending ++ frame ∷ [] }, [])
    | some context ↦
        let (e, answer) = handle frame context now i.execution in
        (record i { execution = e }, answer ∷ [])
  ]

  unfoldable pub mark_ready : C → ℕ → Intake R C → Intake R C × List Answer
  unfolding handle_all
  mark_ready context now i =
      let (e, answers) = handle_all i.pending context now i.execution in
      (record { pending = []; context = some context; execution = e }, answers)

  unfoldable pub mark_not_ready : Intake R C → Intake R C
  mark_not_ready i = record i { context = none }

  -- The calls of the intake, and those that come to the execution by other ways.
  unfoldable pub step : Intake R C → Call R C → Intake R C × List Answer
  unfolding receive mark_ready mark_not_ready
  step i (receives frame now) = receive frame now i
  step i (ready context now) = mark_ready context now i
  step i not_ready = (mark_not_ready i, [])
  step i (executes call) = (record i { execution = PairedExecution.step i.execution call }, [])
