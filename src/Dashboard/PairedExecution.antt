-- ===== src/Dashboard/PairedExecution.antt =====
-- src/app/dashboard/dashboardPairedExecution.ts: the runs that the dashboard assigns, with a limit for
-- each runner. A record of a run is an object that the active entry and the history share: its number
-- stands for it, and a change reaches both. The executor's promise settles by a step of its own; what
-- goes to the socket, the inbox and the log is left out.
pub mod Buckets
pub mod Kept
pub mod Capacity
use athena_flow_cli.Common.{
  ℕ, suc, Option, none, some, String, List, [], ◌∷◌, ◌++◌, if◌then◌else◌, ◌==◌, string_eq, nat_eq,
  Bool, true, false, not, ◌&&◌, leb, ltb, length, keep, map, any, or_else, is_some,
}
use athena_flow_cli.Common.Dict.{Dict, get, set, delete}

pub data RunStatus : Type 0 where
  running completed failed cancelled rejected : RunStatus

-- The error of a record: the message of an exception or of a caller's rejection, or one of the two
-- messages of `handleAssignment`.
pub data RunError : Type 0 where
  failure : String → RunError
  duplicate_active_assignment : (run_id : String) → RunError
  at_concurrency_cap : (max_concurrent_runs : ℕ) (runner : String) → RunError

pub record RunRecord : Type 0 where
  pub object : ℕ
  pub run_id : String
  pub started_at : ℕ
  pub ended_at : Option ℕ
  pub status : RunStatus
  pub error : Option RunError

pub record ActiveRun : Type 0 where
  pub record_object : ℕ
  pub status : RunStatus
  pub runner_key : String
  pub aborted : Bool

pub data RejectedReason : Type 0 where
  local_capacity duplicate malformed_assignment : RejectedReason
  workspace_unresolved workspace_invalid : RejectedReason

pub record Rejection : Type 0 where
  pub reason : RejectedReason
  pub message : RunError

pub data Admission : Type 0 where
  accepted : Admission
  admission_rejected : Rejection → Admission

pub record PairedExecution : Type 0 where
  pub max_concurrent_runs : ℕ
  pub run_history_limit : ℕ
  pub next_object : ℕ
  pub completed_runs : ℕ
  pub active : Dict String ActiveRun
  pub active_by_runner : Dict String (List String)
  pub run_history : List RunRecord

abbrev pub new_paired_execution : ℕ → ℕ → PairedExecution
new_paired_execution max limit = record {
  max_concurrent_runs = max;
  run_history_limit = limit;
  next_object = 0;
  completed_runs = 0;
  active = [];
  active_by_runner = [];
  run_history = [];
}

-- `while (runHistory.length > runHistoryLimit) shift()`
unfoldable pub shift_over : ℕ → List RunRecord → List RunRecord
shift_over limit [] = []
shift_over limit (r ∷ rs) =
    let rest = shift_over limit rs in if ltb limit (length (r ∷ rs)) then rest else r ∷ rs

unfoldable pub record_run : RunRecord → PairedExecution → PairedExecution
unfolding shift_over
record_run r e = record e {
  run_history = shift_over e.run_history_limit (e.run_history ++ r ∷ []);
  next_object = suc e.next_object;
}

unfoldable pub reject_assignment : String → Rejection → ℕ → PairedExecution → PairedExecution
unfolding record_run
reject_assignment run_id rejection now e =
    record_run
      (record {
        object = e.next_object;
        run_id = run_id;
        started_at = now;
        ended_at = some now;
        status = rejected;
        error = some rejection.message;
      })
      e

-- A change of a record, where the history still has it.
unfoldable pub change_record : ℕ → (RunRecord → RunRecord) → List RunRecord → List RunRecord
change_record object f rs = map (λ (r : RunRecord). if r.object == object then f r else r) rs

unfoldable pub cancel_entry : String → ActiveRun → PairedExecution → PairedExecution
unfolding change_record
cancel_entry run_id a e = record e {
  active = set run_id (record a { status = cancelled; aborted = true }) e.active;
  run_history = change_record a.record_object (λ r. record r { status = cancelled }) e.run_history;
}

unfoldable pub cancel_run : String → PairedExecution → PairedExecution × Bool
unfolding cancel_entry
cancel_run run_id e = elim (get run_id e.active) [
  | none ↦ (e, false)
  | some a ↦ (cancel_entry run_id a e, true)
]

-- `activeByRunner.get(runnerId) ?? new Set()`
unfoldable pub bucket_of : String → PairedExecution → List String
bucket_of runner e = or_else (get runner e.active_by_runner) []

-- `Set.add`
abbrev pub add_run : String → List String → List String
add_run id ids = if any (λ i. i == id) ids then ids else ids ++ id ∷ []

abbrev pub new_run : String → ℕ → PairedExecution → RunRecord
new_run run_id now e = record {
  object = e.next_object;
  run_id = run_id;
  started_at = now;
  ended_at = none;
  status = running;
  error = none;
}

abbrev pub new_active : String → PairedExecution → ActiveRun
new_active runner e = record {
  record_object = e.next_object;
  status = running;
  runner_key = runner;
  aborted = false;
}

-- `handleAssignment` past its two guards
unfoldable pub admit : String → String → ℕ → PairedExecution → PairedExecution
unfolding record_run bucket_of
admit run_id runner now e =
    let e' = record_run (new_run run_id now e) e in
    record e' {
      active_by_runner = set runner (add_run run_id (bucket_of runner e)) e.active_by_runner;
      active = set run_id (new_active runner e) e.active;
    }

abbrev pub duplicate_rejection : String → Rejection
duplicate_rejection run_id = record {
  reason = duplicate;
  message = duplicate_active_assignment run_id;
}

abbrev pub capacity_rejection : String → PairedExecution → Rejection
capacity_rejection runner e = record {
  reason = local_capacity;
  message = at_concurrency_cap e.max_concurrent_runs runner;
}

unfoldable pub admit_assignment :
    String → String → ℕ → PairedExecution → PairedExecution × Admission
unfolding reject_assignment bucket_of admit
admit_assignment run_id runner now e =
    if is_some (get run_id e.active)
    then (
      reject_assignment run_id (duplicate_rejection run_id) now e,
      admission_rejected (duplicate_rejection run_id),
    )
    else if leb e.max_concurrent_runs (length (bucket_of runner e))
    then (
      reject_assignment run_id (capacity_rejection runner e) now e,
      admission_rejected (capacity_rejection runner e),
    )
    else (admit run_id runner now e, accepted)

-- The status and the error of a record when the executor's promise settles, with an error or without.
abbrev pub is_running : RunStatus → Bool
is_running running = true
is_running completed = false
is_running failed = false
is_running cancelled = false
is_running rejected = false

unfoldable pub settled : Option String → ℕ → RunRecord → RunRecord
settled none now r = record r {
  status = if is_running r.status then completed else r.status;
  ended_at = some now;
}
settled (some reason) now r = record r {
  status = if is_running r.status then failed else r.status;
  error = some (failure reason);
  ended_at = some now;
}

-- What `finally` does with the runner's set.
unfoldable pub leave_bucket :
    String → Option (List String) → String → Dict String (List String) → Dict String (List String)
leave_bucket runner none run_id buckets = buckets
leave_bucket runner (some ids) run_id buckets =
    let remaining = keep (λ i. not (i == run_id)) ids in
    if leb (length remaining) 0 then delete runner buckets else set runner remaining buckets

-- The promise of an active run settles: what its callbacks do.
unfoldable pub end_run : String → Option String → ℕ → ActiveRun → PairedExecution → PairedExecution
unfolding change_record settled leave_bucket
end_run run_id reason now a e = record e {
  run_history = change_record a.record_object (settled reason now) e.run_history;
  completed_runs = suc e.completed_runs;
  active = delete run_id e.active;
  active_by_runner =
      leave_bucket a.runner_key (get a.runner_key e.active_by_runner) run_id e.active_by_runner;
}

unfoldable pub run_settles : String → Option String → ℕ → PairedExecution → PairedExecution
unfolding end_run
run_settles run_id reason now e = elim (get run_id e.active) [
  | none ↦ e
  | some a ↦ end_run run_id reason now a e
]

-- The numbers of active and of completed runs
unfoldable pub snapshot : PairedExecution → ℕ × ℕ
snapshot e = (length e.active, e.completed_runs)

-- `slice(-limit)`
unfoldable pub last_records : ℕ → List RunRecord → List RunRecord
last_records limit [] = []
last_records limit (r ∷ rs) =
    let rest = last_records limit rs in if ltb limit (length (r ∷ rs)) then rest else r ∷ rs

unfoldable pub limited : Option ℕ → List RunRecord → List RunRecord
unfolding last_records
limited none rs = rs
limited (some limit) rs = if ltb 0 limit then last_records limit rs else rs

unfoldable pub list_runs : Bool → Option ℕ → PairedExecution → List RunRecord
unfolding limited
list_runs active_only limit e =
    let out = limited limit e.run_history in
    if active_only then keep (λ (r : RunRecord). is_running r.status) out else out

unfoldable pub stop : PairedExecution → PairedExecution
stop e = record e {
  active = map (λ (x : String × ActiveRun). (x.0, record x.1 { aborted = true })) e.active;
}

pub data Call : Type 0 where
  assign : (run_id runner : String) (now : ℕ) → Call
  reject : (run_id : String) (rejection : Rejection) (now : ℕ) → Call
  cancel : (run_id : String) → Call
  settles : (run_id : String) (reason : Option String) (now : ℕ) → Call
  stops : Call

unfoldable pub step : PairedExecution → Call → PairedExecution
step e (assign run_id runner now) = (admit_assignment run_id runner now e).0
step e (reject run_id rejection now) = reject_assignment run_id rejection now e
step e (cancel run_id) = (cancel_run run_id e).0
step e (settles run_id reason now) = run_settles run_id reason now e
step e stops = stop e
