-- ===== src/Workflow/Runner.antt =====
-- src/core/workflows/workflowRunner.ts: `createWorkflowRunner`, `mergeTokens` and `resolveTrackerPath`.
-- What `persistRunState` is given is kept, newest first; whether it throws does not matter there.
use athena_flow_cli.Common.{
  ℕ, ◌+◌, String, Option, none, some, List, [], ◌∷◌, if◌then◌else◌, ◌==◌, nat_eq, Bool, false, ◌&&◌,
  ◌||◌, not, ltb, or_else, is_some,
}
use athena_flow_cli.Common.Text.{Text, codes, includes}
use athena_flow_cli.Workflow.{
  LoopConfig, LoopManager, LoopStop, default_tracker_path, is_empty, should_continue_workflow_run,
}

pub record TokenUsage : Type 0 where
  pub input : Option ℕ
  pub output : Option ℕ
  pub cache_read : Option ℕ
  pub cache_write : Option ℕ
  pub total : Option ℕ
  pub context_size : Option ℕ
  pub context_window_size : Option ℕ

abbrev pub null_tokens : TokenUsage
null_tokens = record {
  input = none;
  output = none;
  cache_read = none;
  cache_write = none;
  total = none;
  context_size = none;
  context_window_size = none;
}

-- `a ?? b`, which may be absent still
abbrev pub or_option : Option ℕ → Option ℕ → Option ℕ
or_option none b = b
or_option (some a) b = some a

abbrev pub counts : TokenUsage → Bool
counts t = is_some t.input || is_some t.output || is_some t.cache_read || is_some t.cache_write

unfoldable pub merge_tokens : TokenUsage → TokenUsage → TokenUsage
merge_tokens base next =
    let input = or_else base.input 0 + or_else next.input 0 in
    let output = or_else base.output 0 + or_else next.output 0 in
    let cache_read = or_else base.cache_read 0 + or_else next.cache_read 0 in
    let cache_write = or_else base.cache_write 0 + or_else next.cache_write 0 in
    if not (counts base || counts next)
    then record null_tokens {
      context_size = next.context_size;
      context_window_size = next.context_window_size;
    }
    else record {
      input = some input;
      output = some output;
      cache_read = some cache_read;
      cache_write = some cache_write;
      total = some (input + output + cache_read + cache_write);
      context_size = or_option next.context_size base.context_size;
      context_window_size = or_option next.context_window_size base.context_window_size;
    }

-- `error` is the message, when there is an error; `transport` the two counters of the diagnostics.
pub record TurnResult : Type 0 where
  pub exit_code : Option ℕ
  pub error : Option String
  pub tokens : TokenUsage
  pub last_stderr : Option String
  pub transport : Option (ℕ × ℕ)

pub data RunStatus : Type 0 where
  running completed blocked exhausted failed cancelled : RunStatus

-- The stop reasons by their cases; `turn_failed` keeps what the message is joined from.
pub data StopReason : Type 0 where
  turn_failed : (error : Option String) (exit_code : Option ℕ) (stderr : Option String) → StopReason
  transport_broken : (tool_uses : ℕ) → StopReason
  blocked_line : Option Text → StopReason
  never_bootstrapped : StopReason
  loop_stopped : LoopStop → StopReason

pub record Snapshot : Type 0 where
  pub iteration : ℕ
  pub status : RunStatus
  pub stop_reason : Option StopReason

pub record RunState : Type 0 where
  pub status : RunStatus
  pub iterations : ℕ
  pub tokens : TokenUsage
  pub stop_reason : Option StopReason
  pub manager : Option LoopManager
  pub persisted : List Snapshot

-- One turn: how it ends, whether `cancel` was called before it did, what the tracker file holds then,
-- and whether `cancel` is called by `onIterationComplete`.
pub record Round : Type 0 where
  pub result : TurnResult
  pub cancelled : Bool
  pub tracker : Option Text
  pub cancelled_after : Bool

-- The loop of a workflow, if it is enabled.
abbrev pub enabled_loop : Option LoopConfig → Option LoopConfig
enabled_loop none = none
enabled_loop (some l) = if l.enabled then some l else none

-- Whether `resolveTrackerPath` gives a path.
unfoldable pub resolves : Text → LoopConfig → Bool
resolves session l = not (
    is_empty session
    && includes (or_else l.tracker_path default_tracker_path) (codes "{sessionId}"))

unfoldable pub manager_of : Text → Option LoopConfig → Option LoopManager
unfolding resolves
manager_of session none = none
manager_of session (some l) =
    if resolves session l then some (record { config = l; iteration = 0 }) else none

unfoldable pub create_workflow_run_state : Text → Option LoopConfig → Option LoopManager
unfolding manager_of
create_workflow_run_state session loop = manager_of session (enabled_loop loop)

unfoldable pub persist : RunState → RunState
persist st = record st {
  persisted =
      record { iteration = st.iterations; status = st.status; stop_reason = st.stop_reason }
      ∷ st.persisted;
}

-- The state in which the first turn starts.
unfoldable pub run_start : Text → Option LoopConfig → RunState
unfolding create_workflow_run_state persist
run_start session loop = persist (record {
  status = running;
  iterations = 0;
  tokens = null_tokens;
  stop_reason = none;
  manager = create_workflow_run_state session loop;
  persisted = [];
})

-- The end of a run: the status, its reason, and the clean-up.
unfoldable pub finish : RunState → RunStatus → Option StopReason → RunState
unfolding persist
finish st status reason = record (persist (record st { status = status; stop_reason = reason })) {
  manager = none;
}

abbrev pub turn_fails : TurnResult → Bool
turn_fails r = is_some r.error || (elim r.exit_code [ none ↦ false | some c ↦ not (c == 0) ])

-- Tools were used in the stream, and no hook event came.
abbrev pub transport_breaks : Option (ℕ × ℕ) → Bool
transport_breaks none = false
transport_breaks (some (uses, events)) = ltb 0 uses && (events == 0)

abbrev pub status_of : LoopStop → RunStatus × Option StopReason
status_of LoopStop.completed = (completed, none)
status_of (LoopStop.blocked line) = (blocked, some (blocked_line line))
status_of LoopStop.max_iterations = (exhausted, none)
status_of LoopStop.skeleton_not_replaced = (failed, some never_bootstrapped)
status_of LoopStop.missing_tracker = (failed, some (loop_stopped LoopStop.missing_tracker))

-- The loop goes on, unless it is cancelled in `onIterationComplete`.
unfoldable pub go_on : RunState → Bool → RunState
unfolding persist finish
go_on st cancelled_after =
    let st' = persist st in if cancelled_after then finish st' cancelled none else st'

unfoldable pub loop_ends : RunState → Bool → Option LoopStop × Option LoopManager → RunState
unfolding finish go_on
loop_ends st c (some stop, m) = finish st (status_of stop).0 (status_of stop).1
loop_ends st c (none, m) = go_on (record st { manager = m }) c

unfoldable pub turn_ends : Option LoopConfig → RunState → Round → RunState
unfolding finish loop_ends should_continue_workflow_run
turn_ends none st r = finish st completed none
turn_ends (some l) st r =
    loop_ends st r.cancelled_after (should_continue_workflow_run st.manager r.tracker)

-- One passage of the `while` loop.
unfoldable pub run_round : Option LoopConfig → RunState → Round → RunState
unfolding finish turn_ends merge_tokens
run_round loop st r =
    let turn = record st { iterations = st.iterations + 1 } in
    if r.cancelled
    then finish turn cancelled none
    else let st' = record turn { tokens = merge_tokens st.tokens r.result.tokens } in
      if turn_fails r.result
      then finish st' failed
          (some (turn_failed r.result.error r.result.exit_code r.result.last_stderr))
      else if transport_breaks r.result.transport
      then finish st' failed
          (some (transport_broken (elim r.result.transport [ none ↦ 0 | some t ↦ t.0 ])))
      else turn_ends (enabled_loop loop) st' r

unfoldable pub continue_run : Option LoopConfig → RunStatus → RunState → Round → RunState
unfolding run_round
continue_run loop running st r = run_round loop st r
continue_run loop _ st r = st

-- The turns of a run, while it is running.
unfoldable pub run : Option LoopConfig → RunState → List Round → RunState
unfolding continue_run
run loop st [] = st
run loop st (r ∷ rs) = run loop (continue_run loop st.status st r) rs
