-- ===== src/Workflow/Tests.antt =====
-- Runs of three turns.
use athena_flow_cli.Common.{◌≤◌, ◌≡◌, ◌≢◌, ◌⊎◌, refl, arith, none, some, [], ◌∷◌, true, false, List}
use athena_flow_cli.Common.Text.{codes}
use athena_flow_cli.Workflow.{LoopConfig}
use athena_flow_cli.Workflow.Runner.{
  Round, running, completed, run, run_start, null_tokens, resolves,
}
use athena_flow_cli.Workflow.Bounds.{run_bounded, run_ends}
use native.Mathlib.Decide.{ℕ_discrete}
use athena_flow_cli.Workflow.Marked.{Somewhere, completed_run-Shows}
use athena_flow_cli.Workflow.Unresolved.{Succeeds, run_unresolved}

abbrev loop : LoopConfig
loop = record {
  enabled = true;
  completion_marker = none;
  max_iterations = 2;
  blocked_marker = none;
  tracker_path = none;
}

abbrev round : Round
round = record {
  result = record {
    exit_code = some 0;
    error = none;
    tokens = null_tokens;
    last_stderr = none;
    transport = some (2, 2);
  };
  cancelled = false;
  tracker = some (codes "working");
  cancelled_after = false;
}

abbrev rounds : List Round
rounds = round ∷ round ∷ round ∷ []

session_resolves : (l : LoopConfig) → resolves (codes "s1") l ≡ true
unfolding resolves
session_resolves l = refl

run_bounded_example :
    ((run (some loop) (run_start (codes "s1") (some loop)) rounds).iterations ≤ 2)
    ⊎ ((run (some loop) (run_start (codes "s1") (some loop)) rounds).iterations ≤ 1)
run_bounded_example = run_bounded (codes "s1") (some loop) rounds (λ l e. session_resolves l)

run_ends_example : (run (some loop) (run_start (codes "s1") (some loop)) rounds).status ≢ running
run_ends_example =
    run_ends (codes "s1") (some loop) rounds (λ l e. session_resolves l) (omega arith) (omega arith)

unresolved : resolves [] loop ≡ false
unfolding resolves ℕ_discrete
unresolved = refl

round-Succeeds : Succeeds round
unfolding ℕ_discrete
round-Succeeds = (refl, refl, refl, refl)

run_unresolved_example :
    ((run (some loop) (run_start [] (some loop)) rounds).status ≡ running)
    × ((run (some loop) (run_start [] (some loop)) rounds).iterations ≡ 3)
run_unresolved_example =
    run_unresolved [] loop rounds refl unresolved
      (round-Succeeds, (round-Succeeds, (round-Succeeds, tt)))

abbrev finished : Round
finished = record round { tracker = some (codes "<!-- WORKFLOW_COMPLETE -->") }

run_completed :
    (run (some loop) (run_start (codes "s1") (some loop)) (finished ∷ [])).status ≡ completed
unfolding run run_start ℕ_discrete
run_completed = refl

completed_run-Shows_example : Somewhere loop (finished ∷ [])
completed_run-Shows_example =
    completed_run-Shows (codes "s1") (some loop) loop (finished ∷ []) refl run_completed
