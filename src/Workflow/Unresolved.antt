-- ===== src/Workflow/Unresolved.antt =====
-- A loop whose tracker path does not resolve.
use athena_flow_cli.Common.{
  ap, ℕ, ◌+◌, ◌≡◌, refl, arith, none, some, List, [], ◌∷◌, length, true, false, All,
}
use athena_flow_cli.Common.Text.{Text}
use athena_flow_cli.Workflow.{LoopConfig, should_continue_workflow_run}
use athena_flow_cli.Workflow.Runner.{
  RunState, RunStatus, running, Round, run, run_round, run_start, continue_run, persist, go_on,
  loop_ends, turn_ends, manager_of, create_workflow_run_state, resolves, turn_fails,
  transport_breaks,
}

-- A turn that ends well, with no call of `cancel`.
abbrev pub Succeeds : Round → Type 0
Succeeds r =
    (r.cancelled ≡ false)
    × (turn_fails r.result ≡ false)
    × (transport_breaks r.result.transport ≡ false)
    × (r.cancelled_after ≡ false)

-- The run goes on, with no manager, after `k` turns.
abbrev pub Unmanaged : ℕ → RunState → Type 0
Unmanaged k st = (st.status ≡ running) × (st.iterations ≡ k) × (st.manager ≡ none)

run_round-Unmanaged :
    (l : LoopConfig) (k : ℕ) (st : RunState) (r : Round)
    → l.enabled ≡ true
    → Succeeds r
    → Unmanaged k st
    → Unmanaged (k + 1) (run_round (some l) st r)
unfolding run_round turn_ends loop_ends should_continue_workflow_run go_on persist
run_round-Unmanaged l k st r e (a, b, c, d) (s, n, m) =
    simp (a, b, c, d, e, m) (s, ap (λ i. i + 1) n, refl)

continue_run-Unmanaged :
    (l : LoopConfig) (k : ℕ) (st : RunState) (r : Round) (s : RunStatus)
    → s ≡ running
    → l.enabled ≡ true
    → Succeeds r
    → Unmanaged k st
    → Unmanaged (k + 1) (continue_run (some l) s st r)
unfolding continue_run
continue_run-Unmanaged l k st r s h e a u = rw h (run_round-Unmanaged l k st r e a u)

run-Unmanaged :
    (l : LoopConfig) (rs : List Round) (k : ℕ) (st : RunState)
    → l.enabled ≡ true
    → All Succeeds rs
    → Unmanaged k st
    → Unmanaged (k + length rs) (run (some l) st rs)
unfolding run
run-Unmanaged l [] k st e h u = (u.0, omega (arith, u.1), u.2)
run-Unmanaged l (r ∷ rs) k st e h u =
    let (s, n, m) =
      run-Unmanaged l rs (k + 1) (continue_run (some l) st.status st r) e h.1
        (continue_run-Unmanaged l k st r st.status u.0 e h.0 u) in
    (s, omega (arith, n), m)

-- When a loop is enabled, its tracker path does not resolve, and every turn ends well with no call of
-- `cancel`, the run is still running after any number of turns, whatever its `maxIterations` and the
-- tracker file.
pub run_unresolved :
    (session : Text) (l : LoopConfig) (rs : List Round)
    → l.enabled ≡ true
    → resolves session l ≡ false
    → All Succeeds rs
    → ((run (some l) (run_start session (some l)) rs).status ≡ running)
      × ((run (some l) (run_start session (some l)) rs).iterations ≡ length rs)
unfolding run_start persist create_workflow_run_state manager_of
run_unresolved session l rs e u h =
    let (s, n, m) =
      run-Unmanaged l rs 0 (run_start session (some l)) e h (refl, refl, simp (e, u)) in
    (s, omega (arith, n))
