-- ===== src/Workflow/Marked.antt =====
-- The tracker of a looped run that is completed.
use athena_flow_cli.Common.{
  ◌+◌, ◌≡◌, refl, ◌≢◌, ◌⊎◌, inl, inr, Option, none, some, List, [], ◌∷◌, Bool, true, false,
  Bool-cases, leb, or_else,
}
use athena_flow_cli.Common.Text.{Text, includes}
use athena_flow_cli.Workflow.{
  LoopConfig, LoopManager, LoopState, should_continue_workflow_run, stop_at, get_state,
  get_terminal_line, is_completed, default_completion_marker, tracker_skeleton_marker,
}
use athena_flow_cli.Workflow.Runner.{
  merge_tokens, RunState, RunStatus, StopReason, running, completed, blocked, exhausted, cancelled,
  failed, Round, run, run_round, run_start, continue_run, finish, persist, go_on, loop_ends,
  turn_ends, enabled_loop, manager_of, create_workflow_run_state, resolves, turn_fails,
  transport_breaks,
}

-- After the round the tracker's last line is the completion marker, and its skeleton is replaced.
abbrev pub Shows : LoopConfig → Round → Type 0
Shows l r =
    (content : Text) × (r.tracker ≡ some content)
    × (includes content tracker_skeleton_marker ≡ false)
    × (is_completed (or_else l.completion_marker default_completion_marker)
          (get_terminal_line content)
        ≡ true)

-- One of the rounds shows it.
abbrev pub Somewhere : LoopConfig → List Round → Type 0
Somewhere l [] = ⊥
Somewhere l (r ∷ rs) = Shows l r ⊎ Somewhere l rs

-- The manager is the loop's own.
abbrev pub Own : LoopConfig → Option LoopManager → Type 0
Own l none = Unit {0}
Own l (some m) = m.config ≡ l

-- A status that is not `completed`.
abbrev pub Open : RunStatus → Type 0
Open completed = ⊥
Open _ = Unit

record Marks (l : LoopConfig) (r : Round) (st : RunState) : Type 0 where
  own : Own l st.manager
  shown : Open st.status ⊎ Shows l r

finish-Marks :
    (l : LoopConfig) (r : Round) (st : RunState) (s : RunStatus) (why : Option StopReason)
    → Open s ⊎ Shows l r
    → Marks l r (finish st s why)
unfolding finish persist
finish-Marks l r st s why h = record { own = tt; shown = h }

go_on-Marks :
    (l : LoopConfig) (r : Round) (st : RunState) (c : Bool)
    → st.status ≡ running
    → Own l st.manager
    → Marks l r (go_on st c)
unfolding go_on persist
go_on-Marks l r st true h o = finish-Marks l r (persist st) cancelled none (inl tt)
go_on-Marks l r st false h o = record { own = o; shown = inl (rw h tt) }

stop_at-Marks :
    (l : LoopConfig) (r : Round) (st : RunState) (m : LoopManager) (s : LoopState) (c : Bool)
    → st.status ≡ running
    → m.config ≡ l
    → (s.skeleton_not_replaced ≡ false → s.completed ≡ true → Shows l r)
    → Marks l r (loop_ends st c (stop_at m s))
unfolding loop_ends stop_at
stop_at-Marks l r st m s c h o shows = elim (Bool-cases s.skeleton_not_replaced) [
  | inl a ↦ rw a (finish-Marks l r st _ _ (inl tt))
  | inr a ↦ elim (Bool-cases s.completed) [
    | inl b ↦ rw (a, b) (finish-Marks l r st _ _ (inr (shows a b)))
    | inr b ↦ elim (Bool-cases s.blocked) [
      | inl d ↦ rw (a, b, d) (finish-Marks l r st _ _ (inl tt))
      | inr d ↦ elim (Bool-cases (leb m.config.max_iterations (s.iteration + 1))) [
        | inl f ↦ rw (a, b, d, f) (finish-Marks l r st _ _ (inl tt))
        | inr f ↦
            rw (a, b, d, f)
              (go_on-Marks l r
                (record st { manager = some (record m { iteration = m.iteration + 1 }) }) c h o)
      ]
    ]
  ]
]

should_continue-Marks :
    (l : LoopConfig) (r : Round) (st : RunState) (o : Option LoopManager) (file : Option Text)
    → st.status ≡ running
    → Own l o
    → r.tracker ≡ file
    → Marks l r (loop_ends st r.cancelled_after (should_continue_workflow_run o file))
unfolding should_continue_workflow_run get_state loop_ends
should_continue-Marks l r st none file h o t =
    go_on-Marks l r (record st { manager = none }) r.cancelled_after h tt
should_continue-Marks l r st (some m) none h o t = finish-Marks l r st _ _ (inl tt)
should_continue-Marks l r st (some m) (some content) h o t =
    stop_at-Marks l r st m (get_state m content) r.cancelled_after h o
      (λ a b. (content, t, a, rw (← o) b))

run_round-Marks :
    (loop : Option LoopConfig) (l : LoopConfig) (st : RunState) (r : Round)
    → enabled_loop loop ≡ some l
    → st.status ≡ running
    → Own l st.manager
    → Marks l r (run_round loop st r)
unfolding run_round turn_ends
run_round-Marks loop l st r e h o = elim (Bool-cases r.cancelled) [
  | inl a ↦
      simp a
        (finish-Marks l r (record st { iterations = st.iterations + 1 }) cancelled none (inl tt))
  | inr a ↦ elim (Bool-cases (turn_fails r.result)) [
    | inl b ↦
        simp (a, b)
          (finish-Marks l r
            (record st {
              iterations = st.iterations + 1;
              tokens = merge_tokens st.tokens r.result.tokens;
            })
            failed _ (inl tt))
    | inr b ↦ elim (Bool-cases (transport_breaks r.result.transport)) [
      | inl d ↦
          simp (a, b, d)
            (finish-Marks l r
              (record st {
                iterations = st.iterations + 1;
                tokens = merge_tokens st.tokens r.result.tokens;
              })
              failed _ (inl tt))
      | inr d ↦
          simp (a, b, d, e)
            (should_continue-Marks l r
              (record st {
                iterations = st.iterations + 1;
                tokens = merge_tokens st.tokens r.result.tokens;
              })
              st.manager r.tracker h o refl)
    ]
  ]
]

Open-not_completed : (s : RunStatus) → Open s → s ≢ completed
Open-not_completed completed o h = o
Open-not_completed running o h = cc
Open-not_completed blocked o h = cc
Open-not_completed exhausted o h = cc
Open-not_completed failed o h = cc
Open-not_completed cancelled o h = cc

continue_run-Marks :
    (loop : Option LoopConfig) (l : LoopConfig) (st : RunState) (r : Round) (s : RunStatus)
    → enabled_loop loop ≡ some l
    → st.status ≡ s
    → Open s
    → Own l st.manager
    → Marks l r (continue_run loop s st r)
unfolding continue_run
continue_run-Marks loop l st r running e h n o = run_round-Marks loop l st r e h o
continue_run-Marks loop l st r completed e h n o = absurd n
continue_run-Marks loop l st r blocked e h n o = record { own = o; shown = inl (rw h tt) }
continue_run-Marks loop l st r exhausted e h n o = record { own = o; shown = inl (rw h tt) }
continue_run-Marks loop l st r failed e h n o = record { own = o; shown = inl (rw h tt) }
continue_run-Marks loop l st r cancelled e h n o = record { own = o; shown = inl (rw h tt) }

run-Somewhere :
    (loop : Option LoopConfig) (l : LoopConfig) (rs : List Round) (st : RunState)
    → enabled_loop loop ≡ some l
    → Open st.status
    → Own l st.manager
    → (run loop st rs).status ≡ completed
    → Somewhere l rs
unfolding run
run-Somewhere loop l [] st e n o done = Open-not_completed st.status n done
run-Somewhere loop l (r ∷ rs) st e n o done =
    let m = continue_run-Marks loop l st r st.status e refl n o in
    elim m.shown [
      | inr here ↦ inl here
      | inl still ↦
          inr (run-Somewhere loop l rs (continue_run loop st.status st r) e still m.own done)
    ]

manager_of-Own :
    (session : Text) (loop : Option LoopConfig) (l : LoopConfig)
    → loop ≡ some l
    → Own l (manager_of session loop)
unfolding manager_of
manager_of-Own session none l e = tt
manager_of-Own session (some k) l e = elim (Bool-cases (resolves session k)) [
  | inl a ↦ rw a (cc (e))
  | inr a ↦ rw a tt
]

pub completed_run-Shows :
    (session : Text) (loop : Option LoopConfig) (l : LoopConfig) (rs : List Round)
    → enabled_loop loop ≡ some l
    → (run loop (run_start session loop) rs).status ≡ completed
    → Somewhere l rs
unfolding run_start persist create_workflow_run_state
completed_run-Shows session loop l rs e done =
    run-Somewhere loop l rs (run_start session loop) e tt
      (manager_of-Own session (enabled_loop loop) l e) done
