-- ===== src/Workflow/Bounds.antt =====
-- How long a run of turns goes on.
use athena_flow_cli.Common.{
  ◌≢◌, ℕ, suc, ◌+◌, ◌≤◌, ◌<◌, ◌≡◌, refl, arith, Option, none, some, List, [], ◌∷◌, length, Bool,
  true, false, Bool-cases, inl, inr, ◌⊎◌, leb,
}
use athena_flow_cli.Common.Text.{Text}
use athena_flow_cli.Workflow.{
  LoopConfig, LoopManager, LoopState, LoopStop, should_continue_workflow_run, stop_at, get_state,
}
use athena_flow_cli.Workflow.Runner.{
  merge_tokens, TokenUsage, RunState, RunStatus, blocked, exhausted, StopReason, running, completed,
  cancelled, failed, Round, run, run_round, run_start, continue_run, finish, persist, go_on,
  loop_ends, turn_ends, enabled_loop, manager_of, create_workflow_run_state, resolves, turn_fails,
  transport_breaks, status_of,
}

-- A status at which the `while` loop has ended.
abbrev pub Ended : RunStatus → Type 0
Ended running = ⊥
Ended _ = Unit

-- The limit that a loop sets on its turns.
abbrev pub limit_of : Option LoopConfig → ℕ
limit_of none = 0
limit_of (some l) = l.max_iterations

-- The manager of a looped run has counted its turns.
abbrev pub Tracks : Option LoopConfig → Option LoopManager → ℕ → Type 0
Tracks none o n = Unit {0}
Tracks (some l) o n =
    (m : LoopManager) × (o ≡ some m)
    × (m.iteration ≡ n)
    × (m.config.max_iterations ≡ l.max_iterations)

-- After `k` rounds: the turns are at most the limit, or one; while the run goes on there was one in
-- each round, and they are below the limit.
pub record Progress (loop : Option LoopConfig) (k : ℕ) (st : RunState) : Type 0 where
  pub limit : (st.iterations ≤ limit_of loop) ⊎ (st.iterations ≤ 1)
  pub below : st.status ≡ running → (st.iterations < limit_of loop) ⊎ (st.iterations ≡ 0)
  pub taken : st.status ≡ running → st.iterations ≡ k
  pub tracks : st.status ≡ running → Tracks loop st.manager st.iterations

not_running : (s : RunStatus) → Ended s → s ≡ running → ⊥
not_running running e h = e
not_running completed e h = cc
not_running blocked e h = cc
not_running exhausted e h = cc
not_running failed e h = cc
not_running cancelled e h = cc

module _ (loop : Option LoopConfig) (k : ℕ) where
  finish-Progress :
      (st : RunState) (s : RunStatus) (r : Option StopReason)
      → Ended s
      → (st.iterations ≤ limit_of loop) ⊎ (st.iterations ≤ 1)
      → Progress loop k (finish st s r)
  unfolding finish persist
  finish-Progress st s r e l = record {
    limit = l;
    below = λ h. absurd (not_running s e h);
    taken = λ h. absurd (not_running s e h);
    tracks = λ h. absurd (not_running s e h);
  }

-- One more turn is within the limit.
next_limit : (n k : ℕ) → (k < n) ⊎ (k ≡ 0) → (k + 1 ≤ n) ⊎ (k + 1 ≤ 1)
next_limit n k (inl h) = inl (omega arith)
next_limit n k (inr h) = inr (omega arith)

status_of-Ended : (s : LoopStop) → Ended (status_of s).0
status_of-Ended LoopStop.completed = tt
status_of-Ended (LoopStop.blocked l) = tt
status_of-Ended LoopStop.max_iterations = tt
status_of-Ended LoopStop.skeleton_not_replaced = tt
status_of-Ended LoopStop.missing_tracker = tt

go_on-Progress :
    (loop : Option LoopConfig) (k : ℕ) (st : RunState) (c : Bool)
    → Progress loop k st
    → Progress loop k (go_on st c)
unfolding go_on persist
go_on-Progress loop k st true p = finish-Progress loop k (persist st) cancelled none tt p.limit
go_on-Progress loop k st false p = record {
  limit = p.limit;
  below = p.below;
  taken = p.taken;
  tracks = p.tracks;
}

-- A turn has been counted, but not by the manager yet.
module _ (l : LoopConfig) (k : ℕ) (st : RunState) (m : LoopManager)
    (within : (st.iterations ≤ l.max_iterations) ⊎ (st.iterations ≤ 1))
    (counted : m.iteration + 1 ≡ st.iterations) (same : m.config.max_iterations ≡ l.max_iterations)
    (round : st.iterations ≡ k) where
  stop_at-Progress :
      (s : LoopState) (c : Bool)
      → s.iteration ≡ m.iteration
      → Progress (some l) k (loop_ends st c (stop_at m s))
  unfolding loop_ends stop_at
  stop_at-Progress s c i = elim (Bool-cases s.skeleton_not_replaced) [
    | inl a ↦ rw a (finish-Progress (some l) k st _ _ tt within)
    | inr a ↦ elim (Bool-cases s.completed) [
      | inl b ↦ rw (a, b) (finish-Progress (some l) k st _ _ tt within)
      | inr b ↦ elim (Bool-cases s.blocked) [
        | inl d ↦ rw (a, b, d) (finish-Progress (some l) k st _ _ tt within)
        | inr d ↦ elim (Bool-cases (leb m.config.max_iterations (s.iteration + 1))) [
          | inl f ↦ rw (a, b, d, f) (finish-Progress (some l) k st _ _ tt within)
          | inr f ↦
              rw (a, b, d, f)
                (go_on-Progress (some l) k _ c (record {
                  limit = within;
                  below = λ h. inl (ground arith);
                  taken = λ h. round;
                  tracks = λ h. (record m { iteration = m.iteration + 1 }, refl, counted, same);
                }))
        ]
      ]
    ]
  ]

  loop_ends-Progress :
      (c : Bool) (file : Option Text)
      → Progress (some l) k (loop_ends st c (should_continue_workflow_run (some m) file))
  unfolding should_continue_workflow_run get_state loop_ends
  loop_ends-Progress c none = finish-Progress (some l) k st _ _ tt within
  loop_ends-Progress c (some content) = stop_at-Progress (get_state m content) c refl

turn_ends-Progress :
    (loop : Option LoopConfig) (k : ℕ) (st : RunState) (r : Round)
    → st.status ≡ running
    → Progress loop k st
    → (tokens : TokenUsage)
    → Progress loop
        (k + 1)
        (turn_ends loop (record st { iterations = st.iterations + 1; tokens = tokens }) r)
unfolding turn_ends
turn_ends-Progress none k st r h p tokens =
    finish-Progress none (k + 1) (record st { iterations = st.iterations + 1; tokens = tokens })
      completed none tt (next_limit 0 st.iterations (p.below h))
turn_ends-Progress (some l) k st r h p tokens =
    let (m, here, counted, same) = p.tracks h in
    rw here (
      loop_ends-Progress l (k + 1) (record st { iterations = st.iterations + 1; tokens = tokens }) m
        (next_limit l.max_iterations st.iterations (p.below h)) (omega arith) same
        (omega (arith, p.taken h)) r.cancelled_after r.tracker)

run_round-Progress :
    (loop : Option LoopConfig) (k : ℕ) (st : RunState) (r : Round)
    → st.status ≡ running
    → Progress (enabled_loop loop) k st
    → Progress (enabled_loop loop) (k + 1) (run_round loop st r)
unfolding run_round
run_round-Progress loop k st r h p =
    let within = next_limit (limit_of (enabled_loop loop)) st.iterations (p.below h) in
    elim (Bool-cases r.cancelled) [
      | inl a ↦ rw a (
          finish-Progress (enabled_loop loop) (k + 1) (record st { iterations = st.iterations + 1 })
            _ _ tt within)
      | inr a ↦ elim (Bool-cases (turn_fails r.result)) [
        | inl b ↦
            rw (a, b)
              (finish-Progress (enabled_loop loop) (k + 1)
                (record st {
                  iterations = st.iterations + 1;
                  tokens = merge_tokens st.tokens r.result.tokens;
                })
                _ _ tt within)
        | inr b ↦ elim (Bool-cases (transport_breaks r.result.transport)) [
          | inl d ↦
              rw (a, b, d)
                (finish-Progress (enabled_loop loop) (k + 1)
                  (record st {
                    iterations = st.iterations + 1;
                    tokens = merge_tokens st.tokens r.result.tokens;
                  })
                  _ _ tt within)
          | inr d ↦ rw (a, b, d) (turn_ends-Progress (enabled_loop loop) k st _ h p _)
        ]
      ]
    ]

plus_zero : (k : ℕ) → k + 0 ≡ k
plus_zero k = omega arith

plus_suc : (k n : ℕ) → k + 1 + n ≡ k + suc n
plus_suc k n = omega arith

-- A run that has ended is in no need of the next round.
at_rest :
    (loop : Option LoopConfig) (k : ℕ) (st : RunState) (s : RunStatus)
    → Ended s
    → st.status ≡ s
    → Progress (enabled_loop loop) k st
    → Progress (enabled_loop loop) (k + 1) st
at_rest loop k st s e h p = record {
  limit = p.limit;
  below = p.below;
  taken = λ r. absurd (not_running s e (cc (h, r)));
  tracks = p.tracks;
}

continue_run-Progress :
    (loop : Option LoopConfig) (k : ℕ) (st : RunState) (r : Round) (s : RunStatus)
    → st.status ≡ s
    → Progress (enabled_loop loop) k st
    → Progress (enabled_loop loop) (k + 1) (continue_run loop s st r)
unfolding continue_run
continue_run-Progress loop k st r running h p = run_round-Progress loop k st r h p
continue_run-Progress loop k st r completed h p = at_rest loop k st completed tt h p
continue_run-Progress loop k st r blocked h p = at_rest loop k st blocked tt h p
continue_run-Progress loop k st r exhausted h p = at_rest loop k st exhausted tt h p
continue_run-Progress loop k st r failed h p = at_rest loop k st failed tt h p
continue_run-Progress loop k st r cancelled h p = at_rest loop k st cancelled tt h p

run-Progress :
    (loop : Option LoopConfig) (rs : List Round) (k : ℕ) (st : RunState)
    → Progress (enabled_loop loop) k st
    → Progress (enabled_loop loop) (k + length rs) (run loop st rs)
unfolding run
run-Progress loop [] k st p = rw (plus_zero k) p
run-Progress loop (r ∷ rs) k st p = rw (← plus_suc k (length rs)) (
    run-Progress loop rs (k + 1) (continue_run loop st.status st r)
      (continue_run-Progress loop k st r st.status refl p))

manager_of-Tracks :
    (session : Text) (loop : Option LoopConfig)
    → ((l : LoopConfig) → loop ≡ some l → resolves session l ≡ true)
    → Tracks loop (manager_of session loop) 0
unfolding manager_of
manager_of-Tracks session none h = tt
manager_of-Tracks session (some l) h =
    rw (h l refl) (record { config = l; iteration = 0 }, refl, refl, refl)

start-Progress :
    (session : Text) (loop : Option LoopConfig)
    → ((l : LoopConfig) → enabled_loop loop ≡ some l → resolves session l ≡ true)
    → Progress (enabled_loop loop) 0 (run_start session loop)
unfolding run_start persist create_workflow_run_state
start-Progress session loop h = record {
  limit = inr (omega arith);
  below = λ _. inr refl;
  taken = λ _. refl;
  tracks = λ _. manager_of-Tracks session (enabled_loop loop) h;
}

-- Whatever the turns do, the tracker holds and `cancel` interrupts: a run has at most as many turns
-- as the loop's `maxIterations`, or one turn, when the tracker path of the loop resolves (if a loop
-- is enabled).
pub run_bounded :
    (session : Text) (loop : Option LoopConfig) (rs : List Round)
    → ((l : LoopConfig) → enabled_loop loop ≡ some l → resolves session l ≡ true)
    → ((run loop (run_start session loop) rs).iterations ≤ limit_of (enabled_loop loop))
      ⊎ ((run loop (run_start session loop) rs).iterations ≤ 1)
run_bounded session loop rs h =
    (run-Progress loop rs 0 (run_start session loop) (start-Progress session loop h)).limit

-- Under the same condition a run ends: once it has had as many turns as the loop's `maxIterations`,
-- and one at least, its status is one of the final ones.
pub run_ends :
    (session : Text) (loop : Option LoopConfig) (rs : List Round)
    → ((l : LoopConfig) → enabled_loop loop ≡ some l → resolves session l ≡ true)
    → limit_of (enabled_loop loop) ≤ length rs
    → 1 ≤ length rs
    → (run loop (run_start session loop) rs).status ≢ running
run_ends session loop rs h enough one still =
    let p = run-Progress loop rs 0 (run_start session loop) (start-Progress session loop h) in
    elim (p.below still) [
      | inl b ↦ omega (arith, p.taken still)
      | inr b ↦ omega (arith, p.taken still)
    ]
