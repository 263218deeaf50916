-- ===== src/Channels/Bridge/Life.antt =====
-- What holds in every state that the steps of a bridge reach.
use athena_flow_cli.Common.{
  ℕ, Option, some, List, [], ◌∷◌, true, false, nat_eq, option_eq, arith, ◌≡◌, ◌≢◌, ◌⊎◌, refl,
  Option-cases, ◌∙◌, inl, inr, is_some,
}
use athena_flow_cli.Channels.Bridge.{
  Task, no_task, starting, reconnecting, Wait, not_waiting, connecting, registering, sleeping,
  SessionBridge, connected, stopped_state, get_connection_state, new_session_bridge, start,
  client_connected, register_succeeded, connect_failed, register_failed, timer_fired, client_closed,
  begin_stop, end_stop, push_turn, on_turn_dispatch, off_turn_dispatch, Call, call_start, subscribe,
  is_reconnecting, step,
}

-- The client of a pending registration, else any.
abbrev Attempting : Wait → Option ℕ → Option ℕ → Type 0
Attempting (registering c previous) client subscribed = (client ≡ some c) × (subscribed ≡ some c)
Attempting not_waiting client subscribed = Unit
Attempting connecting client subscribed = Unit
Attempting sleeping client subscribed = Unit

-- Whether a task and what it waits for fit.
abbrev Fits : Task → Wait → Type 0
Fits no_task w = w ≡ not_waiting
Fits starting w = (w ≢ not_waiting) × (w ≢ sleeping)
Fits reconnecting w = w ≢ not_waiting

record Inv {P : Type 0} (b : SessionBridge P) : Type 0 where
  fits : Fits b.task b.wait
  attempting : b.stopped ≡ false → Attempting b.wait b.client b.subscribed
  listening :
      b.stopped ≡ false
      → b.started ≡ true
      → is_reconnecting b.task ≡ false
      → (is_some b.client ≡ true) × (b.subscribed ≡ b.client)
  unstarted : b.task ≡ starting → b.started ≡ false
  begun : b.task ≡ reconnecting → b.started ≡ true

-- A start comes only while no other start is under way.
module _ {P : Type 0} where
  abbrev pub Alone : SessionBridge P → Call P → Type 0
  Alone b call_start = b.task ≢ starting
  Alone b _ = Unit

Task-cases : (t : Task) → (t ≡ no_task) ⊎ (t ≡ starting) ⊎ (t ≡ reconnecting)
Task-cases no_task = inl refl
Task-cases starting = inr (inl refl)
Task-cases reconnecting = inr (inr refl)

module _ {P : Type 0} where
  step-Inv : (b : SessionBridge P) (c : Call P) → Alone b c → Inv b → Inv (step b c).0
  unfolding step start client_connected connect_failed register_succeeded register_failed
      timer_fired client_closed begin_stop end_stop push_turn on_turn_dispatch off_turn_dispatch
  step-Inv b call_start a v = elim (Task-cases b.task) [
    | inl e ↦ ground (arith, v, e)
    | inr (inl e) ↦ absurd (a e)
    | inr (inr e) ↦ ground (arith, v, e, v.begun e)
  ]
  step-Inv b (subscribe h) a v = ground (arith, v)
  step-Inv b _ a v = ground (arith, v)

  unfoldable pub run : SessionBridge P → List (Call P) → SessionBridge P
  run b [] = b
  run b (c ∷ cs) = run (step b c).0 cs

  -- No start of the run begins while another is under way.
  abbrev pub Sequential : SessionBridge P → List (Call P) → Type 0
  Sequential b [] = Unit
  Sequential b (c ∷ cs) = Alone b c × Sequential (step b c).0 cs

  run-Inv : (b : SessionBridge P) (cs : List (Call P)) → Sequential b cs → Inv b → Inv (run b cs)
  unfolding run
  run-Inv b [] a v = v
  run-Inv b (c ∷ cs) a v = run-Inv (step b c).0 cs a.1 (step-Inv b c a.0 v)

  new_session_bridge-Inv : Inv (new_session_bridge {P = P})
  new_session_bridge-Inv = record {
    fits = refl;
    attempting = λ h. tt;
    listening = λ h k l. cc;
    unstarted = λ h. cc;
    begun = λ h. cc;
  }

  step-stopped : (b : SessionBridge P) (c : Call P) → b.stopped ≡ true → (step b c).0.stopped ≡ true
  unfolding step start client_connected connect_failed register_succeeded register_failed
      timer_fired client_closed begin_stop end_stop push_turn on_turn_dispatch off_turn_dispatch
  step-stopped b call_start h = ground arith
  step-stopped b _ h = ground arith

  run-stopped :
      (b : SessionBridge P) (cs : List (Call P)) → b.stopped ≡ true → (run b cs).stopped ≡ true
  unfolding run
  run-stopped b [] h = h
  run-stopped b (c ∷ cs) h = run-stopped (step b c).0 cs (step-stopped b c h)

  -- Whatever calls, answers, timers and closed connections come to a new bridge, in any order in which no
  -- `start` begins while another `start` is under way: while it reports `connected`, it has a client and listens on that very client for pushes and for its close;
  -- and once it reports `stopped`, it does so for ever.
  pub run-Listens :
      (before after : List (Call P))
      → Sequential new_session_bridge before
      → let b = run new_session_bridge before in
        (get_connection_state b ≡ connected
          → (c : ℕ) × (b.client ≡ some c) × (b.subscribed ≡ some c))
        × (get_connection_state b ≡ stopped_state
            → get_connection_state (run b after) ≡ stopped_state)
  run-Listens before after alone =
      let b = run new_session_bridge before in
      let v = run-Inv new_session_bridge before alone new_session_bridge-Inv in
      (
        λ h.
            let state : (b.stopped ≡ false)
                × (b.started ≡ true)
                × (is_reconnecting b.task ≡ false) =
              state_connected b h in
            let (there, same) = v.listening state.0 state.1 state.2 in
            elim (Option-cases b.client) [
              | inl p ↦ absurd (ground arith)
              | inr (c, p) ↦ (c, p, same ∙ p)
            ],
        λ h. state_stopped (run b after) (run-stopped b after (stopped_state-stopped b h)),
      )
    where
      state_connected :
          (b : SessionBridge P)
          → get_connection_state b ≡ connected
          → (b.stopped ≡ false) × (b.started ≡ true) × (is_reconnecting b.task ≡ false)
      state_connected b h = unfold get_connection_state in ground arith

      state_stopped :
          (b : SessionBridge P) → b.stopped ≡ true → get_connection_state b ≡ stopped_state
      state_stopped b h = unfold get_connection_state in ground arith

      stopped_state-stopped :
          (b : SessionBridge P) → get_connection_state b ≡ stopped_state → b.stopped ≡ true
      stopped_state-stopped b h = unfold get_connection_state in ground arith
