-- ===== src/Channels/Tests.antt =====
-- A bridge that buffers a turn, loses its connection and hands the next turn to its handler.
use athena_flow_cli.Common.{ℕ, some, false, List, [], ◌∷◌, ◌++◌, ◌≡◌, refl}
use athena_flow_cli.Channels.Bridge.{
  Call, call_start, connected_to, register_accepted, timer, closed, push, subscribe, call_stop,
  connected, stopped_state, get_connection_state, new_session_bridge, other_failure,
  connecting_failed, connection_closed, answer, request_with_reconnect, replied,
}
use athena_flow_cli.Channels.Bridge.Life.{run, Sequential, run-Listens}
use athena_flow_cli.Channels.Bridge.Dispatches.{all_accepted, all_handed_over, AllHanded, run-Hands}

abbrev calls : List (Call ℕ)
calls =
    call_start
    ∷ connected_to 1
    ∷ register_accepted
    ∷ push 1 10
    ∷ push 1 11
    ∷ closed 1
    ∷ connecting_failed other_failure
    ∷ timer
    ∷ connected_to 2
    ∷ register_accepted
    ∷ subscribe 7
    ∷ push 1 12
    ∷ push 2 13
    ∷ []

calls-Sequential : Sequential (new_session_bridge {P = ℕ}) calls
calls-Sequential =
    (λ e. cc, (tt, (tt, (tt, (tt, (tt, (tt, (tt, (tt, (tt, (tt, (tt, (tt, tt)))))))))))))

run-Hands_example :
    (all_accepted (new_session_bridge {P = ℕ}) calls
      ≡ all_handed_over new_session_bridge calls ++ (run new_session_bridge calls).buffered)
    × AllHanded new_session_bridge calls
run-Hands_example =
    run-Hands calls (tt, (tt, (tt, (tt, (tt, (tt, (tt, (tt, (tt, (tt, (tt, (tt, (tt, tt)))))))))))))
      calls-Sequential

run-Listens_example :
    let b = run (new_session_bridge {P = ℕ}) calls in
    (get_connection_state b ≡ connected → (c : ℕ) × (b.client ≡ some c) × (b.subscribed ≡ some c))
    × (get_connection_state b ≡ stopped_state
        → get_connection_state (run b (call_stop ∷ [])) ≡ stopped_state)
run-Listens_example = run-Listens calls (call_stop ∷ []) calls-Sequential

asked_twice :
    request_with_reconnect {R = ℕ} (some 9) (
      (record { ready_at = 1; reply = connection_closed 2 false })
      ∷ (record { ready_at = 5; reply = answer 3 })
      ∷ [])
    ≡ (replied 3, 2)
unfolding request_with_reconnect
asked_twice = refl
