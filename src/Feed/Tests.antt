-- ===== src/Feed/Tests.antt =====
-- One run of two tools in a session, and what it streams.
use athena_flow_cli.Common.{
  fold_left, ℕ, String, none, some, List, [], ◌∷◌, ◌++◌, ◌≡◌, ◌≢◌, ◌≤◌, true, arith, length,
  ==-false_of_ne, string_eq,
}
use text.Mathlib.TextEquality.{eq_iff}
use athena_flow_cli.Common.Text.{codes}
use athena_flow_cli.Feed.RunLifecycle.{
  RunId, EventKind, RuntimeEvent, user_prompt_submit, other, Counter, tool_pre, completed, initial,
}
use athena_flow_cli.Feed.RunLifecycle.Boundary.{
  Call, start_session, begin, close, tally, emit, allocate, run_calls,
}
use athena_flow_cli.Feed.RunLifecycle.Resume.{restore_from}
use athena_flow_cli.Feed.RunLifecycle.Order.{Story, place_of, run_calls-Story}
use athena_flow_cli.Feed.RunLifecycle.Restore.{stored, fresh, last_seq, restore_from-run_calls}
use athena_flow_cli.Feed.ToolCorrelation.{
  no_tools, append_delta, tool_step, tail, ToolCall, pre, delta,
}
use athena_flow_cli.Feed.ToolCorrelation.Stream.{shown, written, append_delta-written}

abbrev hook : RuntimeEvent
hook = record { id = "h1"; timestamp = 7; session_id = "s1"; expects_decision = true }

-- The requests of the current run.
abbrev noted : String → RunId × ℕ → EventKind → List String → List String
noted id event kind seen = id ∷ seen

abbrev cleared : List String → List String
cleared seen = []

abbrev calls : List Call
calls =
    start_session (record {
      session_id = "s1";
      started_at = 5;
      ended_at = none;
      source = "startup";
      agent_type = none;
    })
    ∷ begin hook (record { type = user_prompt_submit; prompt_preview = some "fix" })
    ∷ tally Counter.tool_uses
    ∷ emit tool_pre hook
    ∷ allocate
    ∷ close hook completed
    ∷ begin hook (record { type = other; prompt_preview = none })
    ∷ emit tool_pre hook
    ∷ []

run_calls-Story_example :
    Story
      (place_of initial)
      (run_calls noted cleared (fresh []) calls).1
      (place_of (run_calls noted cleared (fresh []) calls).0.lifecycle)
run_calls-Story_example = run_calls-Story noted cleared calls (fresh [])

restore_from-run_calls_example :
    let ran = run_calls noted cleared (fresh []) calls in
    let back = restore_from (stored ran.1 ("s1" ∷ []) 3) initial in
    ((place_of back).open_run ≡ (place_of ran.0.lifecycle).open_run)
    × (back.run_seq ≡ ran.0.lifecycle.run_seq)
    × (back.seq ≡ last_seq 0 ran.1)
    × (back.seq ≤ ran.0.lifecycle.seq)
restore_from-run_calls_example = restore_from-run_calls noted cleared calls [] ("s1" ∷ []) 3

named : ◌≢◌ {A = String} "t1" ""
named = ground (arith, eq_iff "t1" "")

abbrev tool_calls : List ToolCall
tool_calls =
    pre "t1" "e1"
    ∷ delta (some "t1") (codes "abc")
    ∷ delta (some "t2") (codes "xyz")
    ∷ delta (some "t1") (codes "defgh")
    ∷ []

append_delta-written_example :
    ((append_delta 5 (some "t1") (codes "i") (fold_left (tool_step 5) no_tools tool_calls)).1
      ≡ shown 5 (written "t1" tool_calls ++ codes "i"))
    × (length (tail 5 (written "t1" tool_calls ++ codes "i")) ≤ 5)
append_delta-written_example =
    append_delta-written 5 tool_calls "t1" (codes "i") (==-false_of_ne "t1" "" named)
