-- ===== src/Feed/RunLifecycle/Resume.antt =====
-- `restoreFrom` of src/core/feed/internals/runLifecycle.ts: the state of a stored session.
use athena_flow_cli.Common.{
  ℕ, String, Option, none, some, List, if◌then◌else◌, ltb, ◌==◌, Bool, string_eq, nat_eq, fold_left,
  ◌&&◌,
}
use athena_flow_cli.Common.Text.{last}
use athena_flow_cli.Feed.RunLifecycle.{
  Session, RunId, Trigger, Counters, Counter, count, Run, tool_pre, tool_failure,
  permission_request, EventKind, run_start, run_end, plain, Event, Lifecycle, Bootstrap, new_run,
  no_counters,
}

-- `if (n > old) old = n`
abbrev pub raise : ℕ → ℕ → ℕ
raise old n = if ltb old n then n else old

abbrev pub note_numbers : ℕ × ℕ → Event → ℕ × ℕ
note_numbers (s, r) e = (raise s e.seq, raise r e.run_id.number)

abbrev pub resumed_session : ℕ → Option String → Option Session → Option Session
resumed_session created_at none old = old
resumed_session created_at (some id) old =
    if id == ""
    then old
    else some (record {
      session_id = id;
      started_at = created_at;
      ended_at = none;
      source = "resume";
      agent_type = none;
    })

-- The last `run.start` with its trigger, and the last `run.end`.
abbrev pub Boundaries : Type 0
Boundaries = Option (Event × Trigger) × Option Event

abbrev pub note_kind : Boundaries → Event → EventKind → Boundaries
note_kind (start, stop) e (run_start t) = (some (e, t), stop)
note_kind (start, stop) e (run_end _ _) = (start, some e)
note_kind (start, stop) e (plain _) = (start, stop)

abbrev pub note_boundary : Boundaries → Event → Boundaries
note_boundary b e = note_kind b e e.kind

abbrev pub same_run : RunId → RunId → Bool
same_run a b = (a.session == b.session) && (a.number == b.number)

abbrev pub count_kind : Counters → EventKind → Counters
count_kind c (plain tool_pre) = count Counter.tool_uses c
count_kind c (plain tool_failure) = count Counter.tool_failures c
count_kind c (plain permission_request) = count Counter.permission_requests c
count_kind c _ = c

abbrev pub count_event : RunId → Counters → Event → Counters
count_event id c e = if same_run e.run_id id then count_kind c e.kind else c

abbrev pub restored_run : List Event → Event → Trigger → Run
restored_run events e t =
    let r = new_run e.run_id e.session_id e.ts t in
    record r { counters = fold_left (count_event e.run_id) no_counters events }

abbrev pub reopen : List Event → Boundaries → Option Run → Option Run
reopen events (none, stop) old = old
reopen events (some (e, t), none) old = some (restored_run events e t)
reopen events (some (e, t), some stop) old =
    if ltb stop.seq e.seq then some (restored_run events e t) else old

unfoldable pub restore_from : Bootstrap → Lifecycle → Lifecycle
restore_from b l =
    let numbers = fold_left note_numbers (l.seq, l.run_seq) b.feed_events in
    record {
      current_session = resumed_session b.created_at (last b.adapter_session_ids) l.current_session;
      current_run =
          reopen b.feed_events (fold_left note_boundary (none, none) b.feed_events) l.current_run;
      seq = numbers.0;
      run_seq = numbers.1;
    }
