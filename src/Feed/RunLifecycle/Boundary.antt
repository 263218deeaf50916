-- ===== src/Feed/RunLifecycle/Boundary.antt =====
-- The boundary of a run in src/core/feed/internals/runLifecycle.ts (`closeRunIntoEvent`, `beginRun`), and
-- `makeEvent` of src/core/feed/mapper.ts, which gives every event its number and its run.
use athena_flow_cli.Common.{
  ℕ, String, Option, none, some, List, [], ◌∷◌, ◌++◌, if◌then◌else◌, Bool, true, false, ◌||◌,
  string_eq, nat_eq, ◌&&◌,
}
use athena_flow_cli.Feed.RunLifecycle.{
  Session, RunId, TriggerType, other, Trigger, RunStatus, completed, Counter, Run, PlainKind,
  permission_request, stop_request, EventKind, run_start, run_end, plain, Event, RuntimeEvent,
  Lifecycle, get_run_id, allocate_seq, close_run, open_new_run, set_session, end_session,
  clear_session, increment_counter,
}

-- The mapper: the lifecycle, and what the collaborators keep for the current run.
pub record Mapper (P : Type 0) : Type 0 where
  pub lifecycle : Lifecycle
  pub per_run : P

abbrev pub is_request : EventKind → Bool
is_request (plain permission_request) = true
is_request (plain stop_request) = true
is_request _ = false

abbrev pub is_other : TriggerType → Bool
is_other other = true
is_other _ = false

abbrev pub is_open : Option Run → Bool
is_open none = false
is_open (some r) = true

-- What the mapper asks of the lifecycle while it maps an event, and `allocateSeq`, by which the shell
-- draws a number for a message of its own.
pub data Call : Type 0 where
  start_session : Session → Call
  stop_session : ℕ → Call
  forget_session : Call
  begin : RuntimeEvent → Trigger → Call
  close : RuntimeEvent → RunStatus → Call
  tally : Counter → Call
  emit : PlainKind → RuntimeEvent → Call
  allocate : Call

-- `decisionCorrelation.recordRequest`, and the collaborators' `resetForNewRun`.
module _ {P : Type 0} (record_request : String → RunId × ℕ → EventKind → P → P)
    (reset_per_run_state : P → P) where
  abbrev pub note_request : EventKind → RuntimeEvent → RunId × ℕ → P → P
  note_request kind rt id p =
      if rt.expects_decision || is_request kind then record_request rt.id id kind p else p

  unfoldable pub make_event : EventKind → RuntimeEvent → Mapper P → Mapper P × Event
  make_event kind rt m =
      let (l, s) = allocate_seq m.lifecycle in
      let id = get_run_id l in
      (
        record { lifecycle = l; per_run = note_request kind rt (id, s) m.per_run },
        record { seq = s; ts = rt.timestamp; session_id = rt.session_id; run_id = id; kind = kind },
      )

  unfoldable pub end_event :
      RuntimeEvent → RunStatus → Mapper P → Option Run → Mapper P × List Event
  unfolding make_event
  end_event rt status m none = (m, [])
  end_event rt status m (some closed) =
      let (n, e) = make_event (run_end status closed.counters) rt m in (n, e ∷ [])

  unfoldable pub close_run_into_event : RuntimeEvent → RunStatus → Mapper P → Mapper P × List Event
  unfolding end_event
  close_run_into_event rt status m =
      let (l, closed) = close_run m.lifecycle rt.timestamp status in
      end_event rt status (record m { lifecycle = l }) closed

  abbrev pub opened : RuntimeEvent → Trigger → Mapper P → Mapper P
  opened rt trigger m = record {
    lifecycle = open_new_run m.lifecycle rt.timestamp rt.session_id trigger;
    per_run = reset_per_run_state m.per_run;
  }

  -- The part of `beginRun` after its test.
  unfoldable pub roll_over : RuntimeEvent → Trigger → Mapper P → Mapper P × List Event
  unfolding close_run_into_event make_event
  roll_over rt trigger m =
      let (n, closing) = close_run_into_event rt completed m in
      let (k, e) = make_event (run_start trigger) rt (opened rt trigger n) in (k, closing ++ e ∷ [])

  unfoldable pub begin_run : RuntimeEvent → Trigger → Mapper P → Mapper P × List Event
  unfolding roll_over
  begin_run rt trigger m =
      if is_open m.lifecycle.current_run && is_other trigger.type
      then (m, [])
      else roll_over rt trigger m

  unfoldable pub step : Call → Mapper P → Mapper P × List Event
  unfolding make_event close_run_into_event begin_run
  step (start_session s) m = (record m { lifecycle = set_session m.lifecycle s }, [])
  step (stop_session ts) m = (record m { lifecycle = end_session m.lifecycle ts }, [])
  step forget_session m = (record m { lifecycle = clear_session m.lifecycle }, [])
  step (begin rt trigger) m = begin_run rt trigger m
  step (close rt status) m = close_run_into_event rt status m
  step (tally name) m = (record m { lifecycle = increment_counter name m.lifecycle }, [])
  step (emit kind rt) m = let (n, e) = make_event (plain kind) rt m in (n, e ∷ [])
  step allocate m = (record m { lifecycle = (allocate_seq m.lifecycle).0 }, [])

  unfoldable pub run_calls : Mapper P → List Call → Mapper P × List Event
  unfolding step
  run_calls m [] = (m, [])
  run_calls m (c ∷ cs) = let (n, es) = step c m in let (k, more) = run_calls n cs in (k, es ++ more)
