-- ===== src/Feed/RunLifecycle.antt =====
-- src/core/feed/internals/runLifecycle.ts and `makeEvent` of src/core/feed/mapper.ts: the numbers of the
-- events and the runs, and where a run begins and ends. A run id `{session}:R{n}` is the pair of its
-- parts: its last `:R` and the digits after it give them back. Of an event the model keeps what a
-- restored session reads.
pub mod Boundary
pub mod Resume
pub mod Restore
pub mod Order
use athena_flow_cli.Common.{
  ℕ, suc, ◌+◌, String, Option, none, some, List, [], ◌∷◌, ◌++◌, if◌then◌else◌, ltb, ◌==◌, Bool,
  true, false, ◌||◌, string_eq, nat_eq, fold_left, or_else, ◌&&◌,
}
use athena_flow_cli.Common.Text.{last}
use mathlib.Core.Option.{map}

pub record Session : Type 0 where
  pub session_id : String
  pub started_at : ℕ
  pub ended_at : Option ℕ
  pub source : String
  pub agent_type : Option String

pub record RunId : Type 0 where
  pub session : String
  pub number : ℕ

pub data TriggerType : Type 0 where
  user_prompt_submit : TriggerType
  resume : TriggerType
  clear : TriggerType
  compact : TriggerType
  other : TriggerType

pub record Trigger : Type 0 where
  pub type : TriggerType
  pub prompt_preview : Option String

pub data RunStatus : Type 0 where
  running : RunStatus
  blocked : RunStatus
  completed : RunStatus
  failed : RunStatus
  aborted : RunStatus

pub record Counters : Type 0 where
  pub tool_uses : ℕ
  pub tool_failures : ℕ
  pub permission_requests : ℕ
  pub blocks : ℕ

pub data Counter : Type 0 where
  tool_uses : Counter
  tool_failures : Counter
  permission_requests : Counter
  blocks : Counter

pub record Run : Type 0 where
  pub run_id : RunId
  pub session_id : String
  pub started_at : ℕ
  pub ended_at : Option ℕ
  pub trigger : Trigger
  pub status : RunStatus
  pub subagent_ids : List String
  pub counters : Counters

-- What an event says besides the boundaries of a run.
pub data PlainKind : Type 0 where
  tool_pre : PlainKind
  tool_failure : PlainKind
  permission_request : PlainKind
  stop_request : PlainKind
  other_kind : String → PlainKind

-- The kind of an event with its data, as far as the lifecycle reads them.
pub data EventKind : Type 0 where
  run_start : Trigger → EventKind
  run_end : RunStatus → Counters → EventKind
  plain : PlainKind → EventKind

pub record Event : Type 0 where
  pub seq : ℕ
  pub ts : ℕ
  pub session_id : String
  pub run_id : RunId
  pub kind : EventKind

pub record RuntimeEvent : Type 0 where
  pub id : String
  pub timestamp : ℕ
  pub session_id : String
  pub expects_decision : Bool

pub record Lifecycle : Type 0 where
  pub current_session : Option Session
  pub current_run : Option Run
  pub seq : ℕ
  pub run_seq : ℕ

pub record Bootstrap : Type 0 where
  pub feed_events : List Event
  pub adapter_session_ids : List String
  pub created_at : ℕ

-- `createRunLifecycle`
abbrev pub initial : Lifecycle
initial = record { current_session = none; current_run = none; seq = 0; run_seq = 0 }

abbrev pub no_counters : Counters
no_counters = record { tool_uses = 0; tool_failures = 0; permission_requests = 0; blocks = 0 }

abbrev pub session_id_of : Option Session → String
session_id_of none = "unknown"
session_id_of (some s) = s.session_id

abbrev pub get_run_id : Lifecycle → RunId
get_run_id l = record { session = session_id_of l.current_session; number = l.run_seq }

abbrev pub allocate_seq : Lifecycle → Lifecycle × ℕ
allocate_seq l = (record l { seq = suc l.seq }, suc l.seq)

abbrev pub set_session : Lifecycle → Session → Lifecycle
set_session l s = record l { current_session = some s }

abbrev pub ended : ℕ → Session → Session
ended ts s = record s { ended_at = some ts }

abbrev pub end_session : Lifecycle → ℕ → Lifecycle
end_session l ts = record l { current_session = map (ended ts) l.current_session }

abbrev pub clear_session : Lifecycle → Lifecycle
clear_session l = record l { current_session = none }

abbrev pub count : Counter → Counters → Counters
count Counter.tool_uses c = record c { tool_uses = suc c.tool_uses }
count Counter.tool_failures c = record c { tool_failures = suc c.tool_failures }
count Counter.permission_requests c = record c { permission_requests = suc c.permission_requests }
count Counter.blocks c = record c { blocks = suc c.blocks }

abbrev pub counted : Counter → Run → Run
counted name r = record r { counters = count name r.counters }

abbrev pub increment_counter : Counter → Lifecycle → Lifecycle
increment_counter name l = record l { current_run = map (counted name) l.current_run }

abbrev pub closed_run : ℕ → RunStatus → Run → Run
closed_run ts status r = record r { status = status; ended_at = some ts }

abbrev pub close_run : Lifecycle → ℕ → RunStatus → Lifecycle × Option Run
close_run l ts status = (record l { current_run = none }, map (closed_run ts status) l.current_run)

abbrev pub new_run : RunId → String → ℕ → Trigger → Run
new_run id session_id ts trigger = record {
  run_id = id;
  session_id = session_id;
  started_at = ts;
  ended_at = none;
  trigger = trigger;
  status = running;
  subagent_ids = [];
  counters = no_counters;
}

abbrev pub open_new_run : Lifecycle → ℕ → String → Trigger → Lifecycle
open_new_run l ts session_id trigger =
    let k = record l { run_seq = suc l.run_seq } in
    record k { current_run = some (new_run (get_run_id k) session_id ts trigger) }
