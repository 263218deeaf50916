-- ===== src/Channels/Bridge.antt =====
-- src/app/channels/sessionBridge.ts: the life of a bridge and the turns that are pushed over it. Each
-- call, answer, timer and close of a connection is a step, so that they come in any order. Clients and
-- handlers are numbers. The state has room for one task: runs in which a `start` begins while another
-- is under way, which the code does not refuse, are outside the model. What a step hands to handlers is
-- returned.
pub mod Life
pub mod Dispatches
use Prim.Native.Nat.{◌-◌}
use athena_flow_cli.Common.{
  ℕ, suc, Option, none, some, is_some, List, [], ◌∷◌, ◌++◌, if◌then◌else◌, ◌==◌, nat_eq, option_eq,
  Bool, true, false, not, ◌&&◌, ◌||◌, any, keep, map, length, get_or, ltb, leb, or_else,
}

-- What runs in the background: nothing, `start`, or the loop of `kickReconnect`.
pub data Task : Type 0 where
  no_task starting reconnecting : Task

-- Where the task waits: for the connection, for the answer to `session.register` (with the client and
-- the one before it), or for the timer between two attempts.
pub data Wait : Type 0 where
  not_waiting : Wait
  connecting : Wait
  registering : (client : ℕ) (previous : Option ℕ) → Wait
  sleeping : Wait

pub record SessionBridge (P : Type 0) : Type 0 where
  pub handlers : List ℕ
  pub buffered : List P
  pub client : Option ℕ
  pub subscribed : Option ℕ
  pub started : Bool
  pub stopped : Bool
  pub task : Task
  pub wait : Wait
  pub reconnect_attempts : ℕ
  pub terminal_error : Bool

-- Why an attempt fails, as far as the loop asks.
pub data Failure : Type 0 where
  already_registered : Failure
  other_failure : Failure

pub data ConnectionState : Type 0 where
  idle connected reconnecting_state stopped_state : ConnectionState

abbrev pub is_reconnecting : Task → Bool
is_reconnecting no_task = false
is_reconnecting starting = false
is_reconnecting reconnecting = true

-- `Set.add`
abbrev pub add_handler : ℕ → List ℕ → List ℕ
add_handler h hs = if any (λ i. i == h) hs then hs else hs ++ h ∷ []

module _ {P : Type 0} where
  abbrev pub new_session_bridge : SessionBridge P
  new_session_bridge = record {
    handlers = [];
    buffered = [];
    client = none;
    subscribed = none;
    started = false;
    stopped = false;
    task = no_task;
    wait = not_waiting;
    reconnect_attempts = 0;
    terminal_error = false;
  }

  unfoldable pub get_connection_state : SessionBridge P → ConnectionState
  get_connection_state b =
      if b.stopped
      then stopped_state
      else if not b.started
      then idle
      else if is_reconnecting b.task
      then reconnecting_state
      else connected

  -- `start`, up to the connection. A bridge that was started throws.
  unfoldable pub start : SessionBridge P → Option (SessionBridge P)
  start b = if b.started then none else some (record b { task = starting; wait = connecting })

  -- The client is there: `replaceClient`, and `session.register` is asked.
  unfoldable pub client_connected : ℕ → SessionBridge P → SessionBridge P
  client_connected c b = record b {
    client = some c;
    subscribed = some c;
    wait = registering c b.client;
  }

  -- The task ends, by `finally` for the loop.
  abbrev pub end_task : SessionBridge P → SessionBridge P
  end_task b = record b { task = no_task; wait = not_waiting }

  -- `session.register` succeeds.
  unfoldable pub registered_by : Task → SessionBridge P → SessionBridge P
  registered_by no_task b = b
  registered_by starting b = record (end_task b) { started = true }
  registered_by reconnecting b = record (end_task b) { reconnect_attempts = 0 }

  unfoldable pub register_succeeded : SessionBridge P → SessionBridge P
  unfolding registered_by
  register_succeeded b = registered_by b.task b

  -- The `catch` of the loop, or of `start`, whose caller gets the error.
  unfoldable pub attempt_failed : Task → Failure → SessionBridge P → SessionBridge P
  attempt_failed no_task failure b = b
  attempt_failed starting failure b = end_task b
  attempt_failed reconnecting already_registered b =
      if b.stopped
      then end_task b
      else record (end_task b) { terminal_error = true; stopped = true }
  attempt_failed reconnecting other_failure b =
      if b.stopped
      then end_task b
      else record b { reconnect_attempts = suc b.reconnect_attempts; wait = sleeping }

  unfoldable pub connect_failed : Failure → SessionBridge P → SessionBridge P
  unfolding attempt_failed
  connect_failed failure b = attempt_failed b.task failure b

  -- `session.register` fails: the client is dropped for the one before it.
  unfoldable pub drop_client : Wait → SessionBridge P → SessionBridge P
  drop_client (registering c previous) b = record b { subscribed = none; client = previous }
  drop_client not_waiting b = b
  drop_client connecting b = b
  drop_client sleeping b = b

  unfoldable pub register_failed : Failure → SessionBridge P → SessionBridge P
  unfolding attempt_failed drop_client
  register_failed failure b = attempt_failed b.task failure (drop_client b.wait b)

  -- The sleep ends, by its timer or by `wakeSleep`: the loop's test, and the next attempt.
  unfoldable pub wake : Wait → SessionBridge P → SessionBridge P
  wake sleeping b = if b.stopped then end_task b else record b { wait = connecting }
  wake not_waiting b = b
  wake connecting b = b
  wake (registering c previous) b = b

  unfoldable pub timer_fired : SessionBridge P → SessionBridge P
  unfolding wake
  timer_fired b = wake b.wait b

  unfoldable pub kick_reconnect : Task → SessionBridge P → SessionBridge P
  kick_reconnect reconnecting b = b
  kick_reconnect no_task b = record b {
    reconnect_attempts = 0;
    task = reconnecting;
    wait = connecting;
  }
  kick_reconnect starting b = record b {
    reconnect_attempts = 0;
    task = reconnecting;
    wait = connecting;
  }

  -- The listener of a client's close, while it is subscribed.
  unfoldable pub client_closed : ℕ → SessionBridge P → SessionBridge P
  unfolding kick_reconnect
  client_closed c b =
      if not (b.subscribed == some c)
      then b
      else if not (b.client == some c) || (not b.started || b.stopped)
      then b
      else kick_reconnect b.task b

  -- `stop`, up to the wait for the loop.
  unfoldable pub begin_stop : SessionBridge P → SessionBridge P
  unfolding wake
  begin_stop b = wake b.wait (record b { stopped = true })

  -- `stop`, once the loop has ended and the gateway has answered.
  unfoldable pub end_stop : SessionBridge P → SessionBridge P
  end_stop b =
      if is_some b.client
      then record b { subscribed = none; client = none; started = false; buffered = [] }
      else record b { started = false }

  -- A push over a client: buffered, or handed to each handler.
  unfoldable pub push_turn : ℕ → P → SessionBridge P → SessionBridge P × List (ℕ × P)
  push_turn c payload b =
      if not (b.subscribed == some c)
      then (b, [])
      else if leb (length b.handlers) 0
      then (record b { buffered = b.buffered ++ payload ∷ [] }, [])
      else (b, map (λ (h : ℕ). (h, payload)) b.handlers)

  abbrev pub replay : ℕ → List P → List (ℕ × P)
  replay h ps = map (λ (p : P). (h, p)) ps

  unfoldable pub on_turn_dispatch : ℕ → SessionBridge P → SessionBridge P × List (ℕ × P)
  on_turn_dispatch h b =
      let handlers = add_handler h b.handlers in
      if leb (length b.handlers) 0 && ltb 0 (length b.buffered)
      then (record b { handlers = handlers; buffered = [] }, replay h b.buffered)
      else (record b { handlers = handlers }, [])

  unfoldable pub off_turn_dispatch : ℕ → SessionBridge P → SessionBridge P
  off_turn_dispatch h b = record b { handlers = keep (λ i. not (i == h)) b.handlers }

-- The steps, in any order: an answer comes only where the task waits for it, a stop ends only once it has
-- begun and the loop is over.
pub data Call (P : Type 0) : Type 0 where
  call_start : Call P
  connected_to : (client : ℕ) → Call P
  connecting_failed : Failure → Call P
  register_accepted : Call P
  register_refused : Failure → Call P
  timer : Call P
  closed : (client : ℕ) → Call P
  call_stop : Call P
  stop_ends : Call P
  push : (client : ℕ) (payload : P) → Call P
  subscribe : (handler : ℕ) → Call P
  unsubscribe : (handler : ℕ) → Call P

abbrev pub is_connecting : Wait → Bool
is_connecting connecting = true
is_connecting not_waiting = false
is_connecting (registering c previous) = false
is_connecting sleeping = false

abbrev pub is_registering : Wait → Bool
is_registering (registering c previous) = true
is_registering not_waiting = false
is_registering connecting = false
is_registering sleeping = false

module _ {P : Type 0} where
  unfoldable pub step : SessionBridge P → Call P → SessionBridge P × List (ℕ × P)
  step b call_start = (or_else (start b) b, [])
  step b (connected_to c) = (if is_connecting b.wait then client_connected c b else b, [])
  step b (connecting_failed f) = (if is_connecting b.wait then connect_failed f b else b, [])
  step b register_accepted = (if is_registering b.wait then register_succeeded b else b, [])
  step b (register_refused f) = (if is_registering b.wait then register_failed f b else b, [])
  step b timer = (timer_fired b, [])
  step b (closed c) = (client_closed c b, [])
  step b call_stop = (begin_stop b, [])
  step b stop_ends = (if b.stopped && not (is_reconnecting b.task) then end_stop b else b, [])
  step b (push c payload) = push_turn c payload b
  step b (subscribe h) = on_turn_dispatch h b
  step b (unsubscribe h) = (off_turn_dispatch h b, [])

-- `backoffSchedule[Math.min(attempt, length - 1)] ?? 30_000`, before the jitter.
unfoldable pub base_delay : List ℕ → ℕ → ℕ
base_delay schedule attempt =
    let i = if leb attempt (length schedule - 1) then attempt else length schedule - 1 in
    get_or schedule i 30000

-- What a relay request meets in one round of `requestWithReconnect`: the time when the client is there
-- and, when the request has come back, its answer or its failure with the time and whether the bridge
-- was stopped then.
pub data Reply (R : Type 0) : Type 0 where
  answer : R → Reply R
  connection_closed : (now : ℕ) (stopped : Bool) → Reply R
  other_error : Reply R

pub record Round (R : Type 0) : Type 0 where
  pub ready_at : ℕ
  pub reply : Reply R

pub data Outcome (R : Type 0) : Type 0 where
  replied : R → Outcome R
  timed_out : Outcome R
  thrown : Outcome R
  still_waiting : Outcome R

-- `deadline === null || now < deadline`
abbrev pub before : ℕ → Option ℕ → Bool
before now none = true
before now (some deadline) = ltb now deadline

module _ {R : Type 0} where
  -- `retry` is what the loop's next round gives.
  unfoldable pub settle_round : Option ℕ → Reply R → Outcome R × ℕ → Outcome R × ℕ
  settle_round deadline (answer r) retry = (replied r, 1)
  settle_round deadline (connection_closed now stopped) retry =
      if not stopped && before now deadline then (retry.0, suc retry.1) else (thrown, 1)
  settle_round deadline other_error retry = (thrown, 1)

  -- The outcome and how often the request was issued.
  unfoldable pub request_with_reconnect : Option ℕ → List (Round R) → Outcome R × ℕ
  unfolding settle_round
  request_with_reconnect deadline [] = (still_waiting, 0)
  request_with_reconnect deadline (round ∷ rounds) =
      let retry = request_with_reconnect deadline rounds in
      if not (before round.ready_at deadline)
      then (timed_out, 0)
      else settle_round deadline round.reply retry
