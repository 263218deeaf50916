-- ===== src/Dashboard/DecisionInbox.antt =====
-- src/app/dashboard/dashboardDecisionInbox.ts: decisions of the dashboard that wait for their run. The
-- table is the list of its rows in the order of `id`, with the AUTOINCREMENT counter; a decision stands
-- for its JSON text. `ON CONFLICT` speaks of the row that the partial unique index finds; an insert that
-- becomes an update has drawn its id all the same.
pub mod Waiting
use athena_flow_cli.Common.{
  ℕ, suc, String, Option, none, some, List, [], ◌∷◌, ◌++◌, if◌then◌else◌, ◌==◌, string_eq, nat_eq,
  Bool, true, false, not, ◌&&◌, is_some, any, keep, take, map,
}

pub record Row (D : Type 0) : Type 0 where
  pub id : ℕ
  pub athena_session_id : String
  pub request_id : String
  pub decision : D
  pub received_at : ℕ
  pub consumed_at : Option ℕ

pub record Inbox (D : Type 0) : Type 0 where
  pub next_id : ℕ
  pub rows : List (Row D)

pub record Decision (D : Type 0) : Type 0 where
  pub athena_session_id : String
  pub request_id : String
  pub decision : D
  pub received_at : ℕ

module _ {D : Type 0} where
  abbrev pub new_inbox : Inbox D
  new_inbox = record { next_id = 1; rows = [] }

  -- The unconsumed row of a request: the index of the table.
  abbrev pub waits : String → String → Row D → Bool
  waits session request row =
      not (is_some row.consumed_at)
      && ((row.athena_session_id == session) && (row.request_id == request))

  -- `DO UPDATE SET`
  abbrev pub refresh : Decision D → Row D → Row D
  refresh d row =
      if waits d.athena_session_id d.request_id row
      then record row { decision = d.decision; received_at = d.received_at }
      else row

  abbrev pub new_row : ℕ → Decision D → Row D
  new_row id d = record {
    id = id;
    athena_session_id = d.athena_session_id;
    request_id = d.request_id;
    decision = d.decision;
    received_at = d.received_at;
    consumed_at = none;
  }

  unfoldable pub enqueue : Decision D → Inbox D → Inbox D
  enqueue d inbox =
      if any (waits d.athena_session_id d.request_id) inbox.rows
      then record { next_id = suc inbox.next_id; rows = map (refresh d) inbox.rows }
      else record { next_id = suc inbox.next_id; rows = inbox.rows ++ new_row inbox.next_id d ∷ [] }

  abbrev pub is_pending : String → Row D → Bool
  is_pending session row = (row.athena_session_id == session) && not (is_some row.consumed_at)

  unfoldable pub pending_for_session : String → ℕ → Inbox D → List (Row D)
  pending_for_session session limit inbox = take limit (keep (is_pending session) inbox.rows)

  abbrev pub consume : ℕ → ℕ → Row D → Row D
  consume now id row = if row.id == id then record row { consumed_at = some now } else row

  unfoldable pub mark_consumed : ℕ → ℕ → Inbox D → Inbox D
  mark_consumed now id inbox = record inbox { rows = map (consume now id) inbox.rows }

pub data Call (D : Type 0) : Type 0 where
  put : Decision D → Call D
  mark : (now : ℕ) → (id : ℕ) → Call D

module _ {D : Type 0} where
  unfoldable pub step : Inbox D → Call D → Inbox D
  unfolding enqueue mark_consumed
  step inbox (put d) = enqueue d inbox
  step inbox (mark now id) = mark_consumed now id inbox
