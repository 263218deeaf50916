-- ===== src/Gateway/Outbox.antt =====
-- src/gateway/state/outbox.ts, over the table `channel_outbox` of src/gateway/state/db.ts.
use athena_flow_cli.Common.{
  ℕ, suc, ◌+◌, String, Option, some, List, [], ◌∷◌, ◌++◌, map, length, if◌then◌else◌, ◌==◌, nat_eq,
  leb, ltb, Bool, not, ◌&&◌, ◌||◌, keep, take,
}
use athena_flow_cli.Common.Sort.{order_by}
use athena_flow_cli.Gateway.Types.{OutboundMessage}

pub record OutboxRow : Type 0 where
  pub id : ℕ
  pub channel_id : String
  pub message : OutboundMessage
  pub attempt : ℕ
  pub next_attempt_at : ℕ
  pub last_error : Option String

pub record Outbox : Type 0 where
  pub rows : List OutboxRow
  pub next_id : ℕ

pub size : Outbox → ℕ
size o = length o.rows

unfoldable pub enqueue : Outbox → String → OutboundMessage → ℕ → Option String → Outbox × ℕ
enqueue o channel message at error = (
  record o {
    rows =
        o.rows
        ++ record {
          id = o.next_id;
          channel_id = channel;
          message = message;
          attempt = 0;
          next_attempt_at = at;
          last_error = error;
        }
          ∷ [];
    next_id = suc o.next_id;
  },
  o.next_id,
)

abbrev pub is_due : ℕ → OutboxRow → Bool
is_due now r = leb r.next_attempt_at now

-- `ORDER BY next_attempt_at ASC, id ASC`
abbrev pub by_due : OutboxRow → OutboxRow → Bool
by_due a b =
    ltb a.next_attempt_at b.next_attempt_at
    || (a.next_attempt_at == b.next_attempt_at && leb a.id b.id)

unfoldable pub peek_due : Outbox → ℕ → ℕ → List OutboxRow
unfolding order_by
peek_due o now limit = take limit (order_by by_due (keep (is_due now) o.rows))

unfoldable pub delete : Outbox → ℕ → Outbox
delete o id = record o { rows = keep (λ r. not (r.id == id)) o.rows }

abbrev pub failed_row : ℕ → ℕ → String → OutboxRow → OutboxRow
failed_row id at error r =
    if r.id == id
    then record r { attempt = r.attempt + 1; next_attempt_at = at; last_error = some error }
    else r

unfoldable pub record_failure : Outbox → ℕ → ℕ → String → Outbox
record_failure o id at error = record o { rows = map (failed_row id at error) o.rows }
