-- ===== src/Gateway/InboundQueue.antt =====
-- src/gateway/state/inboundQueue.ts, over the table `inbound_queue` of src/gateway/state/db.ts. The
-- table holds its rows in the order of insertion; `next_id` is SQLite's AUTOINCREMENT counter. The
-- payload column holds the message itself: what `JSON.stringify` and `JSON.parse` carry over. An insert
-- that conflicts has drawn its id all the same.
pub mod Laws
use athena_flow_cli.Common.{
  ℕ, suc, List, [], ◌∷◌, ◌++◌, map, length, if◌then◌else◌, ◌==◌, string_eq, option_eq, leb, Bool,
  not, ◌&&◌, any, keep,
}
use athena_flow_cli.Common.Sort.{order_by}
use athena_flow_cli.Gateway.Types.{NormalizedInbound, AttachmentKey}

pub record Row : Type 0 where
  pub id : ℕ
  pub attachment_id : AttachmentKey
  pub inbound : NormalizedInbound
  pub created_at : ℕ

pub record Queue : Type 0 where
  pub rows : List Row
  pub next_id : ℕ
  pub max_entries : ℕ

pub data EnqueueResult : Type 0 where
  queued : ℕ → EnqueueResult
  duplicate queue_full : EnqueueResult

abbrev pub default_max_entries : ℕ
default_max_entries = 1000

pub size : Queue → ℕ
size q = length q.rows

-- A new table.
abbrev pub new_queue : ℕ → Queue
new_queue max_entries = record { rows = []; next_id = 1; max_entries = max_entries }

-- The unique index on (channel_id, account_id, idempotency_key).
abbrev pub same_message : NormalizedInbound → NormalizedInbound → Bool
same_message a b =
    a.location.channel_id == b.location.channel_id
    && (a.location.account_id == b.location.account_id && a.idempotency_key == b.idempotency_key)

abbrev pub conflicts : Queue → NormalizedInbound → Bool
conflicts q inbound = any (λ r. same_message r.inbound inbound) q.rows

unfoldable pub enqueue : Queue → NormalizedInbound → AttachmentKey → ℕ → Queue × EnqueueResult
unfolding size
enqueue q inbound key now =
    if leb q.max_entries (size q)
    then (q, queue_full)
    else if conflicts q inbound
    then (record q { next_id = suc q.next_id }, duplicate)
    else (
      record q {
        rows =
            q.rows
            ++ record { id = q.next_id; attachment_id = key; inbound = inbound; created_at = now }
              ∷ [];
        next_id = suc q.next_id;
      },
      queued q.next_id,
    )

-- `attachment_id IS ?`, which holds of two nulls
abbrev pub parked_for : AttachmentKey → Row → Bool
parked_for key r = r.attachment_id == key

abbrev pub by_id : Row → Row → Bool
by_id a b = leb a.id b.id

unfoldable pub drain : Queue → AttachmentKey → Queue × List (ℕ × NormalizedInbound)
unfolding order_by
drain q key =
    let rows = order_by by_id (keep (parked_for key) q.rows) in
    (
      if leb 1 (length rows)
          then record q { rows = keep (λ r. not (parked_for key r)) q.rows }
          else q,
      map (λ r. (r.id, r.inbound)) rows,
    )

pub data Call : Type 0 where
  put : (inbound : NormalizedInbound) (key : AttachmentKey) (now : ℕ) → Call
  take_all : (key : AttachmentKey) → Call

unfoldable pub step : Queue → Call → Queue
unfolding enqueue drain
step q (put inbound key now) = (enqueue q inbound key now).0
step q (take_all key) = (drain q key).0
