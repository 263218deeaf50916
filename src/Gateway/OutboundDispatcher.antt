-- ===== src/Gateway/OutboundDispatcher.antt =====
-- src/gateway/outboundDispatcher.ts: sends with a durable retry. What the channel's `send` answers
-- is the environment's: an attempt takes its outcome, a result or an error message.
pub mod Rows
pub mod Laws
pub mod Drain
pub mod Batch
use Prim.Native.Nat.{min}
use athena_flow_cli.Common.{
  ℕ, ◌+◌, String, some, List, [], ◌∷◌, length, if◌then◌else◌, nat_eq, leb, Bool, true, false, ◌||◌,
  get_or,
}
use athena_flow_cli.Gateway.Types.{OutboundMessage, SendResult}
use athena_flow_cli.Gateway.Outbox
use athena_flow_cli.Gateway.Outbox.{Outbox, OutboxRow}

-- The settled promise of one `send`.
pub data Sent : Type 0 where
  ok : SendResult → Sent
  failed : String → Sent

pub record Dispatcher : Type 0 where
  pub outbox : Outbox
  pub backoff : List ℕ
  pub max_attempts : ℕ
  pub batch_size : ℕ
  pub draining : Bool
  pub stopped : Bool

pub data DispatchResult : Type 0 where
  sent : SendResult → DispatchResult
  queued : (outbox_id : ℕ) (error : String) → DispatchResult

abbrev pub default_backoff : List ℕ
default_backoff = 1000 ∷ 2000 ∷ 4000 ∷ 8000 ∷ 16000 ∷ 30000 ∷ []

abbrev pub default_max_attempts : ℕ
default_max_attempts = 10

unfoldable pub backoff_for : List ℕ → ℕ → ℕ
backoff_for [] attempt = 1000
backoff_for (b ∷ bs) attempt = get_or (b ∷ bs) (min attempt (length bs)) 0

unfoldable pub dispatch :
    Dispatcher → String → OutboundMessage → Sent → ℕ → Dispatcher × DispatchResult
unfolding backoff_for Outbox.enqueue
dispatch d channel msg (ok result) now = (d, sent result)
dispatch d channel msg (failed error) now =
    let (o, id) =
      Outbox.enqueue d.outbox channel msg (now + backoff_for d.backoff 0) (some error) in
    (record d { outbox = o }, queued id error)

pub data Outcome : Type 0 where
  succeeded requeued dropped : Outcome

unfoldable pub attempt : Dispatcher → OutboxRow → Sent → ℕ → Dispatcher × Outcome
unfolding backoff_for Outbox.delete Outbox.record_failure
attempt d row (ok result) now = (record d { outbox = Outbox.delete d.outbox row.id }, succeeded)
attempt d row (failed error) now =
    if leb d.max_attempts (row.attempt + 1)
    then (record d { outbox = Outbox.delete d.outbox row.id }, dropped)
    else (
      record d {
        outbox =
            Outbox.record_failure d.outbox row.id (now + backoff_for d.backoff (row.attempt + 1))
              error;
      },
      requeued,
    )

pub record Drained : Type 0 where
  pub retried : ℕ
  pub succeeded : ℕ
  pub dropped : ℕ

abbrev pub tally : Outcome → Drained → Drained
tally succeeded c = record c { retried = c.retried + 1; succeeded = c.succeeded + 1 }
tally requeued c = record c { retried = c.retried + 1 }
tally dropped c = record c { retried = c.retried + 1; dropped = c.dropped + 1 }

-- The loop of `drain` over the rows that were due; the environment answers row by row, by its id
-- and at some time.
pub drain_rows : Dispatcher → List OutboxRow → (ℕ → Sent × ℕ) → Drained → Dispatcher × Drained
unfolding attempt
drain_rows d [] answer c = (d, c)
drain_rows d (row ∷ rows) answer c =
    let (d', outcome) = attempt d row (answer row.id).0 (answer row.id).1 in
    drain_rows d' rows answer (tally outcome c)

abbrev pub nothing_drained : Drained
nothing_drained = record { retried = 0; succeeded = 0; dropped = 0 }

unfoldable pub drain : Dispatcher → ℕ → (ℕ → Sent × ℕ) → Dispatcher × Drained
unfolding drain_rows Outbox.peek_due
drain d now answer =
    if d.draining || d.stopped
    then (d, nothing_drained)
    else let (d', c) =
        drain_rows (record d { draining = true }) (Outbox.peek_due d.outbox now d.batch_size) answer
          nothing_drained in
      (record d' { draining = false }, c)

unfoldable pub stop : Dispatcher → Dispatcher
stop d = record d { stopped = true }
