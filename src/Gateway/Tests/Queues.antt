-- ===== src/Gateway/Tests/Queues.antt =====
-- The inbound queue and the outbox.
use athena_flow_cli.Common.{
  false, ◌||◌, fold_left, ℕ, List, true, string_eq, option_eq, nat_eq, ◌≡◌, refl, arith, none, some,
  [], ◌∷◌, if◌then◌else◌, leb, get_or,
}
use athena_flow_cli.Gateway.InboundQueue.{
  Call, put, take_all, step, new_queue, conflicts, enqueue, queue_full, duplicate, size,
}
use athena_flow_cli.Gateway.InboundQueue.Laws.{run-Inv, drain_fifo, drain_twice}
use athena_flow_cli.Gateway.InboundQueue.Laws
use athena_flow_cli.Gateway.Outbox.{peek_due}
use athena_flow_cli.Gateway.OutboundDispatcher
use athena_flow_cli.Gateway.OutboundDispatcher.{Sent, ok, failed, backoff_for, nothing_drained}
use athena_flow_cli.Gateway.OutboundDispatcher.Drain
use athena_flow_cli.Gateway.OutboundDispatcher.Drain.{backoff_for_last}
use athena_flow_cli.Gateway.OutboundDispatcher.Batch.{Drains, drain-Drains}
use athena_flow_cli.Gateway.Types.{NormalizedInbound, AttachmentKey}
use athena_flow_cli.Gateway.Tests.Sample.{hello, queue, dispatcher}

pub queue-Inv : Laws.Inv queue
queue-Inv = record {
  rising = (omega arith, omega arith);
  bounded = omega arith;
  unrepeated = (refl, tt);
}

dispatcher-Inv : Drain.Inv dispatcher
dispatcher-Inv = record { rising = (omega arith, omega arith); tries_left = (omega arith, tt) }

abbrev parked_calls : List Call
parked_calls = put hello none 3 ∷ put hello (some "a1") 4 ∷ take_all (some "a1") ∷ []

run-Inv_example :
    let q = fold_left step (new_queue 2) parked_calls in
    Laws.Inv q
    × ((m : NormalizedInbound) (key : AttachmentKey) (now : ℕ)
        → conflicts q m ≡ true
        → ((enqueue q m key now).0.rows ≡ q.rows)
          × ((enqueue q m key now).1
              ≡ (if leb q.max_entries (size q) then queue_full else duplicate)))
run-Inv_example = run-Inv 2 parked_calls

drain-Drains_example :
    ((dispatcher.draining || dispatcher.stopped) ≡ true
      → OutboundDispatcher.drain dispatcher 9 (λ id. (failed "e", 9))
        ≡ (dispatcher, nothing_drained))
    × ((dispatcher.draining || dispatcher.stopped) ≡ false
        → Drains dispatcher
            (peek_due dispatcher.outbox 9 dispatcher.batch_size)
            (λ id. (failed "e", 9))
            nothing_drained
            (OutboundDispatcher.drain dispatcher 9 (λ id. (failed "e", 9))).0
            (OutboundDispatcher.drain dispatcher 9 (λ id. (failed "e", 9))).1)
drain-Drains_example = drain-Drains dispatcher 9 (λ id. (failed "e", 9)) dispatcher-Inv

backoff_for_last_example : backoff_for (1000 ∷ 2000 ∷ []) 5 ≡ get_or (1000 ∷ 2000 ∷ []) 1 0
backoff_for_last_example = backoff_for_last 1000 (2000 ∷ []) 5 (omega arith)
