-- ===== src/Gateway/OutboundDispatcher/Laws.antt =====
-- The batch that `peekDue` of src/gateway/state/outbox.ts reads, as the dispatcher's drain takes it.
use athena_flow_cli.Common.{
  ℕ, zero, suc, ◌≤◌, ◌≡◌, List, [], ◌∷◌, arith, nat_eq, length, keep, true, All, ◌⊎◌, take,
  length-take-le,
}
use athena_flow_cli.Common.Sort.{order_by, IsOrdered, order_by-IsOrdered, order_by-All}
use athena_flow_cli.Gateway.Outbox.{Outbox, OutboxRow, peek_due, is_due, by_due}

pub take-All : (P : OutboxRow → Type 0) (n : ℕ) (rs : List OutboxRow) → All P rs → All P (take n rs)
take-All P zero rs h = tt
take-All P (suc n) [] h = tt
take-All P (suc n) (r ∷ rs) h = (h.0, take-All P n rs h.1)

take-IsOrdered : (n : ℕ) (rs : List OutboxRow) → IsOrdered by_due rs → IsOrdered by_due (take n rs)
take-IsOrdered zero rs h = tt
take-IsOrdered (suc n) [] h = tt
take-IsOrdered (suc zero) (r ∷ []) h = tt
take-IsOrdered (suc (suc n)) (r ∷ []) h = tt
take-IsOrdered (suc zero) (r ∷ s ∷ rs) h = tt
take-IsOrdered (suc (suc n)) (r ∷ s ∷ rs) h = (h.0, take-IsOrdered (suc n) (s ∷ rs) h.1)

due_total : (a b : OutboxRow) → (by_due a b ≡ true) ⊎ (by_due b a ≡ true)
due_total a b = ground arith

keep_due :
    (now : ℕ) (rs : List OutboxRow) → All (λ r. r.next_attempt_at ≤ now) (keep (is_due now) rs)
keep_due now [] = tt
keep_due now (r ∷ rs) = ground (arith, keep_due now rs)

-- A batch is no longer than its limit, every row in it is due, and it is in the order of
-- `next_attempt_at`, then of arrival.
pub peek_due_batch :
    (o : Outbox) (now limit : ℕ)
    → (length (peek_due o now limit) ≤ limit)
      × All (λ r. r.next_attempt_at ≤ now) (peek_due o now limit)
      × IsOrdered by_due (peek_due o now limit)
unfolding peek_due
peek_due_batch o now limit =
    let due = order_by by_due (keep (is_due now) o.rows) in
    (
      length-take-le limit due,
      take-All (λ r. r.next_attempt_at ≤ now) limit due
          (order_by-All by_due (λ r. r.next_attempt_at ≤ now) _ (keep_due now o.rows)),
      take-IsOrdered limit due (order_by-IsOrdered by_due due_total (keep (is_due now) o.rows)),
    )
