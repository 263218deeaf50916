-- ===== src/Gateway/OutboundDispatcher/Drain.antt =====
-- `drain` of src/gateway/outboundDispatcher.ts: how an attempt changes the rows of the outbox.
use athena_flow_cli.Common.{
  ℕ, suc, ◌+◌, ◌≤◌, ◌<◌, String, ◌≡◌, refl, ap, sym, ◌≢◌, List, [], ◌∷◌, arith, ◌==◌, nat_eq,
  Bool-cases, length, not, leb, All, inl, inr, ◌⊎◌, All-append, All-mono, get_or,
}
use athena_flow_cli.Common.Sort.{order_by, place, place-All, order_by-All}
use athena_flow_cli.Gateway.Types.{OutboundMessage}
use athena_flow_cli.Gateway.Outbox
use athena_flow_cli.Gateway.Outbox.{Outbox, OutboxRow, peek_due, is_due, by_due, failed_row}
use athena_flow_cli.Gateway.OutboundDispatcher.Rows.{
  Rising, In, Rising-append, keep-Rising, keep-All, failed-Rising, length-delete, length-failed,
  In-delete, In-failed, failed-tries, Gone, delete-Gone, failed-Gone, tried, In-tried,
}
use athena_flow_cli.Gateway.OutboundDispatcher.{
  Dispatcher, Sent, ok, failed, backoff_for, dispatch, attempt, Outcome, succeeded, requeued,
  dropped,
}

-- Ids rise, and every parked row has a retry left.
pub record Inv (d : Dispatcher) : Type 0 where
  pub rising : Rising 0 d.outbox.next_id d.outbox.rows
  pub tries_left : All (λ r. r.attempt < d.max_attempts) d.outbox.rows

-- Parking a message whose first send failed keeps the table in order; with at least one retry
-- allowed, the new row has one left.
pub dispatch-Inv :
    (d : Dispatcher) (channel : String) (msg : OutboundMessage) (answer : Sent) (now : ℕ)
    → 0 < d.max_attempts
    → Inv d
    → Inv (dispatch d channel msg answer now).0
unfolding dispatch Outbox.enqueue
dispatch-Inv d channel msg (ok r) now h v = v
dispatch-Inv d channel msg (failed e) now h v = record {
  rising = Rising-append 0 d.outbox.rows _ v.rising;
  tries_left = All-append (λ r. r.attempt < d.max_attempts) d.outbox.rows _ v.tries_left (h, tt);
}

-- The wait before a retry is an entry of the schedule, the last one from there on.
pub backoff_for_last :
    (b : ℕ) (bs : List ℕ) (n : ℕ)
    → length bs ≤ n
    → backoff_for (b ∷ bs) n ≡ get_or (b ∷ bs) (length bs) 0
unfolding backoff_for
backoff_for_last b bs n h = ap (λ (i : ℕ). get_or (b ∷ bs) i 0) (omega arith)

-- One attempt at a row of the table: what it keeps, and how many rows it leaves.
abbrev pub leaves : Outcome → ℕ
leaves succeeded = 1
leaves requeued = 0
leaves dropped = 1

-- What must become of a row, by the answer to its send: it leaves the table once it is delivered, or
-- once its last try has failed; else it stays with one try more, the wait for it and the error.
abbrev pub Fate : ℕ → List ℕ → OutboxRow → ℕ → List OutboxRow → Sent → Type 0
Fate most backoff row now rows (ok r) = Gone row.id rows
Fate most backoff row now rows (failed e) =
    ((most ≤ row.attempt + 1) × Gone row.id rows)
    ⊎ ((row.attempt + 1 < most)
        × In (tried row (now + backoff_for backoff (row.attempt + 1)) e) rows)

abbrev pub deliveries : Sent → ℕ
deliveries (ok r) = 1
deliveries (failed e) = 0

abbrev pub successes : Outcome → ℕ
successes succeeded = 1
successes requeued = 0
successes dropped = 0

pub record Attempted (d : Dispatcher) (row : OutboxRow) (answer : Sent) (now : ℕ) (d' : Dispatcher)
    (o : Outcome) : Type 0 where
  pub inv : Inv d'
  pub size : length d'.outbox.rows + leaves o ≡ length d.outbox.rows
  pub others : (r : OutboxRow) → r.id ≢ row.id → In r d.outbox.rows → In r d'.outbox.rows
  pub settings :
      (d'.max_attempts ≡ d.max_attempts) × (d'.draining ≡ d.draining) × (d'.backoff ≡ d.backoff)
  pub gone : (id : ℕ) → Gone id d.outbox.rows → Gone id d'.outbox.rows
  pub fate : Fate d.max_attempts d.backoff row now d'.outbox.rows answer
  pub counted : successes o ≡ deliveries answer

deleted :
    (d : Dispatcher) (row : OutboxRow) (answer : Sent) (now : ℕ) (o : Outcome)
    → leaves o ≡ 1
    → successes o ≡ deliveries answer
    → (Gone row.id (Outbox.delete d.outbox row.id).rows
        → Fate d.max_attempts d.backoff row now (Outbox.delete d.outbox row.id).rows answer)
    → Inv d
    → In row d.outbox.rows
    → Attempted d row answer now (record d { outbox = Outbox.delete d.outbox row.id }) o
unfolding Outbox.delete
deleted d row answer now o one same fate v i = record {
  inv = record {
    rising = keep-Rising (λ r. not (r.id == row.id)) 0 d.outbox.next_id d.outbox.rows v.rising;
    tries_left =
        keep-All (λ r. r.attempt < d.max_attempts) (λ r. not (r.id == row.id)) d.outbox.rows
          v.tries_left;
  };
  size = omega (arith, length-delete 0 d.outbox.next_id row d.outbox.rows v.rising i);
  others = λ r ne k. In-delete row.id r d.outbox.rows ne k;
  settings = (refl, refl, refl);
  gone = λ id h. keep-All (λ s. s.id ≢ id) (λ r. not (r.id == row.id)) d.outbox.rows h;
  fate = fate (delete-Gone row.id d.outbox.rows);
  counted = same;
}

pub attempt-Attempted :
    (d : Dispatcher) (row : OutboxRow) (answer : Sent) (now : ℕ)
    → Inv d
    → In row d.outbox.rows
    → Attempted d row answer now (attempt d row answer now).0 (attempt d row answer now).1
unfolding attempt Outbox.delete Outbox.record_failure
attempt-Attempted d row (ok r) now v i = deleted d row (ok r) now succeeded refl refl (λ g. g) v i
attempt-Attempted d row (failed e) now v i =
    elim (Bool-cases (leb d.max_attempts (row.attempt + 1))) [
      | inl spent ↦
          rw spent (deleted d row (failed e) now dropped refl refl (λ g. inl (ground arith, g)) v i)
      | inr left ↦ rw left (record {
        inv = record {
          rising = failed-Rising row.id _ e 0 d.outbox.next_id d.outbox.rows v.rising;
          tries_left =
              failed-tries row _ 0 d.outbox.next_id d.max_attempts e d.outbox.rows v.rising i
                (ground arith) v.tries_left;
        };
        size = omega (
          arith,
          length-failed row.id (now + backoff_for d.backoff (row.attempt + 1)) e d.outbox.rows,
        );
        others = λ r ne k. In-failed row.id _ e r d.outbox.rows ne k;
        settings = (refl, refl, refl);
        gone = λ id h. failed-Gone row.id id _ e d.outbox.rows h;
        fate = inr (ground arith, In-tried row _ e d.outbox.rows i);
        counted = refl;
      })
    ]

-- The ids of the batch are apart from one another.
abbrev pub Apart : List OutboxRow → Type 0
Apart [] = Unit {0}
Apart (r ∷ rs) = All (λ s. s.id ≢ r.id) rs × Apart rs

place-Apart :
    (x : OutboxRow) (rs : List OutboxRow)
    → All (λ s. s.id ≢ x.id) rs
    → Apart rs
    → Apart (place by_due x rs)
unfolding place
place-Apart x [] h a = (tt, tt)
place-Apart x (y ∷ ys) (h, hs) (a, as') = elim (Bool-cases (by_due x y)) [
  | inl e ↦ rw e ((h, hs), (a, as'))
  | inr e ↦
      rw e (place-All by_due (λ s. s.id ≢ y.id) x ys (λ q. h (sym q)) a, place-Apart x ys hs as')
]

pub order-Apart : (rs : List OutboxRow) → Apart rs → Apart (order_by by_due rs)
unfolding order_by
order-Apart [] a = tt
order-Apart (r ∷ rs) (a, as') =
    place-Apart r (order_by by_due rs) (order_by-All by_due (λ s. s.id ≢ r.id) rs a)
      (order-Apart rs as')

Rising-above : (lo hi : ℕ) (rs : List OutboxRow) → Rising lo hi rs → All (λ s. lo ≤ s.id) rs
Rising-above lo hi [] h = tt
Rising-above lo hi (x ∷ xs) h = (
  h.0,
  All-mono (λ s. suc x.id ≤ s.id) (λ s. lo ≤ s.id) (λ s k. omega arith) xs
      (Rising-above (suc x.id) hi xs h.1),
)

pub Rising-Apart : (lo hi : ℕ) (rs : List OutboxRow) → Rising lo hi rs → Apart rs
Rising-Apart lo hi [] h = tt
Rising-Apart lo hi (x ∷ xs) h = (
  All-mono (λ s. suc x.id ≤ s.id) (λ s. s.id ≢ x.id) (λ s k. omega arith) xs
      (Rising-above (suc x.id) hi xs h.1),
  Rising-Apart (suc x.id) hi xs h.1,
)
