-- ===== src/Gateway/OutboundDispatcher/Batch.antt =====
-- A whole drain: the rows that were due, one after another.
use athena_flow_cli.Common.{
  ℕ, zero, suc, ◌+◌, ◌≡◌, refl, ◌∙◌, ◌≢◌, sym, false, List, [], ◌∷◌, arith, Bool-cases, length,
  keep, Bool, true, All, inl, inr, ◌||◌, take, All-mono,
}
use athena_flow_cli.Common.Sort.{order_by, order_by-All}
use athena_flow_cli.Gateway.Outbox.{OutboxRow, peek_due, is_due, by_due}
use athena_flow_cli.Gateway.OutboundDispatcher.Rows.{In, Gone, keep-All}
use athena_flow_cli.Gateway.OutboundDispatcher.Laws.{take-All}
use athena_flow_cli.Gateway.OutboundDispatcher.Drain.{
  Fate, deliveries, successes, Inv, Apart, attempt-Attempted, order-Apart, Rising-Apart, leaves,
}
use athena_flow_cli.Gateway.OutboundDispatcher.{
  Dispatcher, Sent, ok, failed, attempt, drain, drain_rows, Drained, tally, Outcome, succeeded,
  requeued, dropped, nothing_drained,
}

-- How many of the rows were delivered, by the answers.
pub delivered : (ℕ → Sent × ℕ) → List OutboxRow → ℕ
delivered answer [] = 0
delivered answer (r ∷ rows) = deliveries (answer r.id).0 + delivered answer rows

-- What a run over some rows did to the table and to the counters.
pub record Drains (d : Dispatcher) (rows : List OutboxRow) (answer : ℕ → Sent × ℕ) (c : Drained)
    (d' : Dispatcher) (c' : Drained) : Type 0 where
  pub inv : Inv d'
  pub conserved :
      length d'.outbox.rows + c'.succeeded + c'.dropped
      ≡ length d.outbox.rows + c.succeeded + c.dropped
  pub fates :
      All (λ r. Fate d.max_attempts d.backoff r (answer r.id).1 d'.outbox.rows (answer r.id).0) rows
  pub others :
      (r : OutboxRow) → All (λ s. s.id ≢ r.id) rows → In r d.outbox.rows → In r d'.outbox.rows
  pub gone : (id : ℕ) → Gone id d.outbox.rows → Gone id d'.outbox.rows
  pub succeeded : c'.succeeded ≡ c.succeeded + delivered answer rows
  pub retried : c'.retried ≡ c.retried + length rows
  pub draining : d'.draining ≡ d.draining

tallied :
    (o : Outcome) (c : Drained)
    → ((tally o c).succeeded + (tally o c).dropped ≡ c.succeeded + c.dropped + leaves o)
      × ((tally o c).retried ≡ c.retried + 1)
      × ((tally o c).succeeded ≡ c.succeeded + successes o)
tallied succeeded c = (omega arith, omega arith, omega arith)
tallied requeued c = (omega arith, omega arith, omega arith)
tallied dropped c = (omega arith, omega arith, omega arith)

still_there :
    (d d' : Dispatcher) (row : OutboxRow) (rows : List OutboxRow)
    → ((r : OutboxRow) → r.id ≢ row.id → In r d.outbox.rows → In r d'.outbox.rows)
    → All (λ s. s.id ≢ row.id) rows
    → All (λ r. In r d.outbox.rows) rows
    → All (λ r. In r d'.outbox.rows) rows
still_there d d' row [] f a h = tt
still_there d d' row (r ∷ rows) f (a, as') (h, hs) = (f r a h, still_there d d' row rows f as' hs)

-- What became of a row is not undone while rows of other ids are tried.
Fate-later :
    (most : ℕ) (backoff : List ℕ) (row : OutboxRow) (now : ℕ) (rows rows' : List OutboxRow)
    (answer : Sent)
    → (Gone row.id rows → Gone row.id rows')
    → ((r : OutboxRow) → r.id ≡ row.id → In r rows → In r rows')
    → Fate most backoff row now rows answer
    → Fate most backoff row now rows' answer
Fate-later most backoff row now rows rows' (ok r) g i f = g f
Fate-later most backoff row now rows rows' (failed e) g i (inl (h, f)) = inl (h, g f)
Fate-later most backoff row now rows rows' (failed e) g i (inr (h, f)) = inr (h, i _ refl f)

drain_rows-Drains :
    (d : Dispatcher) (rows : List OutboxRow) (answer : ℕ → Sent × ℕ) (c : Drained)
    → Inv d
    → All (λ r. In r d.outbox.rows) rows
    → Apart rows
    → Drains d rows answer c (drain_rows d rows answer c).0 (drain_rows d rows answer c).1
unfolding drain_rows delivered
drain_rows-Drains d [] answer c v h a = record {
  inv = v;
  conserved = refl;
  fates = tt;
  others = λ r h i. i;
  gone = λ id h. h;
  succeeded = omega arith;
  retried = omega arith;
  draining = refl;
}
drain_rows-Drains d (row ∷ rows) answer c v (h, hs) (a, as') =
    let one = attempt-Attempted d row (answer row.id).0 (answer row.id).1 v h in
    let d1 = (attempt d row (answer row.id).0 (answer row.id).1).0 in
    let o = (attempt d row (answer row.id).0 (answer row.id).1).1 in
    let rest =
      drain_rows-Drains d1 rows answer (tally o c) one.inv
        (still_there d d1 row rows one.others a hs) as' in
    let counted = tallied o c in
    record {
      inv = rest.inv;
      conserved = omega (arith, rest.conserved, one.size, counted);
      fates = (
        Fate-later d.max_attempts d.backoff row _ d1.outbox.rows _ (answer row.id).0
            (rest.gone row.id) (λ r same i. rest.others r (rw same a) i) one.fate,
        rw (one.settings.0, one.settings.2) at rest.fates,
      );
      others = λ r apart i. rest.others r apart.1 (one.others r (λ q. apart.0 (sym q)) i);
      gone = λ id h. rest.gone id (one.gone id h);
      succeeded = omega (arith, rest.succeeded, counted, one.counted);
      retried = omega (arith, rest.retried, counted);
      draining = rest.draining ∙ one.settings.1;
    }

In-keep : (p : OutboxRow → Bool) (rs : List OutboxRow) → All (λ r. In r rs) (keep p rs)
In-keep p [] = tt
In-keep p (x ∷ xs) = elim (Bool-cases (p x)) [
  | inl e ↦ rw e (
    inl refl,
    All-mono (λ r. In r xs) (λ r. In r (x ∷ xs)) (λ r i. inr i) (keep p xs) (In-keep p xs),
  )
  | inr e ↦
      rw e (All-mono (λ r. In r xs) (λ r. In r (x ∷ xs)) (λ r i. inr i) (keep p xs) (In-keep p xs))
]

keep-Apart : (p : OutboxRow → Bool) (rs : List OutboxRow) → Apart rs → Apart (keep p rs)
keep-Apart p [] a = tt
keep-Apart p (x ∷ xs) (a, as') = elim (Bool-cases (p x)) [
  | inl e ↦ rw e (keep-All (λ s. s.id ≢ x.id) p xs a, keep-Apart p xs as')
  | inr e ↦ rw e (keep-Apart p xs as')
]

take-Apart : (n : ℕ) (rs : List OutboxRow) → Apart rs → Apart (take n rs)
take-Apart zero rs a = tt
take-Apart (suc n) [] a = tt
take-Apart (suc n) (x ∷ xs) (a, as') = (take-All (λ s. s.id ≢ x.id) n xs a, take-Apart n xs as')

-- While another drain runs, or after `stop`, a drain does nothing. Else, from an outbox that meets the
-- invariant, it tries each row of its batch once: a row whose send succeeds leaves the table and is
-- counted as delivered; a row whose send fails leaves it only if that was its last try, and else stays
-- with one try more, the wait of the schedule and the error; every other row stays as it is; and every row
-- that left is counted as delivered or dropped. Each row left has a retry, and the flag is down again.
pub drain-Drains :
    (d : Dispatcher) (now : ℕ) (answer : ℕ → Sent × ℕ)
    → Inv d
    → ((d.draining || d.stopped) ≡ true → drain d now answer ≡ (d, nothing_drained))
      × ((d.draining || d.stopped) ≡ false
          → Drains d
              (peek_due d.outbox now d.batch_size)
              answer
              nothing_drained
              (drain d now answer).0
              (drain d now answer).1)
unfolding drain peek_due
drain-Drains d now answer v = (
  λ busy. rw busy refl,
  λ free. rw free (
      let due = keep (is_due now) d.outbox.rows in
      let run =
        drain_rows-Drains (record d { draining = true }) (take d.batch_size (order_by by_due due))
          answer nothing_drained (record { rising = v.rising; tries_left = v.tries_left })
          (take-All (λ r. In r d.outbox.rows) d.batch_size (order_by by_due due)
            (order_by-All by_due (λ r. In r d.outbox.rows) due
              (In-keep (is_due now) d.outbox.rows)))
          (take-Apart d.batch_size (order_by by_due due) (
            order-Apart due (
              keep-Apart (is_due now) d.outbox.rows
                (Rising-Apart 0 d.outbox.next_id d.outbox.rows v.rising)))) in
      record {
        inv = record { rising = run.inv.rising; tries_left = run.inv.tries_left };
        conserved = run.conserved;
        fates = run.fates;
        others = run.others;
        gone = run.gone;
        succeeded = run.succeeded;
        retried = run.retried;
        draining = ground arith;
      }),
)
