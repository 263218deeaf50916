-- ===== src/Gateway/InboundQueue/Laws.antt =====
-- The rows of the inbound queue of src/gateway/state/inboundQueue.ts, under its two operations.
use athena_flow_cli.Common.{
  fold_left, ap, ◌∙◌, map, not, if◌then◌else◌, length-append, leb, true, ℕ, suc, ◌≤◌, ◌≡◌, refl,
  List, [], ◌∷◌, ◌++◌, arith, string_eq, option_eq, Bool-cases, length, keep, any, Bool, false, inl,
  inr,
}
use athena_flow_cli.Gateway.Types.{NormalizedInbound}
use athena_flow_cli.Gateway.InboundQueue.{
  Call, put, take_all, step, new_queue, duplicate, queue_full, parked_for, by_id, order_by,
  conflicts, AttachmentKey, size, drain, enqueue, Queue, Row, same_message,
}
use athena_flow_cli.Common.Sort.{order_by, order_by_ordered, IsOrdered}

-- Ids grow along the table, from `lo` on, and stay below `hi`.
abbrev pub Rising : ℕ → ℕ → List Row → Type 0
Rising lo hi [] = lo ≤ hi
Rising lo hi (r ∷ rs) = (lo ≤ r.id) × Rising (suc r.id) hi rs

-- No two rows hold the same message.
abbrev pub Unrepeated : List Row → Type 0
Unrepeated [] = Unit {0}
Unrepeated (r ∷ rs) = (any (λ s. same_message s.inbound r.inbound) rs ≡ false) × Unrepeated rs

pub record Inv (q : Queue) : Type 0 where
  pub rising : Rising 0 q.next_id q.rows
  pub bounded : length q.rows ≤ q.max_entries
  pub unrepeated : Unrepeated q.rows

Rising-append :
    (lo : ℕ) (rs : List Row) (r : Row) → Rising lo r.id rs → Rising lo (suc r.id) (rs ++ r ∷ [])
Rising-append lo [] r h = (h, omega arith)
Rising-append lo (x ∷ xs) r h = (h.0, Rising-append (suc x.id) xs r h.1)

Rising-raise : (lo hi : ℕ) (rs : List Row) → Rising lo hi rs → Rising lo (suc hi) rs
Rising-raise lo hi [] h = omega arith
Rising-raise lo hi (x ∷ xs) h = (h.0, Rising-raise (suc x.id) hi xs h.1)

Rising-lower : (lo lo' hi : ℕ) (rs : List Row) → lo' ≤ lo → Rising lo hi rs → Rising lo' hi rs
Rising-lower lo lo' hi [] h r = omega arith
Rising-lower lo lo' hi (x ∷ xs) h r = (omega arith, r.1)

keep-Rising :
    (p : Row → Bool) (lo hi : ℕ) (rs : List Row) → Rising lo hi rs → Rising lo hi (keep p rs)
keep-Rising p lo hi [] h = h
keep-Rising p lo hi (x ∷ xs) h = elim (Bool-cases (p x)) [
  | inl e ↦ rw e (h.0, keep-Rising p (suc x.id) hi xs h.1)
  | inr e ↦
      rw e (
        Rising-lower (suc x.id) lo hi (keep p xs) (omega arith)
          (keep-Rising p (suc x.id) hi xs h.1))
]

any-keep : (p f : Row → Bool) (rs : List Row) → any f rs ≡ false → any f (keep p rs) ≡ false
any-keep p f [] h = refl
any-keep p f (x ∷ xs) h = ground (arith, any-keep p f xs)

keep-Unrepeated : (p : Row → Bool) (rs : List Row) → Unrepeated rs → Unrepeated (keep p rs)
keep-Unrepeated p [] u = tt
keep-Unrepeated p (x ∷ xs) (u, us) = elim (Bool-cases (p x)) [
  | inl e ↦ rw e (any-keep p (λ s. same_message s.inbound x.inbound) xs u, keep-Unrepeated p xs us)
  | inr e ↦ rw e (keep-Unrepeated p xs us)
]

same_message_sym : (a b : NormalizedInbound) → same_message a b ≡ same_message b a
same_message_sym a b = ground arith

any-append :
    (f : Row → Bool) (rs : List Row) (r : Row)
    → any f rs ≡ false
    → f r ≡ false
    → any f (rs ++ r ∷ []) ≡ false
any-append f [] r h k = ground arith
any-append f (x ∷ xs) r h k = ground (arith, any-append f xs r)

append-Unrepeated :
    (rs : List Row) (r : Row)
    → any (λ s. same_message s.inbound r.inbound) rs ≡ false
    → Unrepeated rs
    → Unrepeated (rs ++ r ∷ [])
append-Unrepeated [] r h u = (refl, tt)
append-Unrepeated (x ∷ xs) r h (u, us) = (
  any-append (λ s. same_message s.inbound x.inbound) xs r u
      (ground (arith, same_message_sym r.inbound x.inbound)),
  append-Unrepeated xs r (ground arith) us,
)

pub enqueue-Inv :
    (q : Queue) (m : NormalizedInbound) (key : AttachmentKey) (now : ℕ)
    → Inv q
    → Inv (enqueue q m key now).0
unfolding enqueue size
enqueue-Inv q m key now v = elim (Bool-cases (leb q.max_entries (length q.rows))) [
  | inl full ↦ rw full v
  | inr room ↦ rw room (elim (Bool-cases (conflicts q m)) [
    | inl same ↦ rw same (record {
      rising = Rising-raise 0 q.next_id q.rows v.rising;
      bounded = v.bounded;
      unrepeated = v.unrepeated;
    })
    | inr fresh ↦ rw fresh (record {
      rising = Rising-append 0 q.rows _ v.rising;
      bounded = rw (length-append q.rows) (ground arith);
      unrepeated = append-Unrepeated q.rows _ fresh v.unrepeated;
    })
  ])
]

length-keep-le : (p : Row → Bool) (rs : List Row) → length (keep p rs) ≤ length rs
length-keep-le p [] = omega arith
length-keep-le p (x ∷ xs) = ground (arith, length-keep-le p xs)

pub drain-Inv : (q : Queue) (key : AttachmentKey) → Inv q → Inv (drain q key).0
unfolding drain
drain-Inv q key v =
    elim (Bool-cases (leb 1 (length (order_by by_id (keep (parked_for key) q.rows))))) [
      | inl some_rows ↦ rw some_rows (record {
        rising = keep-Rising (λ r. not (parked_for key r)) 0 q.next_id q.rows v.rising;
        bounded = omega (arith, length-keep-le (λ r. not (parked_for key r)) q.rows, v.bounded);
        unrepeated = keep-Unrepeated (λ r. not (parked_for key r)) q.rows v.unrepeated;
      })
      | inr none_found ↦ rw none_found v
    ]

conflict_refused :
    (q : Queue) (m : NormalizedInbound) (key : AttachmentKey) (now : ℕ)
    → conflicts q m ≡ true
    → ((enqueue q m key now).0.rows ≡ q.rows)
      × ((enqueue q m key now).1 ≡ (if leb q.max_entries (size q) then queue_full else duplicate))
unfolding enqueue
conflict_refused q m key now e = (ground arith, ground arith)

pub step-Inv : (q : Queue) (c : Call) → Inv q → Inv (step q c)
unfolding step
step-Inv q (put m key now) v = enqueue-Inv q m key now v
step-Inv q (take_all key) v = drain-Inv q key v

steps-Inv : (cs : List Call) (q : Queue) → Inv q → Inv (fold_left step q cs)
steps-Inv [] q v = v
steps-Inv (c ∷ cs) q v = steps-Inv cs (step q c) (step-Inv q c v)

-- Whatever is enqueued and drained, in any order, from a new table on: its rows are in the order of their
-- ids, each below the next id, at most `max_entries`, and no two of them hold the same message; and a
-- message of which a row waits is refused, whatever slot the retry names: the rows stay as they are, and
-- the answer is `duplicate`, or `queue_full` where the queue is full.
pub run-Inv :
    (max_entries : ℕ) (cs : List Call)
    → let q = fold_left step (new_queue max_entries) cs in
      Inv q
      × ((m : NormalizedInbound) (key : AttachmentKey) (now : ℕ)
          → conflicts q m ≡ true
          → ((enqueue q m key now).0.rows ≡ q.rows)
            × ((enqueue q m key now).1
                ≡ (if leb q.max_entries (size q) then queue_full else duplicate)))
run-Inv max_entries cs = (
  steps-Inv cs (new_queue max_entries)
      (record { rising = omega arith; bounded = omega arith; unrepeated = tt }),
  conflict_refused (fold_left step (new_queue max_entries) cs),
)

Rising-IsOrdered : (lo hi : ℕ) (rs : List Row) → Rising lo hi rs → IsOrdered by_id rs
Rising-IsOrdered lo hi [] h = tt
Rising-IsOrdered lo hi (x ∷ []) h = tt
Rising-IsOrdered lo hi (x ∷ y ∷ r) h = (ground arith, Rising-IsOrdered (suc x.id) hi (y ∷ r) h.1)

drained_in_order :
    (q : Queue) (key : AttachmentKey)
    → Inv q
    → order_by by_id (keep (parked_for key) q.rows) ≡ keep (parked_for key) q.rows
drained_in_order q key v =
    order_by_ordered by_id (keep (parked_for key) q.rows)
      (Rising-IsOrdered 0 q.next_id _ (keep-Rising (parked_for key) 0 q.next_id q.rows v.rising))

keep_all :
    (p : Row → Bool) (rs : List Row)
    → leb 1 (length (keep p rs)) ≡ false
    → keep (λ r. not (p r)) rs ≡ rs
keep_all p [] h = refl
keep_all p (x ∷ xs) h = ground (arith, keep_all p xs)

keep_none : (p : Row → Bool) (rs : List Row) → keep p (keep (λ r. not (p r)) rs) ≡ []
keep_none p [] = refl
keep_none p (x ∷ xs) = ground (arith, keep_none p xs)

-- From a queue that meets the invariant, what is drained is every message parked for the slot, in
-- the order of arrival; what stays is every other row, as it was.
pub drain_fifo :
    (q : Queue) (key : AttachmentKey)
    → Inv q
    → ((drain q key).1 ≡ map (λ r. (r.id, r.inbound)) (keep (parked_for key) q.rows))
      × ((drain q key).0 ≡ record q { rows = keep (λ r. not (parked_for key r)) q.rows })
unfolding drain
drain_fifo q key v = rw (drained_in_order q key v) (
  refl,
  elim (Bool-cases (leb 1 (length (keep (parked_for key) q.rows)))) [
    | inl found ↦ rw found refl
    | inr nothing ↦ rw (nothing, keep_all (parked_for key) q.rows nothing) refl
  ],
)

-- In a queue that meets the invariant, draining a slot leaves nothing parked for it.
pub drain_twice : (q : Queue) (key : AttachmentKey) → Inv q → (drain (drain q key).0 key).1 ≡ []
drain_twice q key v =
    (drain_fifo (drain q key).0 key (drain-Inv q key v)).0
    ∙ ap (λ (t : Queue). map (λ r. (r.id, r.inbound)) (keep (parked_for key) t.rows))
        (drain_fifo q key v).1
    ∙ ap (map (λ r. (r.id, r.inbound))) (keep_none (parked_for key) q.rows)
