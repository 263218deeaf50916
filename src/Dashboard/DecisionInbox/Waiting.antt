-- ===== src/Dashboard/DecisionInbox/Waiting.antt =====
-- The rows that wait for a request in src/app/dashboard/dashboardDecisionInbox.ts.
use athena_flow_cli.Common.{
  ℕ, suc, ◌≤◌, String, Option, some, List, [], ◌∷◌, ◌++◌, ◌==◌, string_eq, nat_eq, Bool, true,
  false, ==-true_of_eq, is_some, any, find, map, ◌≡◌, refl, arith, Bool-cases, inl, inr, fold_left,
}
use athena_flow_cli.Dashboard.DecisionInbox.{
  Row, Inbox, Decision, new_inbox, waits, refresh, new_row, enqueue, consume, mark_consumed, Call,
  put, mark, step,
}

module _ {D : Type 0} where
  -- The decision that waits for a request.
  abbrev pub waiting : String → String → List (Row D) → Option (Row D)
  waiting session request rows = find (waits session request) rows

  -- The rows stand in the order of their ids, below `n`.
  abbrev pub Ascending : ℕ → ℕ → List (Row D) → Type 0
  Ascending low n [] = low ≤ n
  Ascending low n (r ∷ rs) = (low ≤ r.id) × Ascending (suc r.id) n rs

  -- No request has a second waiting row.
  abbrev pub Single : List (Row D) → Type 0
  Single [] = Unit
  Single (r ∷ rs) =
      (is_some r.consumed_at ≡ false → any (waits r.athena_session_id r.request_id) rs ≡ false)
      × Single rs

  pub record Inv (inbox : Inbox D) : Type 0 where
    pub ascending : Ascending 1 inbox.next_id inbox.rows
    pub single : Single inbox.rows

  Ascending-raise : (low n : ℕ) (rs : List (Row D)) → Ascending low n rs → Ascending low (suc n) rs
  Ascending-raise low n [] h = omega arith
  Ascending-raise low n (r ∷ rs) (h, k) = (h, Ascending-raise (suc r.id) n rs k)

  Ascending-refresh :
      (d : Decision D) (low n : ℕ) (rs : List (Row D))
      → Ascending low n rs
      → Ascending low n (map (refresh d) rs)
  Ascending-refresh d low n [] h = h
  Ascending-refresh d low n (r ∷ rs) (h, k) =
      elim (Bool-cases (waits d.athena_session_id d.request_id r)) [
        | inl e ↦ rw e (h, Ascending-refresh d (suc r.id) n rs k)
        | inr e ↦ rw e (h, Ascending-refresh d (suc r.id) n rs k)
      ]

  Ascending-consume :
      (now id low n : ℕ) (rs : List (Row D))
      → Ascending low n rs
      → Ascending low n (map (consume now id) rs)
  Ascending-consume now id low n [] h = h
  Ascending-consume now id low n (r ∷ rs) (h, k) = elim (Bool-cases (r.id == id)) [
    | inl e ↦ rw e (h, Ascending-consume now id (suc r.id) n rs k)
    | inr e ↦ rw e (h, Ascending-consume now id (suc r.id) n rs k)
  ]

  Ascending-append :
      (d : Decision D) (low n : ℕ) (rs : List (Row D))
      → Ascending low n rs
      → Ascending low (suc n) (rs ++ new_row n d ∷ [])
  Ascending-append d low n [] h = (h, omega arith)
  Ascending-append d low n (r ∷ rs) (h, k) = (h, Ascending-append d (suc r.id) n rs k)

  any-refresh :
      (d : Decision D) (s q : String) (rs : List (Row D))
      → any (waits s q) (map (refresh d) rs) ≡ any (waits s q) rs
  any-refresh d s q [] = refl
  any-refresh d s q (r ∷ rs) = elim (Bool-cases (waits d.athena_session_id d.request_id r)) [
    | inl e ↦ rw (e, any-refresh d s q rs) refl
    | inr e ↦ rw (e, any-refresh d s q rs) refl
  ]

  any-consume :
      (now id : ℕ) (s q : String) (rs : List (Row D))
      → any (waits s q) rs ≡ false
      → any (waits s q) (map (consume now id) rs) ≡ false
  any-consume now id s q [] h = refl
  any-consume now id s q (r ∷ rs) h = elim (Bool-cases (r.id == id)) [
    | inl e ↦ rw e (ground (arith, any-consume now id s q rs))
    | inr e ↦ rw e (ground (arith, any-consume now id s q rs))
  ]

  Single-refresh : (d : Decision D) (rs : List (Row D)) → Single rs → Single (map (refresh d) rs)
  Single-refresh d [] h = tt
  Single-refresh d (r ∷ rs) (h, k) = elim (Bool-cases (waits d.athena_session_id d.request_id r)) [
    | inl e ↦ rw (e, any-refresh d r.athena_session_id r.request_id rs) (h, Single-refresh d rs k)
    | inr e ↦ rw (e, any-refresh d r.athena_session_id r.request_id rs) (h, Single-refresh d rs k)
  ]

  Single-consume : (now id : ℕ) (rs : List (Row D)) → Single rs → Single (map (consume now id) rs)
  Single-consume now id [] h = tt
  Single-consume now id (r ∷ rs) (h, k) = elim (Bool-cases (r.id == id)) [
    | inl e ↦ rw e (λ f. absurd (cc f), Single-consume now id rs k)
    | inr e ↦ rw e (
      λ f. any-consume now id r.athena_session_id r.request_id rs (h f),
      Single-consume now id rs k,
    )
  ]

  any-append_false :
      (p : Row D → Bool) (rs : List (Row D)) (r : Row D)
      → any p rs ≡ false
      → p r ≡ false
      → any p (rs ++ r ∷ []) ≡ false
  any-append_false p [] r h k = rw k refl
  any-append_false p (q ∷ rs) r h k = ground (arith, any-append_false p rs r)

  waits-new_row :
      (n : ℕ) (d : Decision D) (r : Row D)
      → waits d.athena_session_id d.request_id r ≡ false
      → is_some r.consumed_at ≡ false
      → waits r.athena_session_id r.request_id (new_row n d) ≡ false
  waits-new_row n d r h k = ground arith

  Single-append :
      (n : ℕ) (d : Decision D) (rs : List (Row D))
      → any (waits d.athena_session_id d.request_id) rs ≡ false
      → Single rs
      → Single (rs ++ new_row n d ∷ [])
  Single-append n d [] f h = (λ e. refl, tt)
  Single-append n d (r ∷ rs) f (h, k) = (
    λ e.
        any-append_false (waits r.athena_session_id r.request_id) rs (new_row n d) (h e)
          (waits-new_row n d r (ground arith) e),
    Single-append n d rs (ground arith) k,
  )

  step-Inv : (c : Call D) (inbox : Inbox D) → Inv inbox → Inv (step inbox c)
  unfolding step enqueue mark_consumed
  step-Inv (put d) inbox v =
      elim (Bool-cases (any (waits d.athena_session_id d.request_id) inbox.rows)) [
        | inl e ↦ rw e (record {
          ascending =
              Ascending-raise 1 inbox.next_id _
                (Ascending-refresh d 1 inbox.next_id inbox.rows v.ascending);
          single = Single-refresh d inbox.rows v.single;
        })
        | inr e ↦ rw e (record {
          ascending = Ascending-append d 1 inbox.next_id inbox.rows v.ascending;
          single = Single-append inbox.next_id d inbox.rows e v.single;
        })
      ]
  step-Inv (mark now id) inbox v = record {
    ascending = Ascending-consume now id 1 inbox.next_id inbox.rows v.ascending;
    single = Single-consume now id inbox.rows v.single;
  }

  -- The decision waits for its request.
  abbrev pub Waits : Decision D → List (Row D) → Type 0
  Waits d rows =
      (r : Row D) × (waiting d.athena_session_id d.request_id rows ≡ some r)
      × (r.decision ≡ d.decision)
      × (r.received_at ≡ d.received_at)

  refreshed-Waits :
      (d : Decision D) (rs : List (Row D))
      → any (waits d.athena_session_id d.request_id) rs ≡ true
      → Waits d (map (refresh d) rs)
  refreshed-Waits d [] h = cc
  refreshed-Waits d (r ∷ rs) h = elim (Bool-cases (waits d.athena_session_id d.request_id r)) [
    | inl e ↦
        rw e
          (record r { decision = d.decision; received_at = d.received_at }, rw e refl, refl, refl)
    | inr e ↦
        let (row, at, same, time) = refreshed-Waits d rs (ground (arith, h, e)) in
        rw e (row, rw (e, at) refl, same, time)
  ]

  appended-Waits :
      (n : ℕ) (d : Decision D) (rs : List (Row D))
      → any (waits d.athena_session_id d.request_id) rs ≡ false
      → Waits d (rs ++ new_row n d ∷ [])
  appended-Waits n d [] h = (
    new_row n d,
    rw
        (
          ==-true_of_eq d.athena_session_id d.athena_session_id refl,
          ==-true_of_eq d.request_id d.request_id refl,
        )
        refl,
    refl,
    refl,
  )
  appended-Waits n d (r ∷ rs) h =
      let (row, at, same, time) = appended-Waits n d rs (ground arith) in
      let here : waits d.athena_session_id d.request_id r ≡ false = ground arith in
      (row, rw (here, at) refl, same, time)

  put-Waits : (d : Decision D) (inbox : Inbox D) → Waits d (step inbox (put d)).rows
  unfolding step enqueue
  put-Waits d inbox = elim (Bool-cases (any (waits d.athena_session_id d.request_id) inbox.rows)) [
    | inl e ↦ rw e (refreshed-Waits d inbox.rows e)
    | inr e ↦ rw e (appended-Waits inbox.next_id d inbox.rows e)
  ]

  -- Whatever is put and consumed, the rows keep the order of their ids, each below the next id, and no
  -- request of a session has two decisions that wait; and a decision that is put then is the one that
  -- waits for its request, with the time it came, whether or not another waited before.
  pub step-reachable :
      (calls : List (Call D)) (d : Decision D)
      → let inbox = fold_left step new_inbox calls in Inv inbox × Waits d (step inbox (put d)).rows
  step-reachable calls d = (
    steps-Inv calls new_inbox (record { ascending = omega arith; single = tt }),
    put-Waits d (fold_left step new_inbox calls),
  )
    where
      steps-Inv : (cs : List (Call D)) (inbox : Inbox D) → Inv inbox → Inv (fold_left step inbox cs)
      steps-Inv [] inbox v = v
      steps-Inv (c ∷ cs) inbox v = steps-Inv cs (step inbox c) (step-Inv c inbox v)
