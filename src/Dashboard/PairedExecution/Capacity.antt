-- ===== src/Dashboard/PairedExecution/Capacity.antt =====
-- The limit of active runs of a runner.
use athena_flow_cli.Common.{
  ◌<◌, ℕ, ◌≤◌, Option, none, String, List, [], ◌∷◌, ◌++◌, string_eq, true, leb, length, is_some,
  arith, ◌≡◌, refl, ◌∙◌, Bool-cases, inl, inr, Option-cases, fold_left, ==_refl, subst,
}
use athena_flow_cli.Common.Dict.{get}
use athena_flow_cli.Dashboard.PairedExecution.{
  Rejection, RunRecord, PairedExecution, new_paired_execution, admit_assignment, admit, new_active,
  cancel_run, run_settles, end_run, cancel_entry, bucket_of, stop, Call, assign, reject, cancel,
  settles, stops, step, reject_assignment, record_run,
}
use athena_flow_cli.Dashboard.PairedExecution.Buckets.{runs_of, runs_of-new, Inv}
use athena_flow_cli.Dashboard.PairedExecution.{
  duplicate_rejection, capacity_rejection, RejectedReason, Rejection, accepted, admission_rejected,
  duplicate, local_capacity, malformed_assignment, workspace_unresolved, workspace_invalid,
  Admission,
}
use athena_flow_cli.Dashboard.PairedExecution.Kept.{
  admit-Inv, end_run-Inv, cancel_entry-Inv, stop-Inv,
}

-- A rejected assignment only adds to the history.
record_run-Inv : (r : RunRecord) (e : PairedExecution) → Inv e → Inv (record_run r e)
record_run-Inv r e v = record {
  distinct = unfold record_run in v.distinct;
  buckets = λ k. unfold record_run in unfold bucket_of in v.buckets k;
  bounded = λ k. unfold record_run in v.bounded k;
}

reject_assignment-Inv :
    (id : String) (rejection : Rejection) (now : ℕ) (e : PairedExecution)
    → Inv e
    → Inv (reject_assignment id rejection now e)
reject_assignment-Inv id rejection now e v = unfold reject_assignment in record_run-Inv _ e v

admit_assignment-Inv :
    (id runner : String) (now : ℕ) (e : PairedExecution)
    → Inv e
    → Inv (admit_assignment id runner now e).0
unfolding admit_assignment
admit_assignment-Inv id runner now e v = elim (Bool-cases (is_some (get id e.active))) [
  | inl p ↦ rw p (reject_assignment-Inv id (duplicate_rejection id) now e v)
  | inr p ↦ elim (Bool-cases (leb e.max_concurrent_runs (length (bucket_of runner e)))) [
    | inl q ↦ rw (p, q) (reject_assignment-Inv id (capacity_rejection runner e) now e v)
    | inr q ↦ rw (p, q) (admit-Inv id runner now e (ground arith) q v)
  ]
]

cancel_run-Inv : (id : String) (e : PairedExecution) → Inv e → Inv (cancel_run id e).0
unfolding cancel_run
cancel_run-Inv id e v = elim (Option-cases (get id e.active)) [
  | inl p ↦ rw (p, cancel_run) v
  | inr (a, p) ↦ rw (p, cancel_run) (cancel_entry-Inv id a e p v)
]

run_settles-Inv :
    (id : String) (reason : Option String) (now : ℕ) (e : PairedExecution)
    → Inv e
    → Inv (run_settles id reason now e)
unfolding run_settles
run_settles-Inv id reason now e v = elim (Option-cases (get id e.active)) [
  | inl p ↦ rw (p, run_settles) v
  | inr (a, p) ↦ rw (p, run_settles) (end_run-Inv id reason now a e p v)
]

step-Inv : (e : PairedExecution) (c : Call) → Inv e → Inv (step e c)
unfolding step
step-Inv e (assign id runner now) v = admit_assignment-Inv id runner now e v
step-Inv e (reject id reason now) v = reject_assignment-Inv id reason now e v
step-Inv e (cancel id) v = cancel_run-Inv id e v
step-Inv e (settles id reason now) v = run_settles-Inv id reason now e v
step-Inv e stops v = stop-Inv e v

step-max : (e : PairedExecution) (c : Call) → (step e c).max_concurrent_runs ≡ e.max_concurrent_runs
unfolding step admit_assignment reject_assignment record_run admit cancel_run cancel_entry
    run_settles end_run stop
step-max e (assign id runner now) = ground arith
step-max e (reject id reason now) = refl
step-max e (cancel id) = ground arith
step-max e (settles id reason now) = ground arith
step-max e stops = refl

steps-Inv :
    (cs : List Call) (e : PairedExecution)
    → Inv e
    → Inv (fold_left step e cs)
      × ((fold_left step e cs).max_concurrent_runs ≡ e.max_concurrent_runs)
steps-Inv [] e v = (v, refl)
steps-Inv (c ∷ cs) e v =
    let (w, m) = steps-Inv cs (step e c) (step-Inv e c v) in (w, m ∙ step-max e c)

-- What the rejection of an assignment says of the active runs.
abbrev pub Refused : PairedExecution → String → String → RejectedReason → Type 0
Refused e id runner duplicate = is_some (get id e.active) ≡ true
Refused e id runner local_capacity = length (runs_of runner e.active) ≡ e.max_concurrent_runs
Refused e id runner malformed_assignment = ⊥
Refused e id runner workspace_unresolved = ⊥
Refused e id runner workspace_invalid = ⊥

-- What an assignment's admission says of the active runs before and after it.
abbrev pub Admits : PairedExecution → String → String → PairedExecution → Admission → Type 0
Admits e id runner e' accepted =
    (get id e.active ≡ none)
    × (length (runs_of runner e.active) < e.max_concurrent_runs)
    × (runs_of runner e'.active ≡ runs_of runner e.active ++ id ∷ [])
Admits e id runner e' (admission_rejected r) = Refused e id runner r.reason × (e'.active ≡ e.active)

admit_assignment-Admits :
    (id runner : String) (now : ℕ) (e : PairedExecution)
    → Inv e
    → Admits e id runner (admit_assignment id runner now e).0 (admit_assignment id runner now e).1
unfolding admit_assignment reject_assignment record_run admit
admit_assignment-Admits id runner now e v = elim (Bool-cases (is_some (get id e.active))) [
  | inl p ↦ rw p (p, refl)
  | inr p ↦ elim (Bool-cases (leb e.max_concurrent_runs (length (bucket_of runner e)))) [
    | inl q ↦ rw (p, q) (ground (arith, v.buckets runner, v.bounded runner), refl)
    | inr q ↦
        rw (p, q)
          (
            ground arith,
            ground (arith, v.buckets runner),
            ground (
              arith,
              runs_of-new runner id (new_active runner e) e.active (ground arith),
              ==_refl runner,
            ),
          )
  ]
]

-- After any assignments, rejections, cancellations, settled runs and stops: no runner has more active
-- runs than the limit; an assignment is accepted only when its run is not active and its runner has
-- fewer, and then its run comes behind the runner's others; it is rejected as a duplicate only when its
-- run is active, and for capacity only when its runner has exactly the limit, and then the active runs
-- stay as they are.
pub admit_assignment-Capped :
    (max limit : ℕ) (calls : List Call) (id runner : String) (now : ℕ)
    → let e = fold_left step (new_paired_execution max limit) calls in
      ((r : String) → length (runs_of r e.active) ≤ max)
      × Admits e id runner (admit_assignment id runner now e).0 (admit_assignment id runner now e).1
admit_assignment-Capped max limit calls id runner now =
    let (v, m) = steps-Inv calls (new_paired_execution max limit) (record {
      distinct = tt;
      buckets = λ r. unfold bucket_of in unfold get in refl;
      bounded = λ r. omega arith;
    }) in
    (
      λ r.
          subst
            (λ n.
              length (runs_of r (fold_left step (new_paired_execution max limit) calls).active) ≤ n)
            m (v.bounded r),
      admit_assignment-Admits id runner now _ v,
    )
