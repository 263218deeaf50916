-- ===== src/Dashboard/PairedExecution/Kept.antt =====
-- What an admission, an end, a cancellation and a stop do to the runners' sets.
use athena_flow_cli.Common.{
  ℕ, ◌≤◌, Option, none, some, String, List, [], ◌∷◌, if◌then◌else◌, ◌==◌, string_eq, true, false,
  not, leb, length, keep, or_else, arith, ◌≡◌, refl, sym, ◌∙◌, Bool-cases, inl, inr, eq_of_==,
  ==_refl, subst,
}
use athena_flow_cli.Common.Dict.{
  Dict, get, set, delete, get-set, get-delete, set-Distinct, delete-Distinct,
}
use athena_flow_cli.Dashboard.PairedExecution.{
  ActiveRun, PairedExecution, admit, new_active, end_run, cancel_entry, leave_bucket, bucket_of,
  add_run, stop, record_run, cancelled,
}
use athena_flow_cli.Dashboard.PairedExecution.Buckets.{
  runs_of, runs_of-absent, runs_of-new, runs_of-same, runs_of-stop, keep_absent, runs_of-delete,
  runs_of-elsewhere, stopped_runs, stopped_runs-Distinct, length-append_one, length-keep, Inv,
}

-- The sets and the active runs of each runner after an admission.
bucket_of-admit_own :
    (id runner : String) (now : ℕ) (e : PairedExecution)
    → get id e.active ≡ none
    → Inv e
    → bucket_of runner (admit id runner now e) ≡ runs_of runner (admit id runner now e).active
unfolding admit record_run bucket_of
bucket_of-admit_own id runner now e h v = ground (
  arith,
  runs_of-new runner id (new_active runner e) e.active h,
  runs_of-absent runner id e.active h,
  v.buckets runner,
  get-set runner runner (add_run id (bucket_of runner e)) e.active_by_runner,
  ==_refl runner,
)

bucket_of-admit :
    (id runner r : String) (now : ℕ) (e : PairedExecution)
    → get id e.active ≡ none
    → Inv e
    → bucket_of r (admit id runner now e) ≡ runs_of r (admit id runner now e).active
unfolding admit record_run bucket_of
bucket_of-admit id runner r now e h v = elim (Bool-cases (runner == r)) [
  | inl p ↦
      subst (λ k. bucket_of k (admit id runner now e) ≡ runs_of k (admit id runner now e).active)
        (eq_of_== runner r p) (bucket_of-admit_own id runner now e h v)
  | inr p ↦ ground (
    arith,
    runs_of-new r id (new_active runner e) e.active h,
    v.buckets r,
    get-set runner r (add_run id (bucket_of runner e)) e.active_by_runner,
  )
]

length-admit :
    (id runner r : String) (now : ℕ) (e : PairedExecution)
    → get id e.active ≡ none
    → leb e.max_concurrent_runs (length (bucket_of runner e)) ≡ false
    → Inv e
    → length (runs_of r (admit id runner now e).active) ≤ e.max_concurrent_runs
unfolding admit record_run
length-admit id runner r now e h l v = elim (Bool-cases (runner == r)) [
  | inl p ↦ ground (
    arith,
    runs_of-new r id (new_active runner e) e.active h,
    v.buckets runner,
    eq_of_== runner r p,
    length-append_one (runs_of r e.active) id,
  )
  | inr p ↦ ground (arith, runs_of-new r id (new_active runner e) e.active h, v.bounded r)
]

pub admit-Inv :
    (id runner : String) (now : ℕ) (e : PairedExecution)
    → get id e.active ≡ none
    → leb e.max_concurrent_runs (length (bucket_of runner e)) ≡ false
    → Inv e
    → Inv (admit id runner now e)
admit-Inv id runner now e h l v = record {
  distinct = unfold admit record_run in set-Distinct id _ e.active v.distinct;
  buckets = λ r. bucket_of-admit id runner r now e h v;
  bounded = λ r. unfold admit record_run in length-admit id runner r now e h l v;
}

-- A runner's set once a run has left it.
empty_of_length : (ids : List String) → leb (length ids) 0 ≡ true → ids ≡ []
empty_of_length [] h = refl
empty_of_length (i ∷ ids) h = absurd (ground arith)

get-leave_bucket :
    (runner id r : String) (o : Option (List String)) (buckets : Dict String (List String))
    → get runner buckets ≡ o
    → or_else (get r (leave_bucket runner o id buckets)) [] ≡ (
        if runner == r
        then keep (λ i. not (i == id)) (or_else o [])
        else or_else (get r buckets) [])
unfolding leave_bucket
get-leave_bucket runner id r none buckets h = ground (arith, eq_of_== runner r)
get-leave_bucket runner id r (some ids) buckets h =
    elim (Bool-cases (leb (length (keep (λ i. not (i == id)) ids)) 0)) [
      | inl z ↦ rw z (
          ground
            (arith, get-delete runner r buckets, empty_of_length (keep (λ i. not (i == id)) ids) z))
      | inr z ↦ rw z (ground (arith, get-set runner r (keep (λ i. not (i == id)) ids) buckets))
    ]

-- The set and the active runs of each runner, once a run has ended.
bucket_of-end_run :
    (id r : String) (reason : Option String) (now : ℕ) (a : ActiveRun) (e : PairedExecution)
    → get id e.active ≡ some a
    → Inv e
    → bucket_of r (end_run id reason now a e) ≡ runs_of r (delete id e.active)
unfolding end_run bucket_of
bucket_of-end_run id r reason now a e h v =
    get-leave_bucket a.runner_key id r (get a.runner_key e.active_by_runner) e.active_by_runner refl
    ∙ remaining
    ∙ sym (runs_of-delete r id e.active)
  where
    remaining :
        (if a.runner_key == r
          then keep (λ i. not (i == id)) (or_else (get a.runner_key e.active_by_runner) [])
          else or_else (get r e.active_by_runner) [])
        ≡ keep (λ i. not (i == id)) (runs_of r e.active)
    remaining = elim (Bool-cases (a.runner_key == r)) [
      | inl p ↦ rw p (ground (arith, v.buckets r, eq_of_== a.runner_key r p))
      | inr p ↦ rw p (
          v.buckets r
          ∙ sym (
              keep_absent id (runs_of r e.active)
                (runs_of-elsewhere r id a e.active v.distinct h p)))
    ]

pub end_run-Inv :
    (id : String) (reason : Option String) (now : ℕ) (a : ActiveRun) (e : PairedExecution)
    → get id e.active ≡ some a
    → Inv e
    → Inv (end_run id reason now a e)
end_run-Inv id reason now a e h v = record {
  distinct = unfold end_run in delete-Distinct id e.active v.distinct;
  buckets = λ r. unfold end_run in bucket_of-end_run id r reason now a e h v;
  bounded = λ r.
      unfold end_run in
      ground (
        arith,
        runs_of-delete r id e.active,
        length-keep (λ i. not (i == id)) (runs_of r e.active),
        v.bounded r,
      );
}

pub cancel_entry-Inv :
    (id : String) (a : ActiveRun) (e : PairedExecution)
    → get id e.active ≡ some a
    → Inv e
    → Inv (cancel_entry id a e)
cancel_entry-Inv id a e h v = record {
  distinct = unfold cancel_entry in set-Distinct id _ e.active v.distinct;
  buckets = λ r. unfold cancel_entry in unfold bucket_of in (v.buckets r ∙ sym (kept r));
  bounded = λ r.
      unfold cancel_entry in
      subst (λ ids. length ids ≤ e.max_concurrent_runs) (sym (kept r)) (v.bounded r);
}
  where
    kept :
        (r : String)
        → runs_of r (set id (record a { status = cancelled; aborted = true }) e.active)
          ≡ runs_of r e.active
    kept r = runs_of-same r id a (record a { status = cancelled; aborted = true }) e.active h refl

pub stop-Inv : (e : PairedExecution) → Inv e → Inv (stop e)
stop-Inv e v = record {
  distinct = unfold stop in unfold stopped_runs in stopped_runs-Distinct e.active v.distinct;
  buckets = λ r. unfold stop in unfold bucket_of in (v.buckets r ∙ sym (runs_of-stop r e.active));
  bounded = λ r. unfold stop in ground (arith, runs_of-stop r e.active, v.bounded r);
}
