-- ===== src/Dashboard/PairedExecution/Buckets.antt =====
-- The runner's sets, beside the active runs.
use athena_flow_cli.Common.{
  suc, ◌≤◌, none, some, String, List, [], ◌∷◌, ◌++◌, if◌then◌else◌, ◌==◌, string_eq, Bool, true,
  false, not, length, keep, map, any, arith, ◌≡◌, refl, Bool-cases, inl, inr, eq_of_==,
}
use athena_flow_cli.Common.Dict.{Dict, get, set, delete, Distinct}
use athena_flow_cli.Dashboard.PairedExecution.{ActiveRun, PairedExecution, bucket_of}

-- The ids of the active runs of a runner, in the order of their assignment.
abbrev pub runs_of : String → Dict String ActiveRun → List String
runs_of runner [] = []
runs_of runner ((id, a) ∷ m) =
    let rest = runs_of runner m in if a.runner_key == runner then id ∷ rest else rest

pub runs_of-absent :
    (runner id : String) (m : Dict String ActiveRun)
    → get id m ≡ none
    → any (λ i. i == id) (runs_of runner m) ≡ false
unfolding get
runs_of-absent runner id [] h = refl
runs_of-absent runner id ((j, a) ∷ m) h = ground (arith, runs_of-absent runner id m)

pub runs_of-new :
    (runner id : String) (a : ActiveRun) (m : Dict String ActiveRun)
    → get id m ≡ none
    → runs_of runner (set id a m)
      ≡ (if a.runner_key == runner then runs_of runner m ++ id ∷ [] else runs_of runner m)
unfolding get set
runs_of-new runner id a [] h = ground arith
runs_of-new runner id a ((j, b) ∷ m) h = ground (arith, runs_of-new runner id a m)

-- An entry that changes without its runner.
pub runs_of-same :
    (runner id : String) (a b : ActiveRun) (m : Dict String ActiveRun)
    → get id m ≡ some a
    → b.runner_key ≡ a.runner_key
    → runs_of runner (set id b m) ≡ runs_of runner m
unfolding get set
runs_of-same runner id a b [] h e = absurd (ground arith)
runs_of-same runner id a b ((j, c) ∷ m) h e = ground (arith, runs_of-same runner id a b m)

pub runs_of-stop :
    (runner : String) (m : Dict String ActiveRun)
    → runs_of runner (map (λ (x : String × ActiveRun). (x.0, record x.1 { aborted = true })) m)
      ≡ runs_of runner m
runs_of-stop runner [] = refl
runs_of-stop runner ((j, a) ∷ m) = ground (arith, runs_of-stop runner m)

pub keep_absent :
    (id : String) (ids : List String)
    → any (λ i. i == id) ids ≡ false
    → keep (λ i. not (i == id)) ids ≡ ids
keep_absent id [] h = refl
keep_absent id (i ∷ ids) h = ground (arith, keep_absent id ids)

pub runs_of-delete :
    (runner id : String) (m : Dict String ActiveRun)
    → runs_of runner (delete id m) ≡ keep (λ i. not (i == id)) (runs_of runner m)
unfolding delete
runs_of-delete runner id [] = refl
runs_of-delete runner id ((j, a) ∷ m) = ground (arith, runs_of-delete runner id m)

-- A run of another runner is in no other set.
pub runs_of-elsewhere :
    (runner id : String) (a : ActiveRun) (m : Dict String ActiveRun)
    → Distinct m
    → get id m ≡ some a
    → (a.runner_key == runner) ≡ false
    → any (λ i. i == id) (runs_of runner m) ≡ false
unfolding get
runs_of-elsewhere runner id a [] d h e = refl
runs_of-elsewhere runner id a ((j, b) ∷ m) d h e = elim (Bool-cases (j == id)) [
  | inl p ↦ ground (arith, runs_of-absent runner id m, eq_of_== j id p)
  | inr p ↦ ground (arith, runs_of-elsewhere runner id a m d.1)
]

-- Every set is the list of its runner's active runs, which are no more than the limit.
pub record Inv (e : PairedExecution) : Type 0 where
  pub distinct : Distinct e.active
  pub buckets : (runner : String) → bucket_of runner e ≡ runs_of runner e.active
  pub bounded : (runner : String) → length (runs_of runner e.active) ≤ e.max_concurrent_runs

unfoldable pub stopped_runs : Dict String ActiveRun → Dict String ActiveRun
stopped_runs m = map (λ (x : String × ActiveRun). (x.0, record x.1 { aborted = true })) m

get-stopped :
    (id : String) (m : Dict String ActiveRun) → get id m ≡ none → get id (stopped_runs m) ≡ none
unfolding get stopped_runs
get-stopped id [] h = refl
get-stopped id ((j, a) ∷ m) h = ground (arith, get-stopped id m)

pub stopped_runs-Distinct : (m : Dict String ActiveRun) → Distinct m → Distinct (stopped_runs m)
unfolding stopped_runs
stopped_runs-Distinct [] d = tt
stopped_runs-Distinct ((j, a) ∷ m) d = (get-stopped j m d.0, stopped_runs-Distinct m d.1)

-- The limit for one runner, when a run is added to another's or to its own.
pub length-append_one :
    (ids : List String) (id : String) → length (ids ++ id ∷ []) ≡ suc (length ids)
length-append_one [] id = refl
length-append_one (i ∷ ids) id = ground (arith, length-append_one ids id)

pub length-keep : (p : String → Bool) (ids : List String) → length (keep p ids) ≤ length ids
length-keep p [] = omega arith
length-keep p (i ∷ ids) = ground (arith, length-keep p ids)
