-- ===== src/Feed/RunLifecycle/Order.antt =====
-- The numbers and the runs of the events that src/core/feed/mapper.ts emits, as its run lifecycle gives
-- them out.
use athena_flow_cli.Common.{
  arith, sym, ◌∙◌, ◌≤◌, ◌<◌, ℕ, suc, String, Option, none, some, List, [], ◌∷◌, ◌++◌, ◌≡◌, refl,
  Bool-cases, inl, inr, ◌&&◌,
}
use mathlib.Core.Option.{map}
use athena_flow_cli.Feed.RunLifecycle.{
  RunId, Trigger, RunStatus, completed, Counter, Run, EventKind, run_start, run_end, plain, Event,
  RuntimeEvent, Lifecycle, counted,
}
use athena_flow_cli.Feed.RunLifecycle.Boundary.{
  Mapper, make_event, end_event, close_run_into_event, roll_over, begin_run, Call, start_session,
  stop_session, forget_session, begin, close, tally, emit, allocate, step, run_calls, is_open,
  is_other,
}

-- What a stored session must give back of an open run.
pub record Opening : Type 0 where
  pub run_id : RunId
  pub session_id : String
  pub started_at : ℕ
  pub trigger : Trigger

abbrev pub opening : Run → Opening
opening r = record {
  run_id = r.run_id;
  session_id = r.session_id;
  started_at = r.started_at;
  trigger = r.trigger;
}

abbrev pub opened_by : Event → Trigger → Opening
opened_by e t = record {
  run_id = e.run_id;
  session_id = e.session_id;
  started_at = e.ts;
  trigger = t;
}

-- Where a lifecycle stands.
pub record Place : Type 0 where
  pub open_run : Option Opening
  pub seq : ℕ
  pub run_seq : ℕ

abbrev pub place_of : Lifecycle → Place
place_of l = record { open_run = map opening l.current_run; seq = l.seq; run_seq = l.run_seq }

-- An event takes a later number; a run starts only when none is open and takes the next run number,
-- and ends only when it is open; every other event belongs to the current run number.
abbrev pub Follows : Place → Event → EventKind → Type 0
Follows p e (run_start t) =
    (p.seq < e.seq) × (e.run_id.number ≡ suc p.run_seq) × (p.open_run ≡ none)
Follows p e (run_end status counters) =
    (p.seq < e.seq) × (e.run_id.number ≡ p.run_seq) × ((o : Opening) × (p.open_run ≡ some o))
Follows p e (plain k) = (p.seq < e.seq) × (e.run_id.number ≡ p.run_seq)

abbrev pub after : Place → Event → EventKind → Place
after p e (run_start t) = record {
  open_run = some (opened_by e t);
  seq = e.seq;
  run_seq = suc p.run_seq;
}
after p e (run_end status counters) = record { open_run = none; seq = e.seq; run_seq = p.run_seq }
after p e (plain k) = record { open_run = p.open_run; seq = e.seq; run_seq = p.run_seq }

-- Only numbers that no event took may have passed.
abbrev pub Rests : Place → Place → Type 0
Rests p q = (p.open_run ≡ q.open_run) × (p.run_seq ≡ q.run_seq) × (p.seq ≤ q.seq)

abbrev pub Story : Place → List Event → Place → Type 0
Story p [] q = Rests p q
Story p (e ∷ es) q = Follows p e e.kind × Story (after p e e.kind) es q

Follows-earlier :
    (p q : Place) (e : Event) (kind : EventKind) → Rests p q → Follows q e kind → Follows p e kind
Follows-earlier p q e (run_start t) (o, r, s) (n, m, f) = (omega arith, rw r m, o ∙ f)
Follows-earlier p q e (run_end status counters) (o, r, s) (n, m, f) =
    (omega arith, rw r m, (f.0, o ∙ f.1))
Follows-earlier p q e (plain k) (o, r, s) (n, m) = (omega arith, rw r m)

after-earlier :
    (p q : Place) (e : Event) (kind : EventKind) → Rests p q → after p e kind ≡ after q e kind
after-earlier p q e (run_start t) (o, r, s) = rw r refl
after-earlier p q e (run_end status counters) (o, r, s) = rw r refl
after-earlier p q e (plain k) (o, r, s) = rw (o, r) refl

Story-earlier : (p q r : Place) (es : List Event) → Rests p q → Story q es r → Story p es r
Story-earlier p q r [] (o, n, s) (o', n', s') = (o ∙ o', n ∙ n', omega arith)
Story-earlier p q r (e ∷ es) h (f, k) =
    (Follows-earlier p q e e.kind h f, rw (after-earlier p q e e.kind h) k)

Story-append :
    (p q r : Place) (es fs : List Event) → Story p es q → Story q fs r → Story p (es ++ fs) r
Story-append p q r [] fs h k = Story-earlier p q r fs h k
Story-append p q r (e ∷ es) fs (f, h) k = (f, Story-append (after p e e.kind) q r es fs h k)

map-opening_counted :
    (name : Counter) (o : Option Run) → map opening (map (counted name) o) ≡ map opening o
map-opening_counted name none = refl
map-opening_counted name (some r) = refl

module _ {P : Type 0} (record_request : String → RunId × ℕ → EventKind → P → P)
    (reset_per_run_state : P → P) where
  abbrev Steps : Mapper P → Mapper P × List Event → Type 0
  Steps m (n, es) = Story (place_of m.lifecycle) es (place_of n.lifecycle)

  close_run_into_event-Steps :
      (rt : RuntimeEvent) (status : RunStatus) (m : Mapper P) (o : Option Run)
      → m.lifecycle.current_run ≡ o
      → Steps m (close_run_into_event record_request reset_per_run_state rt status m)
        × ((close_run_into_event record_request reset_per_run_state rt status
              m).0.lifecycle.current_run
            ≡ none)
  unfolding close_run_into_event end_event make_event
  close_run_into_event-Steps rt status m none h = rw h ((refl, refl, omega arith), refl)
  close_run_into_event-Steps rt status m (some r) h =
      rw h (((omega arith, refl, (opening r, refl)), (refl, refl, omega arith)), refl)

  roll_over-Steps :
      (rt : RuntimeEvent) (trigger : Trigger) (m : Mapper P)
      → Steps m (roll_over record_request reset_per_run_state rt trigger m)
  unfolding roll_over make_event
  roll_over-Steps rt trigger m =
      let (closing, closed) =
        close_run_into_event-Steps rt completed m m.lifecycle.current_run refl in
      Story-append _ _ _ _ _ closing
        ((omega arith, refl, rw closed refl), (refl, refl, omega arith))

  step-Steps : (c : Call) (m : Mapper P) → Steps m (step record_request reset_per_run_state c m)
  unfolding step begin_run make_event
  step-Steps (start_session s) m = (refl, refl, omega arith)
  step-Steps (stop_session ts) m = (refl, refl, omega arith)
  step-Steps forget_session m = (refl, refl, omega arith)
  step-Steps allocate m = (refl, refl, omega arith)
  step-Steps (begin rt trigger) m =
      elim (Bool-cases (is_open m.lifecycle.current_run && is_other trigger.type)) [
        | inl e ↦ rw e (refl, refl, omega arith)
        | inr e ↦ rw e (roll_over-Steps rt trigger m)
      ]
  step-Steps (close rt status) m =
      (close_run_into_event-Steps rt status m m.lifecycle.current_run refl).0
  step-Steps (tally name) m =
      (sym (map-opening_counted name m.lifecycle.current_run), refl, omega arith)
  step-Steps (emit kind rt) m = ((omega arith, refl), (refl, refl, omega arith))

  -- Whatever the mapper and the shell ask for, from any state on: each event that is emitted takes a
  -- higher number than the one before it, a run starts only when no run is open and takes the next run number, a run ends only
  -- when one is open, every other event carries the current run number, and the run number and the open
  -- run afterwards are those that these events describe, with an event number no lower than theirs.
  pub run_calls-Story :
      (cs : List Call) (m : Mapper P)
      → Story
          (place_of m.lifecycle)
          (run_calls record_request reset_per_run_state m cs).1
          (place_of (run_calls record_request reset_per_run_state m cs).0.lifecycle)
  unfolding run_calls
  run_calls-Story [] m = (refl, refl, omega arith)
  run_calls-Story (c ∷ cs) m =
      Story-append _ _ _ _ _ (step-Steps c m)
        (run_calls-Story cs (step record_request reset_per_run_state c m).0)
