-- ===== src/Feed/RunLifecycle/Restore.antt =====
-- A session that is restored from its events, beside the one that emitted them.
use athena_flow_cli.Common.{
  ◌<◌, ◌∙◌, ℕ, suc, ◌≤◌, String, Option, none, some, List, [], ◌∷◌, if◌then◌else◌, ltb, ◌≡◌, refl,
  arith, fold_left,
}
use mathlib.Core.Option.{map}
use athena_flow_cli.Feed.RunLifecycle.{
  RunId, Trigger, EventKind, run_start, run_end, plain, Event, Bootstrap, initial,
}
use athena_flow_cli.Feed.RunLifecycle.Resume.{
  Boundaries, raise, note_numbers, note_boundary, note_kind, reopen, restore_from,
}
use athena_flow_cli.Feed.RunLifecycle.Boundary.{Mapper, Call, run_calls}
use athena_flow_cli.Feed.RunLifecycle.Order.{
  Place, Opening, opening, opened_by, place_of, Follows, after, Story, run_calls-Story,
}

-- What the boundaries noted so far say of the open run.
abbrev still_open : Boundaries → Option Opening
still_open (none, stop) = none
still_open (some (e, t), none) = some (opened_by e t)
still_open (some (e, t), some stop) = if ltb stop.seq e.seq then some (opened_by e t) else none

abbrev StartsBy : Option (Event × Trigger) → ℕ → Type 0
StartsBy none n = Unit
StartsBy (some (e, t)) n = e.seq ≤ n

abbrev StopsBy : Option Event → ℕ → Type 0
StopsBy none n = Unit
StopsBy (some e) n = e.seq ≤ n

record Knows (n : ℕ × ℕ) (b : Boundaries) (p : Place) : Type 0 where
  seq_is : n.0 ≡ p.seq
  run_seq_is : n.1 ≡ p.run_seq
  open_run : still_open b ≡ p.open_run
  starts : StartsBy b.0 p.seq
  stops : StopsBy b.1 p.seq

still_open-start :
    (start : Option (Event × Trigger)) (stop : Option Event) (n : ℕ) (e : Event) (t : Trigger)
    → StopsBy stop n
    → n < e.seq
    → still_open (some (e, t), stop) ≡ some (opened_by e t)
still_open-start start none n e t h k = refl
still_open-start start (some stop) n e t h k = ground arith

still_open-stop :
    (start : Option (Event × Trigger)) (stop : Option Event) (n : ℕ) (e : Event)
    → StartsBy start n
    → n < e.seq
    → still_open (start, some e) ≡ none
still_open-stop none stop n e h k = refl
still_open-stop (some (d, t)) stop n e h k = ground arith

starts-later :
    (start : Option (Event × Trigger)) (n m : ℕ) → n < m → StartsBy start n → StartsBy start m
starts-later none n m l h = tt
starts-later (some (e, t)) n m l h = omega arith

stops-later : (stop : Option Event) (n m : ℕ) → n < m → StopsBy stop n → StopsBy stop m
stops-later none n m l h = tt
stops-later (some e) n m l h = omega arith

raise-next : (old n m : ℕ) → old ≡ n → m ≡ suc n → raise old m ≡ suc n
raise-next old n m h k = ground arith

raise-later : (old n m : ℕ) → old ≡ n → n < m → raise old m ≡ m
raise-later old n m h k = ground arith

raise-same : (old n m : ℕ) → old ≡ n → m ≡ n → raise old m ≡ n
raise-same old n m h k = ground arith

note_kind-Knows :
    (n : ℕ × ℕ) (b : Boundaries) (p : Place) (e : Event) (kind : EventKind)
    → Knows n b p
    → Follows p e kind
    → Knows (note_numbers n e) (note_kind b e kind) (after p e kind)
note_kind-Knows n (start, stop) p e (run_start t) h (s, r, o) = record {
  seq_is = raise-later n.0 p.seq e.seq h.seq_is s;
  run_seq_is = raise-next n.1 p.run_seq e.run_id.number h.run_seq_is r;
  open_run = still_open-start start stop p.seq e t h.stops s;
  starts = omega arith;
  stops = stops-later stop p.seq e.seq s h.stops;
}
note_kind-Knows n (start, stop) p e (run_end status counters) h (s, r, o) = record {
  seq_is = raise-later n.0 p.seq e.seq h.seq_is s;
  run_seq_is = raise-same n.1 p.run_seq e.run_id.number h.run_seq_is r;
  open_run = still_open-stop start stop p.seq e h.starts s;
  starts = starts-later start p.seq e.seq s h.starts;
  stops = omega arith;
}
note_kind-Knows n (start, stop) p e (plain k) h (s, r) = record {
  seq_is = raise-later n.0 p.seq e.seq h.seq_is s;
  run_seq_is = raise-same n.1 p.run_seq e.run_id.number h.run_seq_is r;
  open_run = h.open_run;
  starts = starts-later start p.seq e.seq s h.starts;
  stops = stops-later stop p.seq e.seq s h.stops;
}

-- The number of the last event, or `n`.
pub last_seq : ℕ → List Event → ℕ
last_seq n [] = n
last_seq n (e ∷ es) = last_seq e.seq es

-- What is known after the events: where the last of them left off.
record Told (n : ℕ × ℕ) (b : Boundaries) (last : ℕ) (q : Place) : Type 0 where
  seq_is : n.0 ≡ last
  seq_le : last ≤ q.seq
  run_seq_is : n.1 ≡ q.run_seq
  open_run : still_open b ≡ q.open_run

after-seq : (p : Place) (e : Event) (kind : EventKind) → (after p e kind).seq ≡ e.seq
after-seq p e (run_start t) = refl
after-seq p e (run_end status counters) = refl
after-seq p e (plain k) = refl

fold_left-Told :
    (es : List Event) (n : ℕ × ℕ) (b : Boundaries) (p q : Place)
    → Knows n b p
    → Story p es q
    → Told (fold_left note_numbers n es) (fold_left note_boundary b es) (last_seq p.seq es) q
unfolding last_seq
fold_left-Told [] n b p q h (o, r, s) = record {
  seq_is = h.seq_is;
  seq_le = s;
  run_seq_is = h.run_seq_is ∙ r;
  open_run = h.open_run ∙ o;
}
fold_left-Told (e ∷ es) n b p q h (f, k) = rw (after-seq p e e.kind) at (
    fold_left-Told es (note_numbers n e) (note_boundary b e) (after p e e.kind) q
      (note_kind-Knows n b p e e.kind h f) k)

opening-reopen :
    (events : List Event) (b : Boundaries) → map opening (reopen events b none) ≡ still_open b
opening-reopen events (none, stop) = refl
opening-reopen events (some (e, t), none) = refl
opening-reopen events (some (e, t), some stop) = ground arith

-- The stored session of a run of calls.
abbrev pub stored : List Event → List String → ℕ → Bootstrap
stored events adapter_session_ids created_at = record {
  feed_events = events;
  adapter_session_ids = adapter_session_ids;
  created_at = created_at;
}

abbrev pub fresh : {P : Type 0} → P → Mapper P
fresh p = record { lifecycle = initial; per_run = p }

module _ {P : Type 0} (record_request : String → RunId × ℕ → EventKind → P → P)
    (reset_per_run_state : P → P) where
  -- A lifecycle restored from all the events that were emitted since the mapper was new, whatever it
  -- was asked for, has the same run number, and the same open run or none: its id, session, start and
  -- trigger; its event number is that of the last event, which the mapper's is not below.
  pub restore_from-run_calls :
      (cs : List Call) (p : P) (adapter_session_ids : List String) (created_at : ℕ)
      → let ran = run_calls record_request reset_per_run_state (fresh p) cs in
        let back = restore_from (stored ran.1 adapter_session_ids created_at) initial in
        ((place_of back).open_run ≡ (place_of ran.0.lifecycle).open_run)
        × (back.run_seq ≡ ran.0.lifecycle.run_seq)
        × (back.seq ≡ last_seq 0 ran.1)
        × (back.seq ≤ ran.0.lifecycle.seq)
  unfolding restore_from
  restore_from-run_calls cs p adapter_session_ids created_at =
      let ran = run_calls record_request reset_per_run_state (fresh p) cs in
      let k =
        fold_left-Told ran.1 (0, 0) (none, none) (place_of initial) (place_of ran.0.lifecycle)
          (record { seq_is = refl; run_seq_is = refl; open_run = refl; starts = tt; stops = tt })
          (run_calls-Story record_request reset_per_run_state cs (fresh p)) in
      (rw opening-reopen k.open_run, k.run_seq_is, k.seq_is, rw k.seq_is k.seq_le)
