-- ===== src/Gateway/SessionRegistry/Laws.antt =====
-- Who may complete a turn, how often, and what clearing a runtime's turns leaves.
use athena_flow_cli.Common.{
  ==-false_of_ne, ==-true_of_eq, ◌+◌, String, ◌≡◌, refl, ◌≢◌, Option, none, some, [], ◌∷◌, arith,
  if◌then◌else◌, ◌==◌, string_eq,
}
use athena_flow_cli.Common.Dict.{get, get-delete_self, get-delete_ne, Distinct}
use athena_flow_cli.Gateway.SessionRegistry.{
  Registry, DispatchEntry, CompleteDispatchResult, completed, unknown, runtime_mismatch,
  complete_dispatch, complete_entry, clear_dispatches_for, pending_dispatch_count_for,
  pending_dispatch_count,
}

-- What an answer says of the registry before and after.
abbrev pub Completes : Registry → String → String → Registry → CompleteDispatchResult → Type 0
Completes r id by r' (completed entry) =
    (get id r ≡ some entry)
    × (entry.runtime_id ≡ by)
    × (get id r' ≡ none)
    × ((j : String) → id ≢ j → get j r' ≡ get j r)
Completes r id by r' unknown = (get id r ≡ none) × (r' ≡ r)
Completes r id by r' (runtime_mismatch entry) =
    (get id r ≡ some entry) × (entry.runtime_id ≢ by) × (r' ≡ r)

complete_entry-Completes :
    (r : Registry) (id by : String) (o : Option DispatchEntry)
    → get id r ≡ o
    → Completes r id by (complete_entry r id by o).0 (complete_entry r id by o).1
unfolding complete_entry
complete_entry-Completes r id by none e = (e, refl)
complete_entry-Completes r id by (some entry) e = elim (string_eq.dec entry.runtime_id by) [
  | yes same ↦
      rw (==-true_of_eq entry.runtime_id by same)
        (e, same, get-delete_self id r, λ j ne. get-delete_ne id j r ne)
  | no other ↦ rw (==-false_of_ne entry.runtime_id by other) (e, other, refl)
]

-- A turn is consumed exactly when the runtime that it was dispatched to completes it, and then no
-- other turn changes; a runtime that does not own the turn, or an unknown id, changes nothing.
pub complete_dispatch-Completes :
    (r : Registry) (id by : String)
    → Completes r id by (complete_dispatch r id by).0 (complete_dispatch r id by).1
unfolding complete_dispatch
complete_dispatch-Completes r id by = complete_entry-Completes r id by _ refl

pub complete_dispatch_unknown :
    (r : Registry) (id by : String) → get id r ≡ none → complete_dispatch r id by ≡ (r, unknown)
unfolding complete_dispatch complete_entry
complete_dispatch_unknown r id by e = rw e

-- Clearing a runtime's turns takes just those: what it takes and what stays add up to what was.
pub pending_dispatch_count-clear :
    (r : Registry) (id : String)
    → (pending_dispatch_count (clear_dispatches_for r id) + pending_dispatch_count_for r id
        ≡ pending_dispatch_count r)
      × (pending_dispatch_count_for (clear_dispatches_for r id) id ≡ 0)
unfolding pending_dispatch_count pending_dispatch_count_for clear_dispatches_for
pending_dispatch_count-clear [] id = (omega arith, refl)
pending_dispatch_count-clear ((k, entry) ∷ r) id = ground (arith, pending_dispatch_count-clear r id)

abbrev pub kept : String → Option DispatchEntry → Option DispatchEntry
kept id none = none
kept id (some entry) = if entry.runtime_id == id then none else some entry

get-clear_absent :
    (r : Registry) (id k : String) → get k r ≡ none → get k (clear_dispatches_for r id) ≡ none
unfolding get clear_dispatches_for
get-clear_absent [] id k e = refl
get-clear_absent ((j, entry) ∷ r) id k e = ground (arith, get-clear_absent r id k)

-- In a registry whose ids are distinct, `clear_dispatches_for` leaves the turns of every other runtime
-- as they were, and those of the runtime are gone.
pub get-clear :
    (r : Registry) (id k : String)
    → Distinct r
    → get k (clear_dispatches_for r id) ≡ kept id (get k r)
unfolding get clear_dispatches_for
get-clear [] id k d = refl
get-clear ((j, entry) ∷ r) id k (fresh, d) =
    ground (arith, get-clear r id k d, get-clear_absent r id j fresh)
