-- ===== src/Gateway/SessionRegistry.antt =====
-- src/gateway/sessionRegistry.ts: the turns that wait for their reply. `idFactory` is the caller's;
-- the id that it mints is an argument of `begin_dispatch`.

pub mod Laws
use athena_flow_cli.Common.{
  ℕ, suc, String, Option, none, some, [], ◌∷◌, if◌then◌else◌, ◌==◌, string_eq, not, length,
}
use athena_flow_cli.Common.Dict.{Dict, get, set, delete}
use athena_flow_cli.Gateway.Types.{ChannelLocation, AttachmentKey}

pub record DispatchEntry : Type 0 where
  pub dispatch_id : String
  pub session_key : String
  pub agent_id : String
  pub runtime_id : String
  pub attachment_key : AttachmentKey
  pub location : ChannelLocation
  pub created_at : ℕ

pub data CompleteDispatchResult : Type 0 where
  completed : DispatchEntry → CompleteDispatchResult
  unknown : CompleteDispatchResult
  runtime_mismatch : DispatchEntry → CompleteDispatchResult

abbrev pub Registry : Type 0
Registry = Dict String DispatchEntry

pub record DispatchInput : Type 0 where
  pub session_key : String
  pub agent_id : String
  pub runtime_id : String
  pub attachment_key : AttachmentKey
  pub location : ChannelLocation

abbrev pub entry_of : DispatchInput → String → ℕ → DispatchEntry
entry_of input id now = record {
  dispatch_id = id;
  session_key = input.session_key;
  agent_id = input.agent_id;
  runtime_id = input.runtime_id;
  attachment_key = input.attachment_key;
  location = input.location;
  created_at = now;
}

unfoldable pub begin_dispatch : Registry → DispatchInput → String → ℕ → Registry × DispatchEntry
unfolding set
begin_dispatch r input id now = let entry = entry_of input id now in (set id entry r, entry)

pub complete_entry :
    Registry → String → String → Option DispatchEntry → Registry × CompleteDispatchResult
unfolding delete
complete_entry r id by none = (r, unknown)
complete_entry r id by (some entry) =
    if not (entry.runtime_id == by)
    then (r, runtime_mismatch entry)
    else (delete id r, completed entry)

unfoldable pub complete_dispatch : Registry → String → String → Registry × CompleteDispatchResult
unfolding complete_entry get
complete_dispatch r id by = complete_entry r id by (get id r)

pub pending_dispatch_count : Registry → ℕ
pending_dispatch_count r = length r

-- the loop of `pendingDispatchCountFor`
pub pending_dispatch_count_for : Registry → String → ℕ
pending_dispatch_count_for [] id = 0
pending_dispatch_count_for ((k, entry) ∷ r) id =
    let count = pending_dispatch_count_for r id in
    if entry.runtime_id == id then suc count else count

unfoldable pub clear_dispatches_for : Registry → String → Registry
clear_dispatches_for [] id = []
clear_dispatches_for ((k, entry) ∷ r) id =
    let rest = clear_dispatches_for r id in
    if entry.runtime_id == id then rest else (k, entry) ∷ rest
