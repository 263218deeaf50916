-- ===== src/Feed/DecisionCorrelation.antt =====
-- src/core/feed/internals/decisionCorrelation.ts: from a request to the event that made it.
pub mod History
pub mod Tests
use athena_flow_cli.Common.{String, Option, none, some, [], if◌then◌else◌, ◌==◌, string_eq}
use athena_flow_cli.Common.Dict.{Dict, get, set, delete}

pub record Correlation : Type 0 where
  pub event_id_by_request_id : Dict String String
  pub event_kind_by_request_id : Dict String String
  pub resolved_request_by_id : Dict String (String × String)

-- `createDecisionCorrelation`, and what `resetForNewRun` leaves.
abbrev pub no_requests : Correlation
no_requests = record {
  event_id_by_request_id = [];
  event_kind_by_request_id = [];
  resolved_request_by_id = [];
}

unfoldable pub record_request : Correlation → String → String → String → Correlation
unfolding set
record_request c request event kind = record {
  event_id_by_request_id = set request event c.event_id_by_request_id;
  event_kind_by_request_id = set request kind c.event_kind_by_request_id;
  resolved_request_by_id = set request (event, kind) c.resolved_request_by_id;
}

unfoldable pub lookup_resolved : Correlation → String → Option (String × String)
unfolding get
lookup_resolved c request = get request c.resolved_request_by_id

-- In the source an empty event id counts as none.
unfoldable pub consume_event :
    Correlation → String → Option String → Correlation × Option (String × Option String)
unfolding get delete
consume_event c request none = (c, none)
consume_event c request (some event) = if event == "" then (c, none) else (
  record c {
    event_id_by_request_id = delete request c.event_id_by_request_id;
    event_kind_by_request_id = delete request c.event_kind_by_request_id;
  },
  some (event, get request c.event_kind_by_request_id),
)

unfoldable pub consume_for_decision :
    Correlation → String → Correlation × Option (String × Option String)
unfolding consume_event
consume_for_decision c request = consume_event c request (get request c.event_id_by_request_id)
