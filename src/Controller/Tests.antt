-- ===== src/Controller/Tests.antt =====
-- A rule against one server's tools.
use athena_flow_cli.Common.{none, some, [], ◌∷◌, true, List}
use athena_flow_cli.Controller.{HookRule, deny, approve, Event, Callbacks, handle_event, tool_of}
use athena_flow_cli.Controller.Decisions.{Complies, handle_event-Complies}

abbrev rules : List HookRule
rules =
    record { id = "1"; tool_name = "*"; action = approve; added_by = "/allow" }
    ∷ record { id = "2"; tool_name = "mcp__db__*"; action = deny; added_by = "/deny" }
    ∷ []

abbrev event : Event
event = record {
  id = "e1";
  kind = "permission.request";
  hook_name = "PermissionRequest";
  tool_name = some "mcp__db__drop";
  data_tool_name = none;
}

abbrev callbacks : Callbacks
callbacks = record { rules = rules; relays_permission = true; relays_question = true }

handle_event-Complies_example :
    Complies event callbacks (tool_of event) (handle_event event callbacks)
handle_event-Complies_example = handle_event-Complies event callbacks
