-- ===== src/Feed/DecisionCorrelation/Tests.antt =====
-- A request that is recorded, decided, and looked up again.
use athena_flow_cli.Common.{◌≡◌, List, [], ◌∷◌}
use athena_flow_cli.Feed.DecisionCorrelation.{consume_for_decision}
use athena_flow_cli.Feed.DecisionCorrelation.History.{
  Call, records, consumes, state_of, waiting, consumed, consume_for_decision-waiting,
}

abbrev asked : List Call
asked = records "r1" "e1" "permission.request" ∷ []

abbrev decided : List Call
decided = consumes "r1" ∷ asked

consume_for_decision-waiting_example :
    (consume_for_decision (state_of asked) "r1").1 ≡ consumed (waiting asked "r1")
consume_for_decision-waiting_example = consume_for_decision-waiting asked "r1"
