-- ===== src/Gateway/Tests/Turns.antt =====
-- The turns of the pipeline.
use athena_flow_cli.Common.{string_eq, option_discrete, string_discrete, ◌⊎◌, ◌≡◌, refl, none}
use athena_flow_cli.Gateway.OutboundDispatcher.{ok, failed}
use athena_flow_cli.Gateway.Pipeline.{register_runtime, handle_inbound}
use athena_flow_cli.Gateway.Pipeline.Completion.{
  handle_turn_complete, delivered, provider, not_delivered, threw_runtime_mismatch,
}
use athena_flow_cli.Gateway.Pipeline.Turns.{
  Turn, handle_turn_complete-Turn, handle_turn_complete_once,
}
use athena_flow_cli.Gateway.Pipeline.Parked.{Flushes, register_runtime-Flushes}
use athena_flow_cli.Gateway.Pipeline.Inbound.{Handles, handle_inbound-Handles}
use athena_flow_cli.Gateway.Tests.Sample.{
  hello, pipeline, waiting, options, done, accepted, bind_input, main_named,
}
use athena_flow_cli.Gateway.Tests.Queues.{queue-Inv}

handle_turn_complete-Turn_example :
    Turn pipeline done
      (ok accepted)
      5
      (handle_turn_complete pipeline done (ok accepted) 5).0
      (handle_turn_complete pipeline done (ok accepted) 5).1
handle_turn_complete-Turn_example = handle_turn_complete-Turn pipeline done (ok accepted) 5

completed_turn : (handle_turn_complete pipeline done (ok accepted) 5).1 ≡ delivered (provider "m2")
unfolding handle_turn_complete string_discrete
completed_turn = refl

handle_turn_complete_once_example :
    ((handle_turn_complete
        (handle_turn_complete pipeline done (ok accepted) 5).0
        done
        (failed "e")
        6).0
      ≡ (handle_turn_complete pipeline done (ok accepted) 5).0)
    × (((handle_turn_complete
            (handle_turn_complete pipeline done (ok accepted) 5).0
            done
            (failed "e")
            6).1
          ≡ not_delivered)
        ⊎ ((handle_turn_complete
              (handle_turn_complete pipeline done (ok accepted) 5).0
              done
              (failed "e")
              6).1
            ≡ threw_runtime_mismatch))
handle_turn_complete_once_example =
    handle_turn_complete_once pipeline done done (ok accepted) (failed "e") 5 6 (provider "m2")
      completed_turn refl

register_runtime-Flushes_example :
    Flushes waiting none 9 (register_runtime options waiting bind_input 9 5)
unfolding option_discrete
register_runtime-Flushes_example =
    register_runtime-Flushes options waiting bind_input 9 5 queue-Inv (main_named, tt)

handle_inbound-Handles_example :
    Handles options pipeline hello none 5
      (handle_inbound options pipeline hello none 5).0
      (handle_inbound options pipeline hello none 5).1
handle_inbound-Handles_example = handle_inbound-Handles options pipeline hello none 5
