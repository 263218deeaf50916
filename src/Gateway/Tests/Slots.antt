-- ===== src/Gateway/Tests/Slots.antt =====
-- A runtime that binds and loses its connection.
use athena_flow_cli.Common.{refl, none}
use athena_flow_cli.Gateway.BindingStore.{init, bind}
use athena_flow_cli.Gateway.BindingStore.WellFormed.{WellFormed, init-WellFormed}
use athena_flow_cli.Gateway.BindingStore.Expiry.{
  binds, closes, step, Reach, here, next, reachable-WellFormed,
}
use athena_flow_cli.Gateway.BindingStore.Lifecycle.{Move, step-Move, status, Binds, bind-Binds}
use athena_flow_cli.Gateway.Tests.Sample.{bind_input}

lost_store-Reach :
    Reach (init 1000) (step (step (init 1000) (0, binds bind_input)) (5, closes "c1"))
lost_store-Reach = next (next here (0, binds bind_input) tt _ refl) (5, closes "c1") tt _ refl

reachable-WellFormed_example :
    WellFormed (step (step (init 1000) (0, binds bind_input)) (5, closes "c1"))
reachable-WellFormed_example =
    reachable-WellFormed 1000 (step (step (init 1000) (0, binds bind_input)) (5, closes "c1"))
      lost_store-Reach

bound_store-Reach : Reach (init 1000) (step (init 1000) (0, binds bind_input))
bound_store-Reach = next here (0, binds bind_input) tt _ refl

bound_store-WellFormed : WellFormed (step (init 1000) (0, binds bind_input))
bound_store-WellFormed = reachable-WellFormed 1000 _ bound_store-Reach

step-Move_example :
    Move
      (step (init 1000) (0, binds bind_input))
      none
      (closes "c1")
      (status (step (init 1000) (0, binds bind_input)) none)
      (status (step (step (init 1000) (0, binds bind_input)) (5, closes "c1")) none)
step-Move_example =
    step-Move (step (init 1000) (0, binds bind_input)) (5, closes "c1") none bound_store-WellFormed

bind-Binds_example : Binds (init 1000) bind_input (bind (init 1000) bind_input 0)
bind-Binds_example = bind-Binds (init 1000) bind_input 0 (init-WellFormed 1000)
