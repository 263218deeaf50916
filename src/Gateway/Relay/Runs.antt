-- ===== src/Gateway/Relay/Runs.antt =====
-- Every run of the relay: the calls of the coordinator, of its adapters and of its timers in any
-- order.
use athena_flow_cli.Common.{
  ℕ, ◌+◌, String, refl, inl, inr, arith, Option, none, some, List, length, ◌==◌, nat_eq, Bool-cases,
  keep,
}
use athena_flow_cli.Gateway.Relay.{
  Adapter, Request, request, inspected, broadcast, adapter_answers, timer_fires, settle_if,
  relevant, can_relay,
}
use athena_flow_cli.Gateway.Relay.Pending.{
  RelayState, Kind, Result, CancelReason, cancelled, timed_out, Inspect, absent, attach, collision,
  start, cancel, dispose_all,
}
use athena_flow_cli.Gateway.Relay.Race.{
  Inv, start-Inv, settle-Inv, timers-Inv, cancel-Inv, dispose_all-Inv, register-Inv,
}

-- One call of the coordinator, of an adapter or of a timer.
pub data Call : Type 0 where
  asks : Kind → List Adapter → Request → (fresh : String) → (default_ttl : ℕ) → Call
  answers : Kind → (id : String) → (adapter : String) → Result → Call
  elapses : (timer : ℕ) → (id : String) → Call
  cancels : (id : String) → CancelReason → (by : Option String) → Call
  disposes : CancelReason → Call

pub call : RelayState → Call → RelayState
unfolding request adapter_answers timer_fires cancel dispose_all
call st (asks kind adapters req fresh default_ttl) =
    (request st kind adapters req fresh default_ttl).0
call st (answers kind id adapter r) = adapter_answers st kind id adapter r
call st (elapses timer id) = timer_fires st timer id
call st (cancels id reason by) = (cancel st id reason by).0
call st (disposes reason) = dispose_all st reason

pub data Reach : RelayState → Type 0 where
  begin : Reach start
  extend : (st : RelayState) (c : Call) → Reach st → Reach (call st c)

broadcast-Inv :
    (st : RelayState) (kind : Kind) (id : String) (ttl : Option ℕ) (runtime : Option String)
    (fingerprint : String) (targets : List Adapter)
    → Inv st
    → Inv (broadcast st kind id ttl runtime fingerprint targets).0
unfolding broadcast
broadcast-Inv st kind id ttl runtime fingerprint targets v =
    register-Inv st _ (st.next + 2 + length targets) _ v refl (omega arith) refl

inspected-Inv :
    (st : RelayState) (kind : Kind) (id : String) (ttl : Option ℕ) (req : Request)
    (targets : List Adapter) (i : Inspect)
    → Inv st
    → Inv (inspected st kind id ttl req targets i).0
unfolding inspected
inspected-Inv st kind id ttl req targets absent v = broadcast-Inv st kind id ttl _ _ targets v
inspected-Inv st kind id ttl req targets (attach e) v = v
inspected-Inv st kind id ttl req targets (collision c) v = v

request-Inv :
    (st : RelayState) (kind : Kind) (adapters : List Adapter) (req : Request) (fresh : String)
    (default_ttl : ℕ)
    → Inv st
    → Inv (request st kind adapters req fresh default_ttl).0
unfolding request
request-Inv st kind adapters req fresh default_ttl v =
    elim (Bool-cases (length (keep (can_relay kind) adapters) == 0)) [
      | inl e ↦ rw e v
      | inr e ↦ rw e (inspected-Inv st kind _ _ req _ _ v)
    ]

settle_if-Inv :
    (st : RelayState) (id : String) (r : Option Result) → Inv st → Inv (settle_if st id r)
unfolding settle_if
settle_if-Inv st id none v = v
settle_if-Inv st id (some r) v = settle-Inv st id r v

call-Inv : (st : RelayState) (c : Call) → Inv st → Inv (call st c)
unfolding call adapter_answers timer_fires
call-Inv st (asks kind adapters req fresh default_ttl) v =
    request-Inv st kind adapters req fresh default_ttl v
call-Inv st (answers kind id adapter r) v = settle_if-Inv st id (relevant kind adapter r) v
call-Inv st (elapses timer id) v = settle-Inv _ id (cancelled timed_out) (timers-Inv st _ v)
call-Inv st (cancels id reason by) v = cancel-Inv st id reason by v
call-Inv st (disposes reason) v = dispose_all-Inv st reason v

-- In every state that the relay reaches by requests, answers of adapters, timers, cancels and
-- disposals in any order, no promise has been resolved twice, every entry waits on an issued promise
-- that is unresolved, and two entries do not wait on one promise.
pub reachable-Inv : (st : RelayState) → Reach st → Inv st
reachable-Inv st begin = start-Inv
reachable-Inv st (extend st' c r) = call-Inv st' c (reachable-Inv st' r)
