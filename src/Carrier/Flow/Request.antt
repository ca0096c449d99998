-- ===== src/Carrier/Flow/Request.antt =====
-- packages/soul/src/carrier/resurrection-flow.ts: the request, and the wait for its approval.
use claw_mem.Prelude.{
  if◌then◌else◌, Result, ok, err, guard, String, Bool, not, List, [], ◌∷◌, ◌==◌, ◌>>=◌, ◌>>◌,
}

pub record ResurrectionRequest : Type 0 where
  pub agent_id : String
  pub carrier_id : String
  pub executed : Bool
  pub carrier_confirmed : Bool

pub record Readiness : Type 0 where
  pub exists : Bool
  pub can_complete : Bool

-- One round of the readiness loop, begun before the timeout.
pub record Poll : Type 0 where
  pub aborted : Bool
  pub answer : Result String Readiness

-- `waitForReadiness`: past the last round the timeout is over.
unfoldable pub wait_for_readiness : List Poll → Result String (Unit {0})
wait_for_readiness [] = err "Resurrection readiness timed out"
wait_for_readiness (poll ∷ polls) =
    let rest = wait_for_readiness polls in
    if poll.aborted then err "Resurrection aborted: daemon shutting down" else do
      readiness ← poll.answer
      if not readiness.exists
          then err "Resurrection request no longer exists"
          else if readiness.can_complete
          then ok tt
          else rest

-- Steps 1 and 2: the agent is offline, and the request is for it and for this carrier.
unfoldable pub validate :
    String
    → String
    → Result String Bool
    → Result String ResurrectionRequest
    → Result String ResurrectionRequest
validate agent_id carrier_id is_offline found = do
  offline ← is_offline
  guard offline "Agent is not offline: aborting resurrection"
  request ← found
  guard (request.agent_id == agent_id) "Request is for another agent"
  guard (request.carrier_id == carrier_id) "Request targets another carrier"
  guard (not request.executed) "Request has already been executed"
  ok request
