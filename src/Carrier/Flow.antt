-- ===== src/Carrier/Flow.antt =====
-- packages/soul/src/carrier/resurrection-flow.ts: `executeResurrectionFlow`. What it does to the
-- outside is kept as a list of effects, newest first; the answers that it meets, the readings of
-- the shutdown signal and the rounds of the readiness loop are its environment.
mod Request
pub mod Outcome
unfoldable pub use Request.*
use claw_mem.Prelude.{
  if◌then◌else◌, Result, ok, err, guard, ℕ, String, Bool, not, Option, none, some, List, [], ◌∷◌,
  ◌==◌,
}
use claw_mem.Task.{Task, ◌>>=◌, ◌>>◌, await, modify, pure, throw}

pub data CarrierState : Type 0 where
  idle monitoring resurrection_initiated carrier_confirmed waiting_readiness : CarrierState
  downloading_backup restoring_state spawning_agent health_checking : CarrierState
  resurrection_complete failed : CarrierState

pub data Effect : Type 0 where
  confirmed restored completed beaten : Effect
  spawned stopped : ℕ → Effect

pub record Restored : Type 0 where
  pub files_restored : ℕ
  pub total_bytes : ℕ

pub record FlowEnv : Type 0 where
  pub agent_id : String
  pub carrier_id : String
  pub is_offline : Result String Bool
  pub request : Result String ResurrectionRequest
  pub confirm_carrier : Result String (Unit {0})
  pub polls : List Poll
  pub aborted_before_download : Bool
  pub auto_restore : Result String Restored
  pub aborted_before_spawn : Bool
  pub spawn_agent : Result String ℕ
  pub wait_for_healthy : Result String Bool
  pub aborted_at_failure : Bool
  pub stop_agent : Result String (Unit {0})
  pub aborted_before_complete : Bool
  pub complete_resurrection : Result String (Unit {0})
  pub aborted_before_heartbeat : Bool
  pub heartbeat : Result String (Unit {0})

-- `CarrierResurrectionRecord` while the flow runs, and what was done.
pub record Flow : Type 0 where
  pub state : CarrierState
  pub files_restored : ℕ
  pub agent_pid : Option ℕ
  pub effects : List Effect

pub record ResurrectionResult : Type 0 where
  pub state : CarrierState
  pub files_restored : ℕ
  pub total_bytes : ℕ
  pub agent_pid : Option ℕ
  pub error : Option String

abbrev pub fresh : Flow
fresh = record { state = monitoring; files_restored = 0; agent_pid = none; effects = [] }

abbrev pub enter : CarrierState → Task Flow Unit
enter c = modify λ f. record f { state = c }

abbrev pub did : Effect → Task Flow Unit
did x = modify λ f. record f { effects = x ∷ f.effects }

-- `checkShutdown`.
abbrev pub check_shutdown : Bool → Task Flow Unit
check_shutdown aborted =
    if aborted then throw "Resurrection aborted: daemon shutting down" else pure tt

module _ (env : FlowEnv) where
  -- Step 3.
  unfoldable pub confirm : ResurrectionRequest → Task Flow Unit
  confirm request =
      if not request.carrier_confirmed then await env.confirm_carrier >> did confirmed else pure tt

  -- Steps 4 and 5.
  unfoldable pub fetch_backup : Task Flow Restored
  fetch_backup = do
    enter waiting_readiness
    await (wait_for_readiness env.polls)
    check_shutdown env.aborted_before_download
    enter downloading_backup
    r ← await env.auto_restore
    did restored
    modify (λ f. record f { files_restored = r.files_restored; state = restoring_state })
    pure r

  -- Steps 1 to 5.
  unfoldable pub prepare : Task Flow Restored
  unfolding validate confirm fetch_backup
  prepare = do
    enter resurrection_initiated
    request ← await (validate env.agent_id env.carrier_id env.is_offline env.request)
    enter carrier_confirmed
    confirm request
    fetch_backup

  -- Step 7, when the agent is not healthy.
  unfoldable pub give_up : ℕ → Task Flow Unit
  give_up pid = do
    await env.stop_agent
    did (stopped pid)
    modify (λ f. record f { agent_pid = none })
    if env.aborted_at_failure
        then throw "Resurrection aborted: daemon shutting down during health check"
        else throw "Agent failed health check after spawn"

  -- Steps 8 and 9.
  unfoldable pub conclude : Task Flow Unit
  conclude = do
    check_shutdown env.aborted_before_complete
    enter resurrection_complete
    await env.complete_resurrection
    did completed
    if env.aborted_before_heartbeat
        then pure tt
        else elim env.heartbeat [ ok _ ↦ did beaten | err e ↦ pure tt ]

  -- Steps 6 to 9.
  unfoldable pub launch : Task Flow Unit
  unfolding give_up conclude
  launch = do
    check_shutdown env.aborted_before_spawn
    enter spawning_agent
    pid ← await env.spawn_agent
    did (spawned pid)
    modify (λ f. record f { agent_pid = some pid; state = health_checking })
    healthy ← await env.wait_for_healthy
    if healthy then conclude else give_up pid

  unfoldable pub run_flow : Result String Restored × Flow
  unfolding prepare launch
  run_flow = (prepare >>= λ r. launch >> pure r) fresh

  abbrev pub result_of : Result String Restored × Flow → ResurrectionResult
  result_of (ok r, f) = record {
    state = resurrection_complete;
    files_restored = f.files_restored;
    total_bytes = r.total_bytes;
    agent_pid = f.agent_pid;
    error = none;
  }
  result_of (err e, f) = record {
    state = failed;
    files_restored = f.files_restored;
    total_bytes = 0;
    agent_pid = f.agent_pid;
    error = some e;
  }

  -- `executeResurrectionFlow`.
  unfoldable pub execute_resurrection_flow : ResurrectionResult
  unfolding run_flow
  execute_resurrection_flow = result_of run_flow
