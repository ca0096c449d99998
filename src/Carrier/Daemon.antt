-- ===== src/Carrier/Daemon.antt =====
-- packages/soul/src/carrier/carrier-daemon.ts: `CarrierDaemon`, by the calls of its methods and the
-- ends of the flows that it started, in any order. Waiting for flows in `stop` changes nothing here.
pub mod Limits
pub mod Requests
use Prim.Native.String.{◌++◌ as concat}
use mathlib.Core.List.{◌++◌}
use claw_mem.Prelude.{
  if◌then◌else◌, ltb, leb, length, includes, ℕ, String, Bool, true, false, not, Option, none, some,
  List, [], ◌∷◌,
}
use claw_mem.Carrier.Flow.{ResurrectionResult}
use claw_mem.Carrier.Monitor
use claw_mem.Backup.Detect.{remove}

pub record PendingRequest : Type 0 where
  pub request_id : String
  pub agent_id : String

pub record CarrierDaemonConfig : Type 0 where
  pub watched_agents : List String
  pub pending_request_ids : List PendingRequest
  pub max_concurrent_resurrections : ℕ

pub data AddRequestResult : Type 0 where
  accepted not_running already_processing concurrency_limit : AddRequestResult

pub record CarrierResurrectionRecord : Type 0 where
  pub request : PendingRequest
  pub started_at : ℕ
  pub completed_at : ℕ
  pub result : ResurrectionResult

pub record CarrierDaemon : Type 0 where
  pub monitor : Monitor.Monitor
  pub active_resurrections : List String
  pub history : List CarrierResurrectionRecord
  pub running : Bool
  pub aborted : Bool

abbrev pub key_of : PendingRequest → String
key_of r = concat r.agent_id (concat ":" r.request_id)

-- `while (history.length > 100) history.shift()`
unfoldable pub trim_history : List CarrierResurrectionRecord → List CarrierResurrectionRecord
trim_history [] = []
trim_history (r ∷ rs) =
    let rest = trim_history rs in if ltb 100 (length (r ∷ rs)) then rest else r ∷ rs

pub data Event : Type 0 where
  started halted : Event
  requested : PendingRequest → Event
  settled : PendingRequest → Option CarrierResurrectionRecord → Event
  polled : (String → Monitor.AgentStatus) → Event

module _ (cfg : CarrierDaemonConfig) where
  unfoldable pub new_daemon : CarrierDaemon
  new_daemon = record {
    monitor = Monitor.new_monitor cfg.watched_agents;
    active_resurrections = [];
    history = [];
    running = false;
    aborted = false;
  }

  -- `addRequest`.
  unfoldable pub add_request : PendingRequest → CarrierDaemon → AddRequestResult × CarrierDaemon
  add_request r d =
      if not d.running
      then (not_running, d)
      else if includes d.active_resurrections (key_of r)
      then (already_processing, d)
      else if leb cfg.max_concurrent_resurrections (length d.active_resurrections)
      then (concurrency_limit, d)
      else (accepted, record d { active_resurrections = d.active_resurrections ++ (key_of r ∷ []) })

  unfoldable pub add_requests : List PendingRequest → CarrierDaemon → CarrierDaemon
  unfolding add_request
  add_requests [] d = d
  add_requests (r ∷ rs) d = add_requests rs (add_request r d).1

  unfoldable pub start_daemon : CarrierDaemon → CarrierDaemon
  unfolding add_requests
  start_daemon d =
      if d.running
      then d
      else add_requests cfg.pending_request_ids
          (record d { running = true; aborted = false; monitor = Monitor.start d.monitor })

  unfoldable pub stop_daemon : CarrierDaemon → CarrierDaemon
  stop_daemon d =
      if not d.running
      then d
      else record d { running = false; aborted = true; monitor = Monitor.stop d.monitor }

  -- The end of `_executeRequest`, and `finally`: a flow that was begun leaves a record, one whose
  -- directory could not be made leaves none.
  unfoldable pub settle :
      PendingRequest → Option CarrierResurrectionRecord → CarrierDaemon → CarrierDaemon
  unfolding trim_history
  settle r none d = record d { active_resurrections = remove (key_of r) d.active_resurrections }
  settle r (some x) d = record d {
    active_resurrections = remove (key_of r) d.active_resurrections;
    history = trim_history (d.history ++ (x ∷ []));
  }

  unfoldable pub handle : Event → CarrierDaemon → CarrierDaemon
  unfolding add_request start_daemon stop_daemon settle
  handle started d = start_daemon d
  handle halted d = stop_daemon d
  handle (requested r) d = (add_request r d).1
  handle (settled r x) d = settle r x d
  handle (polled status) d = record d { monitor = Monitor.poll status d.monitor }

  unfoldable pub handle_all : List Event → CarrierDaemon → CarrierDaemon
  unfolding handle
  handle_all [] d = d
  handle_all (e ∷ es) d = handle_all es (handle e d)
