-- ===== src/Carrier/Tests.antt =====
-- The carrier at concrete inputs.
use claw_mem.Prelude.{
  keep_if, includes, ok, err, String, ◌≡◌, refl, true, false, none, some, List, [], ◌∷◌, ◌==◌,
}
use claw_mem.Carrier.Flow
use claw_mem.Carrier.Flow.{FlowEnv, Effect, spawned, stopped}
use claw_mem.Carrier.Flow.Outcome.{Truthful, execute_resurrection_flow-Truthful}
use claw_mem.Carrier.Monitor.{Monitor, AgentStatus, poll}
use claw_mem.Carrier.Monitor.Transitions.{poll_lem, went_offline, now_known}
use claw_mem.Carrier.Daemon.{
  CarrierDaemonConfig, PendingRequest, Event, started, halted, requested, settled, polled,
  CarrierDaemon, handle_all, add_request, new_daemon, accepted, key_of,
}
use claw_mem.Carrier.Daemon.Limits.{IsValid, handle_all-IsValid}
use claw_mem.Carrier.Daemon.Requests.{IsAnswered, add_request-IsAnswered}

-- An agent that is restored and healthy, and a registry that then refuses to complete.
abbrev refused : FlowEnv
refused = record {
  agent_id = "0xa";
  carrier_id = "0xc";
  is_offline = ok true;
  request = ok (record {
    agent_id = "0xa";
    carrier_id = "0xc";
    executed = false;
    carrier_confirmed = false;
  });
  confirm_carrier = ok tt;
  polls =
      record { aborted = false; answer = ok (record { exists = true; can_complete = false }) }
      ∷ record { aborted = false; answer = ok (record { exists = true; can_complete = true }) }
      ∷ [];
  aborted_before_download = false;
  auto_restore = ok (record { files_restored = 3; total_bytes = 40 });
  aborted_before_spawn = false;
  spawn_agent = ok 77;
  wait_for_healthy = ok true;
  aborted_at_failure = false;
  stop_agent = ok tt;
  aborted_before_complete = false;
  complete_resurrection = err "reverted";
  aborted_before_heartbeat = false;
  heartbeat = ok tt;
}

-- The agent runs on, though the resurrection failed.
refused_run :
    (Flow.execute_resurrection_flow refused ≡ record {
      state = Flow.failed;
      files_restored = 3;
      total_bytes = 0;
      agent_pid = some 77;
      error = some "reverted";
    })
    × ((Flow.run_flow refused).1.effects ≡ spawned 77 ∷ Flow.restored ∷ Flow.confirmed ∷ [])
unfolding Flow.execute_resurrection_flow Flow.run_flow Flow.prepare Flow.launch Flow.validate
    Flow.confirm Flow.fetch_backup Flow.wait_for_readiness Flow.conclude Flow.give_up
refused_run = (refl, refl)

execute_resurrection_flow-Truthful_example :
    Truthful refused (Flow.execute_resurrection_flow refused) (Flow.run_flow refused).1.effects
execute_resurrection_flow-Truthful_example = execute_resurrection_flow-Truthful refused

abbrev two_agents : Monitor
two_agents = record {
  watched = "0xa" ∷ "0xb" ∷ [];
  known_offline = "0xb" ∷ [];
  ticking = true;
  emitted = [];
}

abbrev only_a_down : String → AgentStatus
only_a_down agent = record { configured = ok true; offline = ok (agent == "0xa") }

poll_lem_example :
    ((poll only_a_down two_agents).emitted
      ≡ keep_if (went_offline only_a_down ("0xb" ∷ [])) ("0xa" ∷ "0xb" ∷ []))
    × ((x : String)
        → includes ("0xa" ∷ "0xb" ∷ []) x ≡ true
        → includes (poll only_a_down two_agents).known_offline x
          ≡ now_known only_a_down ("0xb" ∷ []) x)
poll_lem_example = poll_lem only_a_down two_agents (refl, (refl, tt))

abbrev small_carrier : CarrierDaemonConfig
small_carrier = record {
  watched_agents = "0xa" ∷ "0xb" ∷ [];
  pending_request_ids = record { request_id = "1"; agent_id = "0xa" } ∷ [];
  max_concurrent_resurrections = 1;
}

abbrev request_b : PendingRequest
request_b = record { request_id = "2"; agent_id = "0xb" }

abbrev events : List Event
events = started ∷ requested request_b ∷ polled only_a_down ∷ settled request_b none ∷ halted ∷ []

handle_all-IsValid_example :
    IsValid small_carrier (handle_all small_carrier events (new_daemon small_carrier))
handle_all-IsValid_example = handle_all-IsValid small_carrier events

abbrev running_carrier : CarrierDaemon
running_carrier = record (new_daemon small_carrier) { running = true }

one_accepted :
    ((add_request small_carrier request_b running_carrier).0 ≡ accepted)
    × ((add_request small_carrier request_b running_carrier).1.active_resurrections
        ≡ key_of request_b ∷ [])
unfolding add_request new_daemon
one_accepted = (refl, refl)

add_request-IsAnswered_example : IsAnswered small_carrier request_b running_carrier
add_request-IsAnswered_example = add_request-IsAnswered small_carrier request_b running_carrier
