-- ===== src/Carrier/Monitor.antt =====
-- packages/soul/src/carrier/offline-monitor.ts: `OfflineMonitor`. The handlers are seen by the
-- agents that they are called with; the interval timer calls `poll`.
pub mod Transitions
use claw_mem.Prelude.{
  if◌then◌else◌, includes, Result, ok, err, String, Bool, true, false, not, Option, none, some,
  List, [], ◌∷◌, ◌++◌,
}
use claw_mem.Backup.Detect.{remove}

pub record Monitor : Type 0 where
  pub watched : List String
  pub known_offline : List String
  pub ticking : Bool
  pub emitted : List String

-- What the registry answers of an agent during a poll.
pub record AgentStatus : Type 0 where
  pub configured : Result String Bool
  pub offline : Result String Bool

-- `set.add(x)`.
unfoldable pub add : List String → String → List String
add xs x = if includes xs x then xs else xs ++ (x ∷ [])

unfoldable pub add_all : List String → List String → List String
unfolding add
add_all xs [] = xs
add_all xs (y ∷ ys) = add_all (add xs y) ys

-- The constructor.
unfoldable pub new_monitor : List String → Monitor
unfolding add_all
new_monitor agents = record {
  watched = add_all [] agents;
  known_offline = [];
  ticking = false;
  emitted = [];
}

unfoldable pub add_watch : String → Monitor → Monitor
unfolding add
add_watch agent m = record m { watched = add m.watched agent }

unfoldable pub remove_watch : String → Monitor → Monitor
remove_watch agent m = record m {
  watched = remove agent m.watched;
  known_offline = remove agent m.known_offline;
}

unfoldable pub start : Monitor → Monitor
start m = if m.ticking then m else record m { ticking = true }

unfoldable pub stop : Monitor → Monitor
stop m = record m { ticking = false }

-- What a poll learns of an agent: nothing when a call fails or resurrection is not configured.
unfoldable pub learned : AgentStatus → Option Bool
learned s = elim s.configured [
  | err e ↦ none
  | ok configured ↦
      if not configured then none else elim s.offline [ err e ↦ none | ok offline ↦ some offline ]
]

unfoldable pub poll_agent : (String → AgentStatus) → String → Monitor → Monitor
unfolding learned
poll_agent status agent m = elim (learned (status agent)) [
  | none ↦ m
  | some true ↦ if includes m.known_offline agent then m else record m {
    known_offline = m.known_offline ++ (agent ∷ []);
    emitted = m.emitted ++ (agent ∷ []);
  }
  | some false ↦
      if includes m.known_offline agent
      then record m { known_offline = remove agent m.known_offline }
      else m
]

unfoldable pub poll_from : (String → AgentStatus) → List String → Monitor → Monitor
unfolding poll_agent
poll_from status [] m = m
poll_from status (agent ∷ agents) m = poll_from status agents (poll_agent status agent m)

-- `_poll`.
unfoldable pub poll : (String → AgentStatus) → Monitor → Monitor
unfolding poll_from
poll status m = poll_from status m.watched m
