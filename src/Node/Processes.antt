-- ===== src/Node/Processes.antt =====
-- packages/node/src/process-manager.ts: `ProcessManager` with the pid files that it keeps and the
-- processes of the operating system. A pid file is what `Number` reads from it; 0 counts as none, and
-- so does the text "undefined", which stands as 0 here. A signal is only sent: when a process ends is up
-- to it.
pub mod Life
use claw_mem.Prelude.{
  if◌then◌else◌, eqb, get_or, keep_if, Result, ok, err, ◌>>◌, ℕ, String, Bool, false, not, ◌||◌,
  Option, none, some, List, [], ◌∷◌,
}
use claw_mem.JsMap

pub record Processes : Type 0 where
  pub pid_files : JsMap.Map ℕ
  pub running : List ℕ
  pub signalled : List ℕ

abbrev pub is_running : List ℕ → ℕ → Bool
is_running [] pid = false
is_running (p ∷ ps) pid = eqb p pid || is_running ps pid

-- What the disk answers to a start, and the pid that the system gives, none where the spawn fails.
pub record StartHost : Type 0 where
  pub script : Result String (Unit {0})
  pub open_log : Result String (Unit {0})
  pub pid : Option ℕ
  pub write_pid : Result String (Unit {0})

pub record ProcessStatus : Type 0 where
  pub pid : Option ℕ
  pub running : Bool

-- `readPid` and `if (pid)`.
unfoldable pub read_pid : String → Processes → Option ℕ
unfolding JsMap.get
read_pid path s = elim (JsMap.get s.pid_files path) [
  | none ↦ none
  | some pid ↦ if eqb pid 0 then none else some pid
]

-- Behind the spawn, the process runs whether or not its pid file can be written; the file of a spawn
-- that failed is written too.
unfoldable pub spawn : StartHost → String → Processes → Result String (Unit {0}) × Processes
unfolding JsMap.set
spawn h path s =
    let alive : Processes = elim h.pid [
      | none ↦ s
      | some pid ↦ record s { running = pid ∷ s.running }
    ] in
    elim h.write_pid [
      | err e ↦ (err e, alive)
      | ok _ ↦ (ok tt, record alive { pid_files = JsMap.set s.pid_files path (get_or h.pid 0) })
    ]

unfoldable pub start : StartHost → String → Processes → Result String (Unit {0}) × Processes
unfolding read_pid spawn
start h path s =
    let spawned = spawn h path s in
    let checked = h.script >> h.open_log in
    if elim (read_pid path s) [ none ↦ false | some pid ↦ is_running s.running pid ]
    then (ok tt, s)
    else elim checked [ err e ↦ (err e, s) | ok _ ↦ spawned ]

-- SIGTERM is sent to whatever process has the pid now; `fails` says that the pid file could not be
-- deleted.
unfoldable pub stop : Bool → String → Processes → Result String (Unit {0}) × Processes
unfolding read_pid JsMap.delete
stop fails path s = elim (read_pid path s) [
  | none ↦ (ok tt, s)
  | some pid ↦
      if not (is_running s.running pid)
      then (err "ESRCH", s)
      else let sent = record s { signalled = pid ∷ s.signalled } in
        if fails
        then (err "the pid file was not deleted", sent)
        else (ok tt, record sent { pid_files = JsMap.delete s.pid_files path })
]

-- The system: a process ends.
unfoldable pub exit : ℕ → Processes → Processes
exit pid s = record s { running = keep_if (λ p. not (eqb p pid)) s.running }

unfoldable pub status : String → Processes → ProcessStatus
unfolding read_pid
status path s = elim (read_pid path s) [
  | none ↦ record { pid = none; running = false }
  | some pid ↦ record { pid = some pid; running = is_running s.running pid }
]
