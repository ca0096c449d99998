-- ===== src/Node/Processes/Life.antt =====
-- From the start of a service to its stop.
use claw_mem.Prelude.{
  eqb, keep_if, ok, ℕ, String, ◌≡◌, refl, ap, ◌∙◌, true, false, not, some, List, [], ◌∷◌, arith,
  eq_refl, result_both, Result, ◌>>◌, if_both, Bool, none, Option,
}
use claw_mem.JsMap
use claw_mem.Node.Processes.{
  Processes, StartHost, ProcessStatus, is_running, read_pid, spawn, start, stop, status, exit,
}

eqb_same : (n : ℕ) → eqb n n ≡ true
eqb_same n = ground arith

without :
    (pid : ℕ) (ps : List ℕ) → is_running ps pid ≡ false → keep_if (λ p. not (eqb p pid)) ps ≡ ps
without pid [] h = refl
without pid (p ∷ ps) h =
    let other : eqb p pid ≡ false = ground arith in
    rw other (ap (◌∷◌ p) (without pid ps (ground arith)))

running-status :
    (running : List ℕ) (o : Option ℕ)
    → elim o as (λ _. Bool) [ none ↦ false | some pid ↦ is_running running pid ]
      ≡ (elim o as (λ _. ProcessStatus) [
        | none ↦ record { pid = none; running = false }
        | some pid ↦ record { pid = some pid; running = is_running running pid }
      ]).running
running-status running none = refl
running-status running (some pid) = refl

module _ (h : StartHost) (path : String) (s : Processes) (pid : ℕ) (given : h.pid ≡ some pid) where
  -- The state behind a start that spawns.
  abbrev spawned : Processes
  spawned = record s { pid_files = JsMap.set s.pid_files path pid; running = pid ∷ s.running }

  pid-spawned : eqb pid 0 ≡ false → read_pid path spawned ≡ some pid
  unfolding read_pid
  pid-spawned n =
      let file : JsMap.get (JsMap.set s.pid_files path pid) path ≡ some pid =
        JsMap.get-set s.pid_files path path pid ∙ rw (eq_refl path) refl in
      rw (read_pid, file, n) refl

  abbrev is_busy : Bool
  is_busy = elim (read_pid path s) [ none ↦ false | some p ↦ is_running s.running p ]

  busy-status : is_busy ≡ (status path s).running
  unfolding status
  busy-status = running-status s.running (read_pid path s)

  start-spawned :
      (status path s).running ≡ false → (start h path s).0 ≡ ok tt → (start h path s).1 ≡ spawned
  unfolding start spawn
  start-spawned idle =
      let P : Result String (Unit {0}) × Processes → Type 0 = λ r. r.0 ≡ ok tt → r.1 ≡ spawned in
      if_both P is_busy _ _ (λ busy k. let same = busy-status in cc)
        (λ _.
          result_both P (h.script >> h.open_log) _ _ (λ e _ k. cc)
            (λ _ _. result_both P h.write_pid _ _ (λ e _ k. cc) (λ _ _ k. rw given refl)))

start-busy :
    (h : StartHost) (path : String) (s : Processes) (pid : ℕ)
    → read_pid path s ≡ some pid
    → is_running s.running pid ≡ true
    → start h path s ≡ (ok tt, s)
unfolding start
start-busy h path s pid e r = rw (start, e, r) refl

stop-running :
    (path : String) (s : Processes) (pid : ℕ)
    → read_pid path s ≡ some pid
    → is_running s.running pid ≡ true
    → stop false path s ≡ (
      ok tt,
      record s { pid_files = JsMap.delete s.pid_files path; signalled = pid ∷ s.signalled },
    )
unfolding stop
stop-running path s pid e r = rw (stop, e, r) refl

status-running :
    (path : String) (s : Processes) (pid : ℕ)
    → read_pid path s ≡ some pid
    → is_running s.running pid ≡ true
    → status path s ≡ record { pid = some pid; running = true }
unfolding status
status-running path s pid e r = rw (status, e, r) refl

-- The life of a service behind a start. It is found running under its pid, and another start does
-- nothing. A stop sends its process, and no other, a signal, ends none by itself, and forgets the pid:
-- the service counts as stopped at once, also while its process still runs. When that process ends, those
-- are left that ran before the start.
pub record IsLife (path : String) (pid : ℕ) (s started : Processes) : Type 0 where
  pub runs : status path started ≡ record { pid = some pid; running = true }
  pub once : (h : StartHost) → start h path started ≡ (ok tt, started)
  pub stops : (stop false path started).0 ≡ ok tt
  pub signals : (stop false path started).1.signalled ≡ pid ∷ s.signalled
  pub runs_on : (stop false path started).1.running ≡ pid ∷ s.running
  pub forgotten : (status path (stop false path started).1).running ≡ false
  pub ends : (exit pid (stop false path started).1).running ≡ s.running

-- Where the service does not run, the system gives a pid other than 0 that no process has, and the start
-- succeeds: what follows is its life.
pub start-IsLife :
    (h : StartHost) (path : String) (s : Processes) (pid : ℕ)
    → h.pid ≡ some pid
    → (status path s).running ≡ false
    → eqb pid 0 ≡ false
    → is_running s.running pid ≡ false
    → (start h path s).0 ≡ ok tt
    → IsLife path pid s (start h path s).1
unfolding status read_pid exit
start-IsLife h path s pid given idle nonzero fresh k =
    let behind = spawned h path s pid given in
    let found = pid-spawned h path s pid given nonzero in
    let up : is_running (pid ∷ s.running) pid ≡ true = ground (arith, eqb_same pid) in
    let stopped = stop-running path behind pid found up in
    let gone : JsMap.get (JsMap.delete (JsMap.set s.pid_files path pid) path) path ≡ none =
      JsMap.get-delete (JsMap.set s.pid_files path pid) path path ∙ rw (eq_refl path) refl in
    rw (start-spawned h path s pid given idle k) (record {
      runs = status-running path behind pid found up;
      once = λ g. start-busy g path behind pid found up;
      stops = ap (λ r. r.0) stopped;
      signals = ap (λ r. r.1.signalled) stopped;
      runs_on = ap (λ r. r.1.running) stopped;
      forgotten = rw stopped (rw (status, read_pid, gone) refl);
      ends =
          ap (λ r. (exit pid r.1).running) stopped
          ∙ rw (eqb_same pid) (without pid s.running fresh);
    })
