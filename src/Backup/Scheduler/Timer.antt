-- ===== src/Backup/Scheduler/Timer.antt =====
-- packages/soul/src/backup/scheduler.ts: `start`, `scheduleNext` and `stop`. The timer is the delay
-- of the pending timeout; a timeout that fires clears it, and the end of its run schedules the next.
use claw_mem.Prelude.{
  if◌then◌else◌, leb, max_of, min_of, is_some, ℕ, ◌+◌, ◌-◌, ◌*◌, ◌^◌, ◌≤◌, Bool, true, false, not,
  none, some, List, [], ◌∷◌, ◌≡◌,
}
use claw_mem.Backup.Scan.{CocBackupConfig}
use claw_mem.Backup.Scheduler.Parts.{Scheduler, one_hour_ms}

module _ (cfg : CocBackupConfig) where
  -- `Math.min(interval * 2 ** (failures - 2), 3_600_000)` from the third failure on.
  unfoldable pub backoff : ℕ → ℕ
  backoff failures =
      if leb 3 failures
      then min_of (cfg.auto_backup_interval_ms * 2 ^ (failures - 2)) one_hour_ms
      else cfg.auto_backup_interval_ms

  unfoldable pub schedule_next : Scheduler → Scheduler
  unfolding backoff
  schedule_next s =
      if is_some s.timer then s else record s { timer = some (backoff s.consecutive_failures) }

  unfoldable pub start : Scheduler → Scheduler
  unfolding schedule_next
  start s =
      if not cfg.auto_backup_enabled then s else if is_some s.timer then s else schedule_next s

  unfoldable pub stop : Scheduler → Scheduler
  stop s = record s { timer = none }

  abbrev again : Scheduler → Scheduler
  again s = if cfg.auto_backup_enabled then schedule_next s else s

  -- The timeout fires; its run returns or throws later.
  unfoldable pub fire : Scheduler → Scheduler
  fire s = record s { timer = none }

  unfoldable pub after_run : Bool → Scheduler → Scheduler
  unfolding schedule_next
  after_run true s = again (record s { consecutive_failures = 0 })
  after_run false s = again (record s { consecutive_failures = s.consecutive_failures + 1 })

pub data TimerEvent : Type 0 where
  started stopped fired : TimerEvent
  ran : Bool → TimerEvent

module _ (cfg : CocBackupConfig) where
  unfoldable pub tick : TimerEvent → Scheduler → Scheduler
  unfolding start stop fire after_run
  tick started s = start cfg s
  tick stopped s = stop cfg s
  tick fired s = fire cfg s
  tick (ran returned) s = after_run cfg returned s

  unfoldable pub tick_all : List TimerEvent → Scheduler → Scheduler
  unfolding tick
  tick_all [] s = s
  tick_all (e ∷ es) s = tick_all es (tick e s)

  -- The delay is no shorter than the interval, or than an hour where the interval is longer, and no
  -- longer than the interval, or than an hour where the interval is shorter.
  abbrev pub IsWithin : ℕ → Type 0
  IsWithin d =
      (min_of cfg.auto_backup_interval_ms one_hour_ms ≤ d)
      × (d ≤ max_of cfg.auto_backup_interval_ms one_hour_ms)

  abbrev Pending : Scheduler → Type 0
  Pending s = (d : ℕ) → s.timer ≡ some d → IsWithin d
