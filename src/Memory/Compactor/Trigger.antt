-- ===== src/Memory/Compactor/Trigger.antt =====
-- How often the counter of the compaction fires.
use claw_mem.Prelude.{
  leb, max_of, Bool-cases, ℕ, zero, suc, ◌+◌, ◌*◌, ◌<◌, ◌≡◌, inl, inr, true, arith,
}
use claw_mem.Memory.Compactor.{CompactionConfig, tick, ticks}

abbrev pub period : CompactionConfig → ℕ
period cfg = max_of 1 cfg.trigger_every

one_more :
    (fired p c n counter : ℕ)
    → fired * p + c ≡ n + 0
    → counter + 1 ≡ p
    → (1 + fired) * p + c ≡ suc n + counter
one_more fired p c n counter h k = grind arith

-- Where compaction is on: ticks fire once for every full period since the counter was zero, and the
-- counter is what is left over, below a period.
pub ticks_lem :
    (cfg : CompactionConfig) (n counter : ℕ)
    → cfg.enabled ≡ true
    → counter < period cfg
    → ((ticks cfg n counter).0 * period cfg + (ticks cfg n counter).1 ≡ n + counter)
      × ((ticks cfg n counter).1 < period cfg)
unfolding ticks tick
ticks_lem cfg zero counter on h = (omega arith, h)
ticks_lem cfg (suc n) counter on h = elim (Bool-cases (leb (period cfg) (counter + 1))) [
  | inl full ↦
      let rest = ticks_lem cfg n 0 on (ground arith) in
      rw (on, full)
        (one_more (ticks cfg n 0).0 (period cfg) _ n counter rest.0 (ground arith), rest.1)
  | inr more ↦
      let rest = ticks_lem cfg n (counter + 1) on (ground arith) in
      rw (on, more) (omega (arith, rest.0), rest.1)
]
