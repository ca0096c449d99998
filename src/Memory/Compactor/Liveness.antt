-- ===== src/Memory/Compactor/Liveness.antt =====
-- How many messages a pass of the compaction leaves, which ones, and what repeated passes come to.
use claw_mem.Prelude.{
  All-every, count-keep_if, keep_if-same, count-take-drop, count, ltb, leb, min_of, length, drop,
  keep_if, ok, ℕ, zero, suc, ◌+◌, ◌-◌, ◌≤◌, ◌<◌, String, ◌≡◌, sym, ap, ◌∙◌, Bool, true, false, List,
  [], ◌∷◌, arith, length-take, refl,
}
use claw_mem.Memory.Types.{Observation}
use claw_mem.Memory.Sql.{Sorter, IsSorter}
use claw_mem.Memory.Sql.Laws.{take-Ascends}
use claw_mem.Memory.Observations.{MemoryDb, is_uncompacted_chat, get_uncompacted_chat}
use claw_mem.Memory.Observations.Rows.{IsValid}
use claw_mem.Memory.Compactor.{
  CompactionConfig, Writer, nothing_done, pull_limit, plan, run_chat_compaction, passes,
  get_uncompacted_chat,
}
use claw_mem.Memory.Compactor.Passes.{waiting, rolled, oldest_first, length-oldest_first}
use claw_mem.Memory.Compactor.Drain.{waiting_at, after-IsValid, after-waiting}

waiting-at :
    (agent : String) (db : MemoryDb)
    → waiting_at agent (λ _. true) db.observations ≡ waiting agent db
waiting-at agent db =
    ap length (keep_if-same _ _ db.observations (All-every _ _ (λ o. ground arith)))

count-drop : (n : ℕ) (os : List Observation) → count (λ o. true) (drop n os) ≡ length os - n
count-drop zero [] = omega arith
count-drop zero (o ∷ os) = omega (arith, count-drop zero os)
count-drop (suc n) [] = omega arith
count-drop (suc n) (o ∷ os) = omega (arith, count-drop n os)

plan-empty :
    (order : Sorter) (cfg : CompactionConfig) (agent : String) (db : MemoryDb)
    → pull_limit cfg ≤ cfg.keep_recent_raw
    → plan order cfg agent db ≡ []
unfolding plan get_uncompacted_chat
plan-empty order cfg agent db h =
    let short = length-take (pull_limit cfg) (
      order.ascending (λ o. o.created_at_epoch)
        (keep_if (is_uncompacted_chat agent) db.observations)) in
    ground arith

module _ (order : Sorter) (laws : IsSorter order) where
  module _ (w : Writer) (digest : String → String) (iso : ℕ → String) where
    module _ (cfg : CompactionConfig) (agent : String) where
      -- Where compaction is on and ids differ: of the messages that wait, as many as are pulled but for
      -- those to keep are rolled up, and the others still wait.
      pub run_chat_compaction-waiting :
          (started now : ℕ) (db : MemoryDb)
          → cfg.chat_memory_enabled ≡ true
          → cfg.enabled ≡ true
          → IsValid db
          → waiting agent
              (run_chat_compaction w digest iso order cfg agent started now false false db).1
            ≡ waiting agent db - rolled cfg (waiting agent db)
      run_chat_compaction-waiting started now db on also v =
          sym (
            waiting-at agent
              (run_chat_compaction w digest iso order cfg agent started now false false db).1)
          ∙ after-waiting order laws w digest iso agent started now cfg db (λ _. true) on also v
          ∙ count-drop (rolled cfg (waiting agent db)) (oldest_first order laws agent db)
          ∙ ap (λ n. n - rolled cfg (waiting agent db)) (length-oldest_first order laws agent db)

      -- Where compaction is on, ids differ and a message from before a second still waits behind a pass:
      -- every message of that second or later that waited before the pass still waits.
      pub run_chat_compaction-oldest :
          (started now : ℕ) (db : MemoryDb) (e : ℕ)
          → cfg.chat_memory_enabled ≡ true
          → cfg.enabled ≡ true
          → IsValid db
          → 1
            ≤ waiting_at agent
                (λ s. ltb s e)
                (run_chat_compaction w digest iso order cfg agent started now false false
                  db).1.observations
          → waiting_at agent
              (λ s. leb e s)
              (run_chat_compaction w digest iso order cfg agent started now false false
                db).1.observations
            ≡ waiting_at agent (λ s. leb e s) db.observations
      run_chat_compaction-oldest started now db e on also v h =
          let k = rolled cfg (waiting agent db) in
          let os = oldest_first order laws agent db in
          let left = after-waiting order laws w digest iso agent started now cfg db in
          let older = left (λ s. ltb s e) on also v in
          let newer = left (λ s. leb e s) on also v in
          let none =
            take-Ascends (λ o. o.created_at_epoch) (λ o. ltb o.created_at_epoch e) e k os
              (laws.ascends _ _) (λ o q. ground arith) (omega arith) in
          let parts = count-take-drop (λ o. leb e o.created_at_epoch) k os in
          let whole =
            laws.count_ascending (λ o. o.created_at_epoch) (λ o. leb e o.created_at_epoch)
              (keep_if (is_uncompacted_chat agent) db.observations) in
          let chats =
            count-keep_if (is_uncompacted_chat agent) (λ o. leb e o.created_at_epoch)
              db.observations in
          omega arith

      -- The messages that wait behind a number of passes, and that many fewer than before, but for
      -- those to keep.
      passes-waiting :
          (n now : ℕ) (db : MemoryDb)
          → cfg.chat_memory_enabled ≡ true
          → cfg.enabled ≡ true
          → cfg.keep_recent_raw < pull_limit cfg
          → IsValid db
          → waiting agent db ≤ n + cfg.keep_recent_raw
          → waiting agent (passes w digest iso order n cfg agent now db)
            ≡ min_of cfg.keep_recent_raw (waiting agent db)
      unfolding passes
      passes-waiting zero now db on also p v h = ground arith
      passes-waiting (suc n) now db on also p v h =
          let next = (run_chat_compaction w digest iso order cfg agent now now false false db).1 in
          let left = run_chat_compaction-waiting now now db on also v in
          let rest =
            passes-waiting n (now + 1000) next on also p
              (after-IsValid order laws w digest iso agent now now cfg db v)
              (ground (arith, left, h, p)) in
          ground (arith, rest, left, p)

      -- Where compaction is on, ids differ and a pass pulls more messages than are to be kept: as many
      -- passes as messages wait leave exactly those to keep, or all where there are fewer.
      pub passes-drain :
          (now : ℕ) (db : MemoryDb)
          → cfg.chat_memory_enabled ≡ true
          → cfg.enabled ≡ true
          → cfg.keep_recent_raw < pull_limit cfg
          → IsValid db
          → waiting agent (passes w digest iso order (waiting agent db) cfg agent now db)
            ≡ min_of cfg.keep_recent_raw (waiting agent db)
      passes-drain now db on also p v =
          passes-waiting (waiting agent db) now db on also p v (omega arith)

      -- Where a pass pulls no more messages than are to be kept: a pass does nothing, whatever waits,
      -- and whether or not the database fails.
      pub run_chat_compaction-stuck :
          (started now : ℕ) (commit_fails prune_fails : Bool) (db : MemoryDb)
          → pull_limit cfg ≤ cfg.keep_recent_raw
          → run_chat_compaction w digest iso order cfg agent started now commit_fails prune_fails db
            ≡ (ok nothing_done, db)
      unfolding run_chat_compaction
      run_chat_compaction-stuck started now commit_fails prune_fails db h =
          rw (plan-empty order cfg agent db h) refl
