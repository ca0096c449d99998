-- ===== src/Memory/Compactor.antt =====
-- packages/claw-mem/src/observer/chat-compactor.ts: a pass of the compaction, in the two parts that the
-- wait for the summary separates, and the counter that triggers passes.
pub mod Passes
pub mod Trigger
pub mod Drain
pub mod Liveness
use claw_mem.Prelude.{
  if◌then◌else◌, leb, max_of, min_of, length, take, Result, ok, err, ℕ, ◌-◌, ◌*◌, String, Bool, not,
  ◌||◌, Option, none, some, List, [], ◌∷◌, eqb, zero, suc, ◌+◌, true, false,
}
use claw_mem.Memory.Types.{Observation, ObservationInput}
use claw_mem.Memory.Sql.{Sorter}
use claw_mem.Memory.Observations.{
  MemoryDb, insert, get_uncompacted_chat, mark_compacted, prune_compacted_low_value, ids,
}

pub record CompactionConfig : Type 0 where
  pub chat_memory_enabled : Bool
  pub enabled : Bool
  pub trigger_every : ℕ
  pub keep_recent_raw : ℕ
  pub delete_compacted_low_value : Bool
  pub min_importance_to_keep : ℕ

pub record CompactionResult : Type 0 where
  pub batch_size : ℕ
  pub compaction_id : Option ℕ
  pub pruned_count : ℕ

abbrev pub nothing_done : CompactionResult
nothing_done = record { batch_size = 0; compaction_id = none; pruned_count = 0 }

abbrev pub pull_limit : CompactionConfig → ℕ
pull_limit cfg = min_of 200 (max_of cfg.trigger_every 1 * 5)

-- The double 0.9.
abbrev pub load_bearing : ℕ
load_bearing = 0x3FECCCCCCCCCCCCD

-- The oldest of a batch, without the `keepRecent` at its end.
abbrev pub compactable_of : ℕ → List Observation → List Observation
compactable_of keep_recent batch =
    if leb (length batch) keep_recent then [] else take (length batch - keep_recent) batch

module _ (order : Sorter) where
  -- What a pass will roll up: nothing when compaction is off.
  unfoldable pub plan : CompactionConfig → String → MemoryDb → List Observation
  plan cfg agent db =
      if not cfg.chat_memory_enabled || not cfg.enabled
      then []
      else compactable_of cfg.keep_recent_raw (get_uncompacted_chat order agent (pull_limit cfg) db)

-- What the program writes about a batch: its id of a session, title, facts and narrative, from the
-- batch and the answer of the summarizer.
pub record Writer : Type 0 where
  pub session_of : String → ℕ → String
  pub title_of : List Observation → String
  pub facts_of : List Observation → List String
  pub narrative_of : List Observation → Option String

module _ (w : Writer) where
  abbrev pub compaction_input : String → ℕ → List Observation → ObservationInput
  compaction_input agent started compactable = record {
    session_id = w.session_of agent started;
    agent_id = agent;
    observation_type = "learning";
    title = w.title_of compactable;
    facts = w.facts_of compactable;
    narrative = w.narrative_of compactable;
    concepts = "chat-memory" ∷ "compaction" ∷ [];
    files_read = [];
    files_modified = [];
    tool_name = some "chat_compaction";
    prompt_number = 0;
    importance = some load_bearing;
  }

  module _ (digest : String → String) (iso : ℕ → String) where
    -- The transaction: the parent is inserted and its children are marked, or neither is.
    unfoldable pub roll_up :
        String → ℕ → ℕ → List Observation → Bool → MemoryDb → Result String ℕ × MemoryDb
    unfolding insert mark_compacted
    roll_up agent started now compactable fails db =
        let inserted = insert digest iso now (compaction_input agent started compactable) db in
        let marked = mark_compacted (ids compactable) inserted.0 inserted.1 in
        if fails then (err "database error", db) else (ok inserted.0, marked.1)

    module _ (order : Sorter) where
      -- The prune behind a pass; an error of it is only logged.
      unfoldable pub prune_after : CompactionConfig → String → Bool → MemoryDb → ℕ × MemoryDb
      unfolding prune_compacted_low_value
      prune_after cfg agent fails db =
          if cfg.delete_compacted_low_value
          then (if fails
              then (0, db)
              else prune_compacted_low_value order agent cfg.min_importance_to_keep
                  cfg.keep_recent_raw db)
          else (0, db)

      -- `runChatCompaction`, where nothing changes the tables during the wait for the summary.
      unfoldable pub run_chat_compaction :
          CompactionConfig
          → String
          → ℕ
          → ℕ
          → Bool
          → Bool
          → MemoryDb
          → Result String CompactionResult × MemoryDb
      unfolding plan roll_up prune_after
      run_chat_compaction cfg agent started now commit_fails prune_fails db =
          let compactable = plan order cfg agent db in
          let rolled = roll_up agent started now compactable commit_fails db in
          let pruned = prune_after cfg agent prune_fails rolled.1 in
          if eqb (length compactable) 0 then (ok nothing_done, db) else elim rolled.0 [
            | err e ↦ (err e, rolled.1)
            | ok id ↦ (
              ok (record {
                batch_size = length compactable;
                compaction_id = some id;
                pruned_count = pruned.0;
              }),
              pruned.1,
            )
          ]

      -- That many passes, none of which fails, a second apart.
      unfoldable pub passes : ℕ → CompactionConfig → String → ℕ → MemoryDb → MemoryDb
      unfolding run_chat_compaction
      passes zero cfg agent now db = db
      passes (suc n) cfg agent now db =
          passes n cfg agent (now + 1000) (run_chat_compaction cfg agent now now false false db).1

-- `CompactionTrigger`: the counter, and what `tick` answers.
unfoldable pub tick : CompactionConfig → ℕ → Bool × ℕ
tick cfg counter =
    if not cfg.enabled
    then (false, counter)
    else if leb (max_of 1 cfg.trigger_every) (counter + 1)
    then (true, 0)
    else (false, counter + 1)

abbrev pub reset : ℕ → ℕ
reset counter = 0

-- How often a series of ticks fires, and the counter behind it.
unfoldable pub ticks : CompactionConfig → ℕ → ℕ → ℕ × ℕ
unfolding tick
ticks cfg zero counter = (0, counter)
ticks cfg (suc n) counter =
    let now = tick cfg counter in
    let rest = ticks cfg n now.1 in ((if now.0 then 1 else 0) + rest.0, rest.1)
