-- ===== src/Memory/Tests.antt =====
-- The memory at concrete inputs.
use claw_mem.Prelude.{
  count, leb, length, All, Result, ok, ℕ, ◌+◌, ◌*◌, ◌≤◌, ◌<◌, String, ◌≡◌, refl, true, false, ◌&&◌,
  none, some, List, [], ◌∷◌, arith, ltb, Option,
}
use claw_mem.Memory.Types.{Observation, ObservationInput, units}
use claw_mem.Memory.Sql.Insertion.{insertion, insertion-IsSorter}
use claw_mem.Memory.Observations.{
  MemoryDb, insert, is_duplicate, get_uncompacted_chat, mark_compacted, to_delete, is_chat,
  prune_compacted_low_value, get_recent,
}
use claw_mem.Memory.Observations.Rows.{IsValid}
use claw_mem.Memory.Observations.Duplicate.{insert-is_duplicate}
use claw_mem.Memory.Observations.Prune.{prune_compacted_low_value-keeps, is_since, is_of_second}
use claw_mem.Memory.Compactor.{
  CompactionConfig, Writer, nothing_done, run_chat_compaction, plan, roll_up, prune_after, passes,
  ticks,
}
use claw_mem.Memory.Compactor.Passes.{waiting}
use claw_mem.Memory.Compactor.Drain.{waiting_at}
use claw_mem.Memory.Compactor.Liveness.{
  passes-drain, run_chat_compaction-oldest, run_chat_compaction-stuck,
}
use claw_mem.Memory.Compactor.Trigger.{ticks_lem, period}
use claw_mem.Memory.Context.{SessionSummary, build_context}
use claw_mem.Memory.Context.Budget.{IsContext, build_context-IsContext}
use claw_mem.Memory.Search.{
  SearchOptions, search_words, sanitize_fts_query, search_observations, limit_of, search_fts,
  search_like, split_words, join_or,
}
use claw_mem.Memory.Search.Words.{
  read_query, read-sanitize_fts_query, search_observations-IsAsked, IsAsked,
}
use claw_mem.JsMap
use claw_mem.Memory.Hooks.{
  Hooks, HooksConfig, EventContext, HookEvent, Role, user, session_started, message, compacted,
  session_ended, handle_all, session_of,
}
use claw_mem.Memory.Hooks.Kept.{IsKept, handle_all-IsKept}
use claw_mem.Memory.Recall.{recall_observations, hybrid, merge_hits, merge_recent}
use claw_mem.Memory.Recall.Merged.{IsRecall, recall_observations-IsRecall, search_with}

abbrev digest : String → String
digest s = s

abbrev iso : ℕ → String
iso n = "2026-01-01T00:00:00.000Z"

abbrev chat : ℕ → ℕ → ℕ → ℕ → Observation
chat id epoch rolled importance = record {
  id = id;
  session_id = "s";
  agent_id = "a";
  observation_type = "discovery";
  title = "User: hello";
  facts = "role: user" ∷ [];
  narrative = some "hello";
  concepts = [];
  files_read = [];
  files_modified = [];
  tool_name = some "message_received";
  prompt_number = 0;
  token_estimate = 5;
  content_hash = "h";
  created_at = "";
  created_at_epoch = epoch;
  compacted = rolled;
  importance = importance;
  compacted_into = none;
}

abbrev hello : ObservationInput
hello = record {
  session_id = "s";
  agent_id = "a";
  observation_type = "discovery";
  title = "User: hello";
  facts = [];
  narrative = none;
  concepts = [];
  files_read = [];
  files_modified = [];
  tool_name = some "message_received";
  prompt_number = 0;
  importance = none;
}

-- Three messages wait, out of order; two are compacted, one of them of little importance.
abbrev memory : MemoryDb
memory = record {
  observations = chat 1 10 1 3 ∷ chat 2 20 1 9 ∷ chat 3 40 0 3 ∷ chat 4 30 0 3 ∷ chat 5 50 0 3 ∷ [];
  next_id = 6;
  sessions = [];
}

memory-IsValid : IsValid memory
memory-IsValid = record {
  unique = (refl, (refl, (refl, (refl, (refl, tt)))));
  below = (omega arith, (omega arith, (omega arith, (omega arith, (omega arith, tt)))));
}

abbrev compaction : ℕ → ℕ → CompactionConfig
compaction trigger keep = record {
  chat_memory_enabled = true;
  enabled = true;
  trigger_every = trigger;
  keep_recent_raw = keep;
  delete_compacted_low_value = true;
  min_importance_to_keep = 7;
}

abbrev writer : Writer
writer = record {
  session_of = λ agent started. "chat-compaction";
  title_of = λ os. "Chat compaction";
  facts_of = λ os. [];
  narrative_of = λ os. none;
}

passes-drain_example :
    waiting "a" (passes writer digest iso insertion 3 (compaction 10 1) "a" 60000 memory) ≡ 1
passes-drain_example =
    passes-drain insertion insertion-IsSorter writer digest iso (compaction 10 1) "a" 60000 memory
      refl refl (omega arith) memory-IsValid

-- The message of second 30 is rolled up, that of second 40 waits.
oldest_left :
    1
    ≤ waiting_at "a"
        (λ s. ltb s 45)
        (run_chat_compaction writer digest iso insertion
          (compaction 10 2)
          "a"
          60000
          60000
          false
          false
          memory).1.observations
unfolding run_chat_compaction plan get_uncompacted_chat roll_up insert mark_compacted prune_after
    prune_compacted_low_value to_delete
oldest_left = omega arith

run_chat_compaction-oldest_example :
    waiting_at "a"
      (λ s. leb 45 s)
      (run_chat_compaction writer digest iso insertion
        (compaction 10 2)
        "a"
        60000
        60000
        false
        false
        memory).1.observations
    ≡ 1
run_chat_compaction-oldest_example =
    run_chat_compaction-oldest insertion insertion-IsSorter writer digest iso (compaction 10 2) "a"
      60000 60000 memory 45 refl refl memory-IsValid (oldest_left)

-- The default to keep is 20; with a trigger every 4 messages a pass pulls 20.
run_chat_compaction-stuck_example :
    run_chat_compaction writer digest iso insertion
      (compaction 4 20)
      "a"
      60000
      60000
      false
      false
      memory
    ≡ (ok nothing_done, memory)
run_chat_compaction-stuck_example =
    run_chat_compaction-stuck insertion insertion-IsSorter writer digest iso (compaction 4 20) "a"
      60000 60000 false false memory (omega arith)

one_deleted :
    count (is_of_second 10) (prune_compacted_low_value insertion "a" 7 2 memory).1.observations
    < count (is_of_second 10) memory.observations
unfolding prune_compacted_low_value to_delete
one_deleted = omega arith

prune_compacted_low_value-keeps_example :
    2
    ≤ count
        (λ o. is_chat "a" o && is_since 10 o)
        (prune_compacted_low_value insertion "a" 7 2 memory).1.observations
prune_compacted_low_value-keeps_example =
    prune_compacted_low_value-keeps insertion insertion-IsSorter "a" 7 2 memory memory-IsValid 10
      one_deleted

ticks_lem_example :
    ((ticks (compaction 10 1) 25 0).0 * period (compaction 10 1) + (ticks (compaction 10 1) 25 0).1
      ≡ 25)
    × ((ticks (compaction 10 1) 25 0).1 < period (compaction 10 1))
ticks_lem_example = ticks_lem (compaction 10 1) 25 0 refl (omega arith)

abbrev summary : SessionSummary
summary = record {
  session_id = "s";
  agent_id = "a";
  request = some "greet";
  investigated = none;
  learned = none;
  completed = none;
  next_steps = none;
  notes = none;
  observation_count = 3;
  token_estimate = 0;
  created_at_epoch = 20;
}

-- A formatter that shows the first observation.
abbrev brief : List SessionSummary → List Observation → ℕ → String
brief ss [] used = "# Memory"
brief ss (o ∷ os) used = o.title

build_context-IsContext_example :
    IsContext brief
      (summary ∷ [])
      memory.observations
      14
      (build_context brief (summary ∷ []) memory.observations 14)
build_context-IsContext_example =
    build_context-IsContext brief (summary ∷ []) memory.observations 14

read-sanitize_fts_query_example :
    read_query (sanitize_fts_query (97 ∷ 34 ∷ 32 ∷ 98 ∷ []))
    ≡ some (search_words (97 ∷ 34 ∷ 32 ∷ 98 ∷ []))
read-sanitize_fts_query_example = read-sanitize_fts_query (97 ∷ 34 ∷ 32 ∷ 98 ∷ [])

-- An index that finds every row.
abbrev all_rows : List ℕ → List Observation → Result String (List Observation)
all_rows query os = ok os

abbrev options : SearchOptions
options = record {
  query = 97 ∷ 98 ∷ [];
  agent_id = some "a";
  observation_type = none;
  limit = some 2;
  include_compacted = false;
}

search_finds-IsAsked :
    All
      (IsAsked options)
      (search_observations insertion (λ q o. true) all_rows options memory).results
    × (length (search_observations insertion (λ q o. true) all_rows options memory).results
        ≤ limit_of options)
    × ((search_observations insertion (λ q o. true) all_rows options memory).total_count
        ≡ length (search_observations insertion (λ q o. true) all_rows options memory).results)
search_finds-IsAsked =
    search_observations-IsAsked insertion insertion-IsSorter (λ q o. true) all_rows options memory

recall_observations-IsRecall_example : IsRecall "a" 3 (
    recall_observations insertion
      (search_with insertion (λ q o. true) all_rows none)
      "a"
      (97 ∷ 98 ∷ [])
      hybrid
      2
      2
      memory)
recall_observations-IsRecall_example =
    recall_observations-IsRecall insertion insertion-IsSorter (λ q o. true) all_rows none "a"
      (97 ∷ 98 ∷ []) hybrid 2 2 memory memory-IsValid refl

kept_out : is_duplicate digest iso 1200 hello 30000 (insert digest iso 1000 hello memory).1 ≡ true
kept_out = insert-is_duplicate digest iso 1000 1200 30000 hello memory (omega arith)

-- With a limit of two rows, three are recalled when the search fills the limit.
one_too_many :
    length (
      recall_observations insertion
        (search_with insertion (λ q o. true) all_rows none)
        "a"
        (97 ∷ 98 ∷ [])
        hybrid
        2
        2
        memory)
    ≡ 3
unfolding recall_observations merge_hits merge_recent get_recent search_observations search_fts
    search_like sanitize_fts_query split_words join_or units
one_too_many = refl

abbrev hooks_config : HooksConfig
hooks_config = record {
  compaction = compaction 2 1;
  capture_assistant = false;
  dedup_window_ms = 30000;
  skip_tools = "mem_search" ∷ [];
}

abbrev event : ℕ → EventContext
event now = record { now = now; agent_id = some "a"; session_id = none }

abbrev heard : Role → String → String → String → ℕ → Option ObservationInput
heard role text session agent prompts = some (record hello { title = text; session_id = session })

abbrev fresh : Hooks
fresh = record { db = memory; summaries = []; active_sessions = []; triggers = []; scheduled = [] }

fresh-IsKept : IsKept (compaction 2 1) fresh
unfolding JsMap.get
fresh-IsKept = record { valid = memory-IsValid; waits = λ agent. omega arith }

-- Two messages, of which the second schedules a pass, and the pass.
abbrev talk : List HookEvent
talk =
    session_started (event 60000)
    ∷ message (event 61000) user "one" heard
    ∷ message (event 62000) user "two" heard
    ∷ compacted (event 63000) false false
    ∷ session_ended (event 64000)
    ∷ []

talk-IsKept :
    IsKept (compaction 2 1) (handle_all digest iso iso hooks_config insertion writer talk fresh)
talk-IsKept = handle_all-IsKept digest iso iso hooks_config insertion writer talk fresh fresh-IsKept
