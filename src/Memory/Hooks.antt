-- ===== src/Memory/Hooks.antt =====
-- The handlers of packages/claw-mem/src/hooks/index.ts that keep the memory, in any order, with the
-- passes of the compaction that they start or leave for later. What an event holds, what an extractor
-- makes of it and what a summarizer answers is part of the event.
pub mod Kept
pub mod Captured
use claw_mem.Prelude.{
  if◌then◌else◌, get_or, includes, Result, ℕ, String, Bool, true, false, Option, none, some, List,
  [], ◌∷◌, ◌++◌, ◌==◌, ltb, eqb, length, ok, err, ◌+◌, ◌&&◌, ◌||◌,
}
use claw_mem.JsMap
use claw_mem.Memory.Types.{SessionRow, ObservationInput}
use claw_mem.Memory.Sql.{Sorter}
use claw_mem.Memory.Observations.{MemoryDb, insert, is_duplicate, get_by_session}
use claw_mem.Memory.Sessions.{SummaryInput, start_session, end_session, upsert_summary}
use claw_mem.Memory.Context.{SessionSummary}
use claw_mem.Memory.Compactor.{
  CompactionConfig, CompactionResult, Writer, tick, run_chat_compaction,
}

pub record ActiveSession : Type 0 where
  pub session_id : String
  pub prompt_count : ℕ
  pub last_user_message : Option String

pub record Hooks : Type 0 where
  pub db : MemoryDb
  pub summaries : List SessionSummary
  pub active_sessions : JsMap.Map ActiveSession
  pub triggers : JsMap.Map ℕ
  pub scheduled : List String

pub data Role : Type 0 where
  user assistant : Role

-- What an event says of agent and session.
pub record EventContext : Type 0 where
  pub now : ℕ
  pub agent_id : Option String
  pub session_id : Option String

-- Extractors, from the role and text, or the name of a tool; the session, agent and number of prompts.
pub data HookEvent : Type 0 where
  session_started session_ended before_prompt : EventContext → HookEvent
  message :
      EventContext
      → Role
      → String
      → (Role → String → String → String → ℕ → Option ObservationInput)
      → HookEvent
  tool_called : EventContext → String → (String → String → ℕ → Option ObservationInput) → HookEvent
  agent_ended : EventContext → Result String SummaryInput → Bool → Bool → HookEvent
  -- The microtask of a scheduled pass.
  compacted : EventContext → Bool → Bool → HookEvent

pub record HooksConfig : Type 0 where
  pub compaction : CompactionConfig
  pub capture_assistant : Bool
  pub dedup_window_ms : ℕ
  pub skip_tools : List String

abbrev pub agent_of : EventContext → String
agent_of e = get_or e.agent_id "default"

-- `ctx.sessionId ?? session?.sessionId`.
unfoldable pub session_of : EventContext → Hooks → Option String
unfolding JsMap.get
session_of e s = elim e.session_id [
  | some id ↦ some id
  | none ↦ elim (JsMap.get s.active_sessions (agent_of e)) [
    | none ↦ none
    | some a ↦ some a.session_id
  ]
]

unfoldable pub prompt_number : EventContext → Hooks → ℕ
unfolding JsMap.get
prompt_number e s = elim (JsMap.get s.active_sessions (agent_of e)) [
  | none ↦ 0
  | some a ↦ a.prompt_count
]

-- A change of the session of an agent that has one.
unfoldable pub update_session : String → (ActiveSession → ActiveSession) → Hooks → Hooks
unfolding JsMap.get JsMap.set
update_session agent f s = elim (JsMap.get s.active_sessions agent) [
  | none ↦ s
  | some a ↦ record s { active_sessions = JsMap.set s.active_sessions agent (f a) }
]

-- `getTrigger(agentId).tick()`, and the pass that it schedules.
unfoldable pub tick_trigger : CompactionConfig → String → Hooks → Hooks
unfolding JsMap.get JsMap.set tick
tick_trigger cfg agent s =
    let (fires, counter) = tick cfg (get_or (JsMap.get s.triggers agent) 0) in
    record s {
      triggers = JsMap.set s.triggers agent counter;
      scheduled = if fires then s.scheduled ++ (agent ∷ []) else s.scheduled;
    }

unfoldable pub session_start : (ℕ → String) → EventContext → Hooks → Hooks
unfolding start_session JsMap.set
session_start stamp e s =
    let id = get_or e.session_id (stamp e.now) in
    record s {
      db = record s.db { sessions = start_session e.now id (agent_of e) s.db.sessions };
      active_sessions =
          JsMap.set s.active_sessions (agent_of e)
            (record { session_id = id; prompt_count = 0; last_user_message = none });
    }

unfoldable pub session_end : EventContext → Hooks → Hooks
unfolding end_session session_of JsMap.delete
session_end e s =
    let rows : List SessionRow = elim (session_of e s) [
      | none ↦ s.db.sessions
      | some id ↦ if id == "" then s.db.sessions else end_session e.now id s.db.sessions
    ] in
    record s {
      db = record s.db { sessions = rows };
      active_sessions = JsMap.delete s.active_sessions (agent_of e);
    }

abbrev pub is_user : Role → Bool
is_user user = true
is_user assistant = false

module _ (digest : String → String) (iso stamp : ℕ → String) (cfg : HooksConfig) where
  -- An observation that is no duplicate is inserted, and nothing else changes.
  unfoldable pub insert_new : ℕ → ObservationInput → Hooks → Bool × Hooks
  unfolding is_duplicate insert
  insert_new now o s =
      if is_duplicate digest iso now o cfg.dedup_window_ms s.db
      then (false, s)
      else (true, record s { db = (insert digest iso now o s.db).1 })

  unfoldable pub capture_chat_message :
      EventContext
      → Role
      → String
      → (Role → String → String → String → ℕ → Option ObservationInput)
      → Hooks
      → Hooks
  unfolding insert_new tick_trigger update_session session_of prompt_number
  capture_chat_message e role text extract s =
      let id = get_or (session_of e s) (stamp e.now) in
      let heard =
        if is_user role
        then update_session (agent_of e) (λ a. record a { last_user_message = some text }) s
        else s in
      let captured : Hooks = elim (extract role text id (agent_of e) (prompt_number e s)) [
        | none ↦ heard
        | some o ↦
            let inserted = insert_new e.now o heard in
            let ticked = tick_trigger cfg.compaction (agent_of e) inserted.1 in
            if inserted.0 then ticked else heard
      ] in
      if text == "" then s else captured

  unfoldable pub after_tool_call :
      EventContext → String → (String → String → ℕ → Option ObservationInput) → Hooks → Hooks
  unfolding insert_new session_of prompt_number
  after_tool_call e tool extract s =
      let id = get_or (session_of e s) "unknown" in
      if includes cfg.skip_tools tool
      then s
      else elim (extract id (agent_of e) (prompt_number e s)) [
        | none ↦ s
        | some o ↦ (insert_new e.now o s).1
      ]

  module _ (order : Sorter) (w : Writer) where
    -- A pass for an agent, its answer, and the tables behind it.
    unfoldable pub compact :
        ℕ → String → Bool → Bool → Hooks → Result String CompactionResult × Hooks
    unfolding run_chat_compaction
    compact now agent commit_fails prune_fails s =
        let pass =
          run_chat_compaction w digest iso order cfg.compaction agent now now commit_fails
            prune_fails s.db in
        (pass.0, record s { db = pass.1 })

    -- The pass at the end of an agent, and the trigger begun anew when it rolled something up; an error
    -- is only logged.
    unfoldable pub flush : ℕ → String → Bool → Bool → Hooks → Hooks
    unfolding compact JsMap.set
    flush now agent commit_fails prune_fails s =
        let pass = compact now agent commit_fails prune_fails s in
        let begun : Hooks = record pass.1 { triggers = JsMap.set pass.1.triggers agent 0 } in
        if cfg.compaction.chat_memory_enabled && cfg.compaction.enabled
        then elim pass.0 [ err x ↦ pass.1 | ok r ↦ if ltb 0 r.batch_size then begun else pass.1 ]
        else s

    unfoldable pub agent_end :
        EventContext → Result String SummaryInput → Bool → Bool → Hooks → Hooks
    unfolding flush session_of get_by_session upsert_summary
    agent_end e summary commit_fails prune_fails s = elim (session_of e s) [
      | none ↦ s
      | some id ↦
          if (id == "") || eqb (length (get_by_session order id s.db)) 0 then s else elim summary [
            | err x ↦ s
            | ok input ↦
                flush e.now (agent_of e) commit_fails prune_fails
                  (record s { summaries = upsert_summary e.now input s.summaries })
          ]
    ]

    -- The pass that was scheduled first, and what stays scheduled.
    unfoldable pub run_scheduled : ℕ → Bool → Bool → List String → Hooks → Hooks
    unfolding compact
    run_scheduled now commit_fails prune_fails [] s = s
    run_scheduled now commit_fails prune_fails (agent ∷ agents) s =
        (compact now agent commit_fails prune_fails (record s { scheduled = agents })).1

    -- The handlers.
    unfoldable pub handle : HookEvent → Hooks → Hooks
    unfolding session_start session_end update_session capture_chat_message after_tool_call
        agent_end run_scheduled
    handle (session_started e) s = session_start stamp e s
    handle (session_ended e) s = session_end e s
    handle (before_prompt e) s =
        update_session (agent_of e) (λ a. record a { prompt_count = a.prompt_count + 1 }) s
    handle (message e role text extract) s =
        let captured = capture_chat_message e role text extract s in
        if cfg.compaction.chat_memory_enabled && (is_user role || cfg.capture_assistant)
        then captured
        else s
    handle (tool_called e tool extract) s = after_tool_call e tool extract s
    handle (agent_ended e summary commit_fails prune_fails) s =
        agent_end e summary commit_fails prune_fails s
    handle (compacted e commit_fails prune_fails) s =
        run_scheduled e.now commit_fails prune_fails s.scheduled s

    unfoldable pub handle_all : List HookEvent → Hooks → Hooks
    unfolding handle
    handle_all [] s = s
    handle_all (e ∷ es) s = handle_all es (handle e s)
