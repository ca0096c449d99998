-- ===== src/Memory/Hooks/Kept.antt =====
-- What holds of the memory after any sequence of events.
use claw_mem.Prelude.{
  option_both, eqb, get_or, length, Result, if_both, ℕ, ◌<◌, String, Bool, true, false, Option,
  List, arith, ◌==◌, result_both, if◌then◌else◌, ltb, includes, ◌&&◌, ◌||◌, some, [], ◌∷◌,
}
use claw_mem.JsMap
use claw_mem.Memory.Types.{SessionRow}
use claw_mem.Memory.Sql.{Sorter}
use claw_mem.Memory.Observations.{MemoryDb, ids}
use claw_mem.Memory.Observations.Rows.{IsValid}
use claw_mem.Memory.Observations.Valid.{mark_compacted-IsValid, insert-IsValid, prune-IsValid}
use claw_mem.Memory.Compactor.{
  CompactionConfig, CompactionResult, Writer, tick, plan, roll_up, prune_after, run_chat_compaction,
}
use claw_mem.Memory.Compactor.Trigger.{period}
use claw_mem.Memory.Hooks.{
  Hooks, ActiveSession, update_session, tick_trigger, HooksConfig, insert_new, capture_chat_message,
  after_tool_call, session_start, session_end, compact, flush, agent_end, handle, handle_all,
  ObservationInput, EventContext, HookEvent, is_duplicate, Role, session_of, SummaryInput,
  session_started, is_user, agent_of, get_by_session, session_ended, prompt_number, before_prompt,
  message, tool_called, agent_ended, compacted, run_scheduled,
}

-- The ids of the observations are distinct, and no trigger has a full period behind it.
pub record IsKept (cfg : CompactionConfig) (s : Hooks) : Type 0 where
  pub valid : IsValid s.db
  pub waits : (agent : String) → get_or (JsMap.get s.triggers agent) 0 < period cfg

-- Tables are valid by their observations and the next id alone.
same_rows :
    (db : MemoryDb) (rows : List SessionRow) → IsValid db → IsValid (record db { sessions = rows })
same_rows db rows v = record { unique = v.unique; below = v.below }

module _ (w : Writer) (digest : String → String) (iso : ℕ → String) (order : Sorter) where
  prune_after-IsValid :
      (cfg : CompactionConfig) (agent : String) (fails : Bool) (db : MemoryDb)
      → IsValid db
      → IsValid (prune_after w digest iso order cfg agent fails db).1
  unfolding prune_after
  prune_after-IsValid cfg agent fails db v =
      if_both (λ (r : ℕ × MemoryDb). IsValid r.1) cfg.delete_compacted_low_value _ _
        (λ _.
          if_both (λ (r : ℕ × MemoryDb). IsValid r.1) fails _ _ (λ _. v)
            (λ _. prune-IsValid order agent cfg.min_importance_to_keep cfg.keep_recent_raw db v))
        (λ _. v)

  -- A pass keeps the tables valid, whether or not the database fails.
  run_chat_compaction-IsValid :
      (cfg : CompactionConfig) (agent : String) (started now : ℕ) (commit_fails prune_fails : Bool)
      (db : MemoryDb)
      → IsValid db
      → IsValid
          (run_chat_compaction w digest iso order cfg agent started now commit_fails prune_fails
            db).1
  unfolding run_chat_compaction roll_up
  run_chat_compaction-IsValid cfg agent started now true prune_fails db v =
      if_both (λ (r : Result String CompactionResult × MemoryDb). IsValid r.1)
        (eqb (length (plan order cfg agent db)) 0) _ _ (λ _. v) (λ _. v)
  run_chat_compaction-IsValid cfg agent started now false prune_fails db v =
      if_both (λ (r : Result String CompactionResult × MemoryDb). IsValid r.1)
        (eqb (length (plan order cfg agent db)) 0) _ _ (λ _. v)
        (λ _. prune_after-IsValid cfg agent prune_fails _ (
          mark_compacted-IsValid (ids (plan order cfg agent db)) db.next_id _
            (insert-IsValid digest iso now _ db v)))

module _ (cfg : CompactionConfig) where
  update_session-IsKept :
      (agent : String) (f : ActiveSession → ActiveSession) (s : Hooks)
      → IsKept cfg s
      → IsKept cfg (update_session agent f s)
  unfolding update_session
  update_session-IsKept agent f s k =
      option_both (λ (h : Hooks). IsKept cfg h) (JsMap.get s.active_sessions agent) _ _ (λ _. k)
        (λ _ _. record { valid = k.valid; waits = k.waits })

  set_trigger :
      (m : JsMap.Map ℕ) (agent : String) (n : ℕ)
      → n < period cfg
      → ((a : String) → get_or (JsMap.get m a) 0 < period cfg)
      → (a : String) → get_or (JsMap.get (JsMap.set m agent n) a) 0 < period cfg
  set_trigger m agent n b k a =
      rw (JsMap.get-set m agent a n)
        (if_both (λ (o : Option ℕ). get_or o 0 < period cfg) (agent == a) _ _ (λ _. b) (λ _. k a))

  tick-below : (n : ℕ) → n < period cfg → (tick cfg n).1 < period cfg
  unfolding tick
  tick-below n b = ground arith

  tick_trigger-IsKept :
      (agent : String) (s : Hooks) → IsKept cfg s → IsKept cfg (tick_trigger cfg agent s)
  unfolding tick_trigger
  tick_trigger-IsKept agent s k = record {
    valid = k.valid;
    waits = set_trigger s.triggers agent _ (tick-below _ (k.waits agent)) k.waits;
  }

module _ (digest : String → String) (iso stamp : ℕ → String) (cfg : HooksConfig) where
  abbrev Kept : Hooks → Type 0
  Kept s = IsKept cfg.compaction s

  insert_new-Kept :
      (now : ℕ) (o : ObservationInput) (s : Hooks)
      → Kept s
      → Kept (insert_new digest iso stamp cfg now o s).1
  unfolding insert_new
  insert_new-Kept now o s k =
      if_both (λ (r : Bool × Hooks). Kept r.1)
        (is_duplicate digest iso now o cfg.dedup_window_ms s.db) _ _ (λ _. k)
        (λ _. record { valid = insert-IsValid digest iso now o s.db k.valid; waits = k.waits })

  capture_chat_message-Kept :
      (e : EventContext) (role : Role) (text : String)
      (extract : Role → String → String → String → ℕ → Option ObservationInput) (s : Hooks)
      → Kept s
      → Kept (capture_chat_message digest iso stamp cfg e role text extract s)
  unfolding capture_chat_message
  capture_chat_message-Kept e role text extract s k =
      let heard : Kept (
          if is_user role
          then update_session (agent_of e) (λ a. record a { last_user_message = some text }) s
          else s) =
        if_both Kept (is_user role) _ _
          (λ _. update_session-IsKept cfg.compaction (agent_of e) _ s k) (λ _. k) in
      if_both Kept (text == "") _ _ (λ _. k)
        (λ _.
          option_both Kept
            (extract role text (get_or (session_of e s) (stamp e.now)) (agent_of e)
              (prompt_number e s))
            _ _ (λ _. heard)
            (λ o _.
              if_both Kept _ _ _
                (λ _.
                  tick_trigger-IsKept cfg.compaction (agent_of e) _
                    (insert_new-Kept e.now o _ heard))
                (λ _. heard)))

  after_tool_call-Kept :
      (e : EventContext) (tool : String) (extract : String → String → ℕ → Option ObservationInput)
      (s : Hooks)
      → Kept s
      → Kept (after_tool_call digest iso stamp cfg e tool extract s)
  unfolding after_tool_call
  after_tool_call-Kept e tool extract s k =
      if_both Kept (includes cfg.skip_tools tool) _ _ (λ _. k)
        (λ _.
          option_both Kept
            (extract (get_or (session_of e s) "unknown") (agent_of e) (prompt_number e s)) _ _
            (λ _. k) (λ o _. insert_new-Kept e.now o s k))

  session_start-Kept : (e : EventContext) (s : Hooks) → Kept s → Kept (session_start stamp e s)
  unfolding session_start
  session_start-Kept e s k = record { valid = same_rows s.db _ k.valid; waits = k.waits }

  session_end-Kept : (e : EventContext) (s : Hooks) → Kept s → Kept (session_end e s)
  unfolding session_end
  session_end-Kept e s k = record { valid = same_rows s.db _ k.valid; waits = k.waits }

  module _ (order : Sorter) (w : Writer) where
    compact-Kept :
        (now : ℕ) (agent : String) (commit_fails prune_fails : Bool) (s : Hooks)
        → Kept s
        → Kept (compact digest iso stamp cfg order w now agent commit_fails prune_fails s).1
    unfolding compact
    compact-Kept now agent commit_fails prune_fails s k = record {
      valid =
          run_chat_compaction-IsValid w digest iso order cfg.compaction agent now now commit_fails
            prune_fails s.db k.valid;
      waits = k.waits;
    }

    flush-Kept :
        (now : ℕ) (agent : String) (commit_fails prune_fails : Bool) (s : Hooks)
        → Kept s
        → Kept (flush digest iso stamp cfg order w now agent commit_fails prune_fails s)
    unfolding flush
    flush-Kept now agent commit_fails prune_fails s k =
        let pass = compact-Kept now agent commit_fails prune_fails s k in
        if_both Kept (cfg.compaction.chat_memory_enabled && cfg.compaction.enabled) _ _
          (λ _.
            result_both Kept
              (compact digest iso stamp cfg order w now agent commit_fails prune_fails s).0 _ _
              (λ _ _. pass)
              (λ r _.
                if_both Kept (ltb 0 r.batch_size) _ _
                  (λ _. record {
                    valid = pass.valid;
                    waits = set_trigger cfg.compaction _ agent 0 (ground arith) pass.waits;
                  })
                  (λ _. pass)))
          (λ _. k)

    agent_end-Kept :
        (e : EventContext) (summary : Result String SummaryInput) (commit_fails prune_fails : Bool)
        (s : Hooks)
        → Kept s
        → Kept (agent_end digest iso stamp cfg order w e summary commit_fails prune_fails s)
    unfolding agent_end
    agent_end-Kept e summary commit_fails prune_fails s k =
        option_both Kept (session_of e s) _ _ (λ _. k)
          (λ id _.
            if_both Kept ((id == "") || eqb (length (get_by_session order id s.db)) 0) _ _ (λ _. k)
              (λ _.
                result_both Kept summary _ _ (λ _ _. k)
                  (λ input _.
                    flush-Kept e.now (agent_of e) commit_fails prune_fails _
                      (record { valid = k.valid; waits = k.waits }))))

    run_scheduled-Kept :
        (now : ℕ) (commit_fails prune_fails : Bool) (agents : List String) (s : Hooks)
        → Kept s
        → Kept (run_scheduled digest iso stamp cfg order w now commit_fails prune_fails agents s)
    unfolding run_scheduled
    run_scheduled-Kept now commit_fails prune_fails [] s k = k
    run_scheduled-Kept now commit_fails prune_fails (agent ∷ agents) s k =
        compact-Kept now agent commit_fails prune_fails (record s { scheduled = agents })
          (record { valid = k.valid; waits = k.waits })

    handle-Kept :
        (e : HookEvent) (s : Hooks) → Kept s → Kept (handle digest iso stamp cfg order w e s)
    unfolding handle
    handle-Kept (session_started e) s k = session_start-Kept e s k
    handle-Kept (session_ended e) s k = session_end-Kept e s k
    handle-Kept (before_prompt e) s k = update_session-IsKept cfg.compaction (agent_of e) _ s k
    handle-Kept (message e role text extract) s k =
        if_both Kept _ _ _ (λ _. capture_chat_message-Kept e role text extract s k) (λ _. k)
    handle-Kept (tool_called e tool extract) s k = after_tool_call-Kept e tool extract s k
    handle-Kept (agent_ended e summary commit_fails prune_fails) s k =
        agent_end-Kept e summary commit_fails prune_fails s k
    handle-Kept (compacted e commit_fails prune_fails) s k =
        run_scheduled-Kept e.now commit_fails prune_fails s.scheduled s k

    -- After any sequence of events, with failures of the summarizer and of the database among them: the
    -- ids of the observations are distinct and below the next one, and no trigger of a compaction has
    -- a full period behind it.
    pub handle_all-IsKept :
        (es : List HookEvent) (s : Hooks)
        → Kept s
        → Kept (handle_all digest iso stamp cfg order w es s)
    unfolding handle_all
    handle_all-IsKept [] s k = k
    handle_all-IsKept (e ∷ es) s k =
        handle_all-IsKept es (handle digest iso stamp cfg order w e s) (handle-Kept e s k)
