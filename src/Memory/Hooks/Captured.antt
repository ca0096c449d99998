-- ===== src/Memory/Hooks/Captured.antt =====
-- What becomes of a message that is heard.
use claw_mem.Prelude.{
  get_or, ℕ, String, Bool, true, not, ◌≡◌, if◌then◌else◌, ◌&&◌, some, [], ◌∷◌, ◌++◌,
}
use claw_mem.JsMap
use claw_mem.Memory.Types.{ObservationInput}
use claw_mem.Memory.Observations.{MemoryDb, is_duplicate, row_of}
use claw_mem.Memory.Compactor.{tick}
use claw_mem.Memory.Hooks.{
  Hooks, update_session, HooksConfig, EventContext, Role, is_user, agent_of,
}

module _ (digest : String → String) (iso stamp : ℕ → String) (cfg : HooksConfig) where
  abbrev pub is_known : ℕ → ObservationInput → MemoryDb → Bool
  is_known now o db = is_duplicate digest iso now o cfg.dedup_window_ms db

  abbrev pub ticks_of : String → Hooks → ℕ
  ticks_of agent s = get_or (JsMap.get s.triggers agent) 0

  -- A message is remembered behind its event. Where it was not before, its row is new, the trigger of
  -- its agent has ticked, and a pass is scheduled where that fires; where it was, all this is as before.
  pub record IsCaptured (now : ℕ) (agent : String) (o : ObservationInput) (s after : Hooks)
      : Type 0 where
    pub remembered : is_known now o after.db ≡ true
    pub rows :
        after.db.observations
        ≡ s.db.observations
          ++ (if is_known now o s.db then [] else row_of digest iso s.db.next_id now o ∷ [])
    pub ticks : ticks_of agent after ≡ (
        if is_known now o s.db
        then ticks_of agent s
        else (tick cfg.compaction (ticks_of agent s)).1)
    pub passes :
        after.scheduled
        ≡ s.scheduled
          ++ (if not (is_known now o s.db) && (tick cfg.compaction (ticks_of agent s)).0
              then agent ∷ []
              else [])

  -- What a captured message depends on and changes, but for the sessions.
  abbrev Same : Hooks → Hooks → Type 0
  Same s t = (t.db ≡ s.db) × (t.triggers ≡ s.triggers) × (t.scheduled ≡ s.scheduled)

  unfoldable heard_by : EventContext → Role → String → Hooks → Hooks
  heard_by e role text s =
      if is_user role
      then update_session (agent_of e) (λ a. record a { last_user_message = some text }) s
      else s
