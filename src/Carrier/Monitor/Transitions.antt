-- ===== src/Carrier/Monitor/Transitions.antt =====
-- A poll reports exactly the agents that went offline.
use claw_mem.Prelude.{
  if◌then◌else◌, is_some, includes, String, ◌≡◌, refl, Bool, false, not, ◌&&◌, ◌||◌, Option, none,
  some, List, [], ◌∷◌, ◌++◌, arith, ◌==◌, eq_iff, Bool-cases, keep_if, sym, ◌∙◌, inl, inr, true,
  append-nil, append_assoc,
}
use claw_mem.Backup.Detect.{remove}
use claw_mem.Carrier.Monitor.{Monitor, AgentStatus, learned, poll_agent, poll_from, poll}

-- No agent is watched twice.
abbrev pub Distinct : List String → Type 0
Distinct [] = Unit
Distinct (x ∷ xs) = (includes xs x ≡ false) × Distinct xs

abbrev pub is_down : Option Bool → Bool
is_down none = false
is_down (some b) = b

includes-append :
    (xs ys : List String) (x : String) → includes (xs ++ ys) x ≡ includes xs x || includes ys x
includes-append [] ys x = refl
includes-append (y ∷ xs) ys x = ground (arith, includes-append xs ys x)

includes-remove :
    (p : String) (xs : List String) (x : String)
    → includes (remove p xs) x ≡ includes xs x && not (p == x)
unfolding remove
includes-remove p [] x = refl
includes-remove p (y ∷ xs) x =
    ground (arith, includes-remove p xs x, eq_iff p y, eq_iff y x, eq_iff p x)

module _ (status : String → AgentStatus) where
  -- After a poll of an agent it is known to be offline if it was learned to be, or if nothing was
  -- learned and it was known before; no other agent changes.
  includes-poll_agent :
      (agent : String) (m : Monitor) (x : String)
      → includes (poll_agent status agent m).known_offline x ≡ (
          if agent == x
          then is_down (learned (status agent))
            || (not (is_some (learned (status agent))) && includes m.known_offline x)
          else includes m.known_offline x)
  unfolding poll_agent
  includes-poll_agent agent m x = ground (
    arith,
    includes-append m.known_offline (agent ∷ []) x,
    includes-remove agent m.known_offline x,
    eq_iff agent x,
  )

  -- The agent is learned to be offline and was not known to be.
  abbrev pub went_offline : List String → String → Bool
  went_offline known agent = is_down (learned (status agent)) && not (includes known agent)

  -- What is known of an agent once it was polled.
  abbrev pub now_known : List String → String → Bool
  now_known known agent =
      is_down (learned (status agent))
      || (not (is_some (learned (status agent))) && includes known agent)

  emitted-poll_agent :
      (agent : String) (m : Monitor)
      → (poll_agent status agent m).emitted
        ≡ m.emitted ++ (if went_offline m.known_offline agent then agent ∷ [] else [])
  unfolding poll_agent
  emitted-poll_agent agent m = ground (arith, append-nil m.emitted)

  keep_if-went :
      (agent : String) (m : Monitor) (agents : List String)
      → includes agents agent ≡ false
      → keep_if (went_offline (poll_agent status agent m).known_offline) agents
        ≡ keep_if (went_offline m.known_offline) agents
  keep_if-went agent m [] h = refl
  keep_if-went agent m (x ∷ agents) h = ground (
    arith,
    keep_if-went agent m agents,
    includes-poll_agent agent m x,
    eq_iff agent x,
    eq_iff x agent,
  )

  emitted-poll_from :
      (agents : List String) (m : Monitor)
      → Distinct agents
      → (poll_from status agents m).emitted
        ≡ m.emitted ++ keep_if (went_offline m.known_offline) agents
  unfolding poll_from
  emitted-poll_from [] m d = sym (append-nil m.emitted)
  emitted-poll_from (agent ∷ agents) m (d, ds) =
      elim (Bool-cases (went_offline m.known_offline agent)) [
        | inl h ↦
            emitted-poll_from agents (poll_agent status agent m) ds
            ∙ rw (keep_if-went agent m agents d, emitted-poll_agent agent m, h)
                (append_assoc m.emitted (agent ∷ []) _)
        | inr h ↦
            emitted-poll_from agents (poll_agent status agent m) ds
            ∙ rw
                (keep_if-went agent m agents d, emitted-poll_agent agent m, h, append-nil m.emitted)
                refl
      ]

  includes-poll_from :
      (agents : List String) (m : Monitor) (x : String)
      → Distinct agents
      → includes (poll_from status agents m).known_offline x
        ≡ (if includes agents x then now_known m.known_offline x else includes m.known_offline x)
  unfolding poll_from
  includes-poll_from [] m x d = refl
  includes-poll_from (agent ∷ agents) m x (d, ds) = ground (
    arith,
    includes-poll_from agents (poll_agent status agent m) x ds,
    includes-poll_agent agent m x,
    eq_iff agent x,
  )

  -- Where no agent is watched twice: a poll calls the handlers with the watched agents that went
  -- offline since they were last polled, each once and in their order, and afterwards a watched
  -- agent is known to be offline if it was learned to be, or was before and nothing was learned.
  pub poll_lem :
      (m : Monitor)
      → Distinct m.watched
      → ((poll status m).emitted ≡ m.emitted ++ keep_if (went_offline m.known_offline) m.watched)
        × ((x : String)
            → includes m.watched x ≡ true
            → includes (poll status m).known_offline x ≡ now_known m.known_offline x)
  unfolding poll
  poll_lem m d =
      (emitted-poll_from m.watched m d, λ x h. includes-poll_from m.watched m x d ∙ rw h refl)
