-- ===== src/Memory/Observations.antt =====
-- packages/claw-mem/src/db/observation-store.ts: `ObservationStore`, each statement as what it does to
-- the table. Columns of JSON text are the lists that they spell.
pub mod Rows
pub mod Duplicate
pub mod Valid
pub mod Prune
use Prim.Native.String.{◌++◌ as concat}
use mathlib.Core.List.{◌++◌}
use claw_mem.Prelude.{
  count, if◌then◌else◌, ltb, eqb, get_or, take, keep_if, any_of, includes, ℕ, ◌+◌, ◌-◌, ◌/◌, String,
  Bool, false, not, ◌&&◌, ◌||◌, Option, none, some, List, [], ◌∷◌, map, ◌==◌,
}
use claw_mem.Memory.Types.{
  Observation, ObservationInput, SessionRow, text_length, optional_length, total_length, tokens_of,
}
use claw_mem.Memory.Sql.{Sorter}

pub record MemoryDb : Type 0 where
  pub observations : List Observation
  pub next_id : ℕ
  pub sessions : List SessionRow

-- `estimateTokens`.
unfoldable pub estimate_tokens : ObservationInput → ℕ
estimate_tokens o = tokens_of (
    text_length o.title
    + optional_length o.narrative
    + total_length o.facts
    + total_length o.concepts)

-- What `computeHash` hashes.
abbrev pub hashed_text : ObservationInput → String
hashed_text o =
    concat o.session_id (concat ":" (concat o.title (concat ":" (get_or o.narrative ""))))

-- `UPDATE sessions SET observation_count = observation_count + 1 WHERE session_id = ?`.
abbrev pub count_observation : String → SessionRow → SessionRow
count_observation s r =
    if r.session_id == s then record r { observation_count = r.observation_count + 1 } else r

-- `tool_name IN ('message_received', 'message_sent', 'chat')`.
abbrev pub is_chat_tool : Option String → Bool
is_chat_tool none = false
is_chat_tool (some t) = includes ("message_received" ∷ "message_sent" ∷ "chat" ∷ []) t

abbrev pub is_chat : String → Observation → Bool
is_chat agent o = (o.agent_id == agent) && is_chat_tool o.tool_name

abbrev pub is_uncompacted_chat : String → Observation → Bool
is_uncompacted_chat agent o = is_chat agent o && eqb o.compacted 0

-- `id IN (…)`.
abbrev pub has_id : List ℕ → ℕ → Bool
has_id [] i = false
has_id (j ∷ js) i = eqb j i || has_id js i

abbrev pub ids : List Observation → List ℕ
ids [] = []
ids (o ∷ os) = o.id ∷ ids os

-- The double 0.5.
abbrev pub half : ℕ
half = 0x3FE0000000000000

-- Chat rows that are compacted and below the threshold.
abbrev pub is_candidate : String → ℕ → Observation → Bool
is_candidate agent min_importance o =
    is_chat agent o && (eqb o.compacted 1 && ltb o.importance min_importance)

-- `created_at_epoch > Math.floor((now - windowMs) / 1000)`; a negative bound lets every row pass.
abbrev pub is_after : ℕ → ℕ → ℕ → Bool
is_after now window epoch = ltb now window || ltb ((now - window) / 1000) epoch

module _ (digest : String → String) (iso : ℕ → String) where
  -- `computeHash`.
  abbrev pub compute_hash : ObservationInput → String
  compute_hash o = digest (hashed_text o)

  abbrev pub row_of : ℕ → ℕ → ObservationInput → Observation
  row_of id now o = record {
    id = id;
    session_id = o.session_id;
    agent_id = o.agent_id;
    observation_type = o.observation_type;
    title = o.title;
    facts = o.facts;
    narrative = o.narrative;
    concepts = o.concepts;
    files_read = o.files_read;
    files_modified = o.files_modified;
    tool_name = o.tool_name;
    prompt_number = o.prompt_number;
    token_estimate = estimate_tokens o;
    content_hash = compute_hash o;
    created_at = iso now;
    created_at_epoch = now / 1000;
    compacted = 0;
    importance = get_or o.importance half;
    compacted_into = none;
  }

  unfoldable pub insert : ℕ → ObservationInput → MemoryDb → ℕ × MemoryDb
  insert now o db = (
    db.next_id,
    record {
      observations = db.observations ++ (row_of db.next_id now o ∷ []);
      next_id = db.next_id + 1;
      sessions = map (count_observation o.session_id) db.sessions;
    },
  )

  unfoldable pub is_duplicate : ℕ → ObservationInput → ℕ → MemoryDb → Bool
  is_duplicate now o window db =
      any_of (λ r. (r.content_hash == compute_hash o) && is_after now window r.created_at_epoch)
        db.observations

module _ (order : Sorter) where
  unfoldable pub get_recent : String → ℕ → Bool → MemoryDb → List Observation
  get_recent agent limit include_compacted db = take limit (
      order.descending (λ o. o.created_at_epoch)
        (keep_if (λ o. (o.agent_id == agent) && (include_compacted || eqb o.compacted 0))
          db.observations))

  unfoldable pub get_by_session : String → MemoryDb → List Observation
  get_by_session session db =
      order.ascending (λ o. o.created_at_epoch)
        (keep_if (λ o. o.session_id == session) db.observations)

  unfoldable pub get_uncompacted_chat : String → ℕ → MemoryDb → List Observation
  get_uncompacted_chat agent limit db = take limit (
      order.ascending (λ o. o.created_at_epoch)
        (keep_if (is_uncompacted_chat agent) db.observations))

  -- The most recent chat rows, which are never deleted.
  abbrev pub recent_chat : String → ℕ → MemoryDb → List Observation
  recent_chat agent keep_recent db =
      take keep_recent
        (order.descending (λ o. o.created_at_epoch) (keep_if (is_chat agent) db.observations))

  -- The ids that `pruneCompactedLowValue` deletes.
  unfoldable pub to_delete : String → ℕ → ℕ → MemoryDb → List ℕ
  to_delete agent min_importance keep_recent db =
      let protected_ids = ids (recent_chat agent keep_recent db) in
      ids (
        keep_if (λ o. not (has_id protected_ids o.id))
          (keep_if (is_candidate agent min_importance) db.observations))

  unfoldable pub prune_compacted_low_value : String → ℕ → ℕ → MemoryDb → ℕ × MemoryDb
  unfolding to_delete
  prune_compacted_low_value agent min_importance keep_recent db =
      let doomed = to_delete agent min_importance keep_recent db in
      (
        count (λ o. has_id doomed o.id) db.observations,
        record db { observations = keep_if (λ o. not (has_id doomed o.id)) db.observations },
      )

abbrev pub mark : List ℕ → ℕ → Observation → Observation
mark marked into o =
    if has_id marked o.id then record o { compacted = 1; compacted_into = some into } else o

unfoldable pub mark_compacted : List ℕ → ℕ → MemoryDb → ℕ × MemoryDb
mark_compacted marked into db = (
  count (λ o. has_id marked o.id) db.observations,
  record db { observations = map (mark marked into) db.observations },
)

unfoldable pub count_by_agent : String → MemoryDb → ℕ
count_by_agent agent db = count (λ o. o.agent_id == agent) db.observations

unfoldable pub delete_by_session : String → MemoryDb → ℕ × MemoryDb
delete_by_session session db = (
  count (λ o. o.session_id == session) db.observations,
  record db { observations = keep_if (λ o. not (o.session_id == session)) db.observations },
)
