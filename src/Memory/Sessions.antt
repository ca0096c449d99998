-- ===== src/Memory/Sessions.antt =====
-- packages/claw-mem/src/db/session-store.ts: `SessionStore`, and `upsert` and the queries of
-- packages/claw-mem/src/db/summary-store.ts. Times are in milliseconds.
use claw_mem.Prelude.{
  if◌then◌else◌, take, keep_if, any_of, ℕ, ◌+◌, ◌/◌, String, true, false, Option, none, some, List,
  [], ◌∷◌, ◌++◌, map, ◌==◌,
}
use claw_mem.Memory.Types.{SessionRow, optional_length, tokens_of}
use claw_mem.Memory.Sql.{Sorter}
use claw_mem.Memory.Context.{SessionSummary}

-- `INSERT OR IGNORE`.
unfoldable pub start_session : ℕ → String → String → List SessionRow → List SessionRow
start_session now session agent rows =
    if any_of (λ r. r.session_id == session) rows
    then rows
    else rows
      ++ (record {
        session_id = session;
        agent_id = agent;
        started_at_epoch = now / 1000;
        completed_at_epoch = none;
        prompt_count = 0;
        observation_count = 0;
        completed = false;
      }
          ∷ [])

abbrev pub complete : ℕ → String → SessionRow → SessionRow
complete now session r =
    if r.session_id == session
    then record r { completed_at_epoch = some (now / 1000); completed = true }
    else r

unfoldable pub end_session : ℕ → String → List SessionRow → List SessionRow
end_session now session rows = map (complete now session) rows

abbrev pub count_prompt : String → SessionRow → SessionRow
count_prompt session r =
    if r.session_id == session then record r { prompt_count = r.prompt_count + 1 } else r

unfoldable pub get_session : String → List SessionRow → Option SessionRow
get_session session [] = none
get_session session (r ∷ rows) =
    if r.session_id == session then some r else get_session session rows

unfoldable pub increment_prompt : String → List SessionRow → ℕ × List SessionRow
unfolding get_session
increment_prompt session rows =
    let after = map (count_prompt session) rows in
    (elim (get_session session after) [ none ↦ 1 | some r ↦ r.prompt_count ], after)

pub record SummaryInput : Type 0 where
  pub session_id : String
  pub agent_id : String
  pub request : Option String
  pub investigated : Option String
  pub learned : Option String
  pub completed : Option String
  pub next_steps : Option String
  pub notes : Option String
  pub observation_count : ℕ

unfoldable pub estimate_summary_input : SummaryInput → ℕ
estimate_summary_input s = tokens_of (
    optional_length s.request
    + optional_length s.investigated
    + optional_length s.learned
    + optional_length s.completed
    + optional_length s.next_steps
    + optional_length s.notes)

-- The row that an upsert inserts; on a conflict the agent of the row that is there stays.
abbrev pub summary_row : ℕ → String → SummaryInput → SessionSummary
summary_row now agent s = record {
  session_id = s.session_id;
  agent_id = agent;
  request = s.request;
  investigated = s.investigated;
  learned = s.learned;
  completed = s.completed;
  next_steps = s.next_steps;
  notes = s.notes;
  observation_count = s.observation_count;
  token_estimate = estimate_summary_input s;
  created_at_epoch = now / 1000;
}

unfoldable pub upsert_summary : ℕ → SummaryInput → List SessionSummary → List SessionSummary
upsert_summary now s [] = summary_row now s.agent_id s ∷ []
upsert_summary now s (r ∷ rows) =
    let rest = upsert_summary now s rows in
    if r.session_id == s.session_id then summary_row now r.agent_id s ∷ rows else r ∷ rest

unfoldable pub get_recent_summaries :
    Sorter → String → ℕ → List SessionSummary → List SessionSummary
get_recent_summaries order agent limit rows =
    take limit
      (order.descending (λ r. r.created_at_epoch) (keep_if (λ r. r.agent_id == agent) rows))

unfoldable pub get_summary : String → List SessionSummary → Option SessionSummary
get_summary session [] = none
get_summary session (r ∷ rows) =
    if r.session_id == session then some r else get_summary session rows
