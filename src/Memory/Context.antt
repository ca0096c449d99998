-- ===== src/Memory/Context.antt =====
-- packages/claw-mem/src/context/builder.ts: the context that fits a budget of tokens. Its text, which
-- formatter.ts writes, is a parameter.
pub mod Budget
use claw_mem.Prelude.{if◌then◌else◌, ltb, eqb, length, ℕ, ◌+◌, String, ◌&&◌, Option, List, [], ◌∷◌}
use claw_mem.Memory.Types.{Observation, text_length, optional_length, total_length, tokens_of}

pub record SessionSummary : Type 0 where
  pub session_id : String
  pub agent_id : String
  pub request : Option String
  pub investigated : Option String
  pub learned : Option String
  pub completed : Option String
  pub next_steps : Option String
  pub notes : Option String
  pub observation_count : ℕ
  pub token_estimate : ℕ
  pub created_at_epoch : ℕ

pub record MemoryContext : Type 0 where
  pub markdown : String
  pub tokens_used : ℕ
  pub observation_count : ℕ
  pub summary_count : ℕ

unfoldable pub estimate_summary_tokens : SessionSummary → ℕ
estimate_summary_tokens s = tokens_of (
    optional_length s.request
    + optional_length s.investigated
    + optional_length s.learned
    + optional_length s.completed
    + optional_length s.next_steps)

unfoldable pub estimate_obs_tokens : Observation → ℕ
estimate_obs_tokens o =
    tokens_of (text_length o.title + optional_length o.narrative + total_length o.facts)

-- `n || d`: an estimate of 0 counts as none.
abbrev pub estimate_or : ℕ → ℕ → ℕ
estimate_or n d = if eqb n 0 then d else n

abbrev pub summary_tokens : SessionSummary → ℕ
summary_tokens s = estimate_or s.token_estimate (estimate_summary_tokens s)

abbrev pub obs_tokens : Observation → ℕ
obs_tokens o = estimate_or o.token_estimate (estimate_obs_tokens o)

-- A loop of packing: what is packed, and the tokens behind it.
unfoldable pub pack : {A : Type 0} → (A → ℕ) → ℕ → ℕ → List A → List A × ℕ
pack tokens budget used [] = ([], used)
pack tokens budget used (x ∷ xs) =
    let rest = pack tokens budget (used + tokens x) xs in
    if ltb budget (used + tokens x) then ([], used) else (x ∷ rest.0, rest.1)

module _ (format : List SessionSummary → List Observation → ℕ → String) where
  -- What `buildContext` packs, and the tokens behind each loop.
  unfoldable pub packed :
      List SessionSummary → List Observation → ℕ → (List SessionSummary × List Observation) × ℕ
  unfolding pack
  packed summaries observations budget =
      let (packed_summaries, used) = pack summary_tokens budget 0 summaries in
      let (packed_observations, total) = pack obs_tokens budget used observations in
      ((packed_summaries, packed_observations), total)

  unfoldable pub build_context : List SessionSummary → List Observation → ℕ → MemoryContext
  unfolding packed
  build_context summaries observations budget =
      let ((packed_summaries, packed_observations), used) = packed summaries observations budget in
      if eqb (length packed_summaries) 0 && eqb (length packed_observations) 0
      then record { markdown = ""; tokens_used = 0; observation_count = 0; summary_count = 0 }
      else record {
        markdown = format packed_summaries packed_observations used;
        tokens_used = used;
        observation_count = length packed_observations;
        summary_count = length packed_summaries;
      }
