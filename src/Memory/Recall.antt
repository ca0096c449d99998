-- ===== src/Memory/Recall.antt =====
-- `recallObservations` of packages/claw-mem/src/hooks/index.ts: search hits on the last message, and
-- then the newest rows, without repetition. The ids seen are those of the rows merged so far.
pub mod Merged
use claw_mem.Prelude.{
  if◌then◌else◌, ltb, leb, length, Result, ok, err, ℕ, String, false, none, some, List, [], ◌∷◌,
  ◌++◌,
}
use claw_mem.Memory.Types.{Observation, units}
use claw_mem.Memory.Sql.{Sorter}
use claw_mem.Memory.Observations.{MemoryDb, get_recent, ids, has_id}
use claw_mem.Memory.Search.{SearchOptions, SearchResult}

pub data RecallMode : Type 0 where
  recent hybrid : RecallMode

unfoldable pub merge_hits : List Observation → List Observation → List Observation
merge_hits merged [] = merged
merge_hits merged (o ∷ hits) =
    if has_id (ids merged) o.id
    then merge_hits merged hits
    else merge_hits (merged ++ (o ∷ [])) hits

unfoldable pub merge_recent : ℕ → List Observation → List Observation → List Observation
merge_recent max merged [] = merged
merge_recent max merged (o ∷ rows) =
    let next = merged ++ (o ∷ []) in
    let skipped = merge_recent max merged rows in
    let rest = merge_recent max next rows in
    if has_id (ids merged) o.id then skipped else if leb max (length next) then next else rest

-- No hits where the search throws.
abbrev pub hits_of : Result String SearchResult → List Observation
hits_of (ok r) = r.results
hits_of (err e) = []

-- What recall asks the search for.
abbrev pub recall_options : String → List ℕ → ℕ → SearchOptions
recall_options agent query search_limit = record {
  query = query;
  agent_id = some agent;
  observation_type = none;
  limit = some search_limit;
  include_compacted = false;
}

module _ (order : Sorter) (search : SearchOptions → MemoryDb → Result String SearchResult) where
  -- `searchLimit` is `Math.max(1, Math.ceil(maxObservations * searchLimitRatio))`.
  unfoldable pub recall_observations :
      String → List ℕ → RecallMode → ℕ → ℕ → MemoryDb → List Observation
  unfolding merge_hits merge_recent
  recall_observations agent query recent search_limit max db = get_recent order agent max false db
  recall_observations agent query hybrid search_limit max db =
      let hits : List Observation = hits_of (search (recall_options agent query search_limit) db) in
      let tail = get_recent order agent max false db in
      if ltb (units query) 2 then tail else merge_recent max (merge_hits [] hits) tail
