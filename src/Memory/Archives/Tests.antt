-- ===== src/Memory/Archives/Tests.antt =====
-- Runs of the archive store.
use claw_mem.Prelude.{ℕ, String, ◌≡◌, refl, false, none, [], ◌∷◌, map}
use claw_mem.Memory.Sql.Insertion.{insertion, insertion-IsSorter}
use claw_mem.Memory.Archives.{
  Archives, PruneOptions, incremental_backup, insert_archive, prune, get_by_cid,
}
use claw_mem.Memory.Archives.Rows.{Distinct}
use claw_mem.Memory.Archives.Kept.{Keeps, prune-Keeps}

abbrev made : String → String → ℕ → Archives → Archives
made agent cid now db =
    (insert_archive (λ s. 0) (λ n. "2026-01-01T00:00:00.000Z") now
      record {
        agent_id = agent;
        manifest_cid = cid;
        backup_type = incremental_backup;
        file_count = 1;
        total_bytes = 100;
        data_merkle_root = "0x";
        tx_hash = none;
        anchored_at = none;
        semantic_snapshot_included = false;
        parent_cid = none;
      }
      db).1

-- Three backups of one agent and one of another.
abbrev history : Archives
history =
    made "a" "c4" 9000 (
      made "b" "c3" 3000
        (made "a" "c2" 2000 (made "a" "c1" 1000 record { rows = []; next_id = 1 })))

abbrev options : PruneOptions
options = record { cutoff_epoch = 5; keep_latest = 1; agent = none; dry_run = false }

-- The newest of each agent stay.
prune_two : map (λ r. r.manifest_cid) (prune insertion options history).1.rows ≡ "c3" ∷ "c4" ∷ []
unfolding prune insert_archive get_by_cid
prune_two = refl

duplicate_cid : map (λ r. r.id) (made "a" "c1" 5000 history).rows ≡ 1 ∷ 2 ∷ 3 ∷ 4 ∷ []
unfolding insert_archive get_by_cid
duplicate_cid = refl

history-Distinct : Distinct history.rows
unfolding insert_archive get_by_cid
history-Distinct = (refl, (refl, (refl, (refl, tt))))

prune-Keeps_example : Keeps options history.rows (prune insertion options history).1.rows
prune-Keeps_example = prune-Keeps insertion insertion-IsSorter options history history-Distinct
