-- ===== src/Backup/Anchor.antt =====
-- packages/soul/src/backup/anchor.ts and packages/soul/src/local-state.ts: what a backup leaves
-- outside of the process. IPFS is a store of manifests, named by a digest of their content; the
-- registry contract is seen by the calls that it is sent; keccak256 is a parameter. Copying to MFS
-- and registering the CID are best effort, change nothing here and are left out.
use claw_mem.Prelude.{
  Result, ok, err, String, Option, none, some, List, [], ◌∷◌, ℕ, ◌==◌, if◌then◌else◌,
}
use claw_mem.Task.{Task, ◌>>=◌, ◌>>◌, pure, await, modify}
use claw_mem.Backup.Types.{SnapshotManifest, BackupResult, OnChainBackup}

-- `SoulRegistry.anchorBackup(…)`.
pub record AnchorCall : Type 0 where
  pub agent_id : String
  pub manifest_cid : String
  pub data_merkle_root : List ℕ
  pub file_count : ℕ
  pub total_bytes : ℕ
  pub backup_type : ℕ
  pub parent_manifest_cid : String

-- The state file `.coc-backup/state.json`; a file that is missing or not of version 1 reads as the
-- default state. Its other fields play no part in backups and are left out.
pub record BackupPersistenceState : Type 0 where
  pub latest_agent_id : Option String
  pub last_manifest_cid : Option String
  pub incremental_count : ℕ
  pub last_backup_at : Option ℕ
  pub last_full_backup_at : Option ℕ
  pub latest_recovery_package_path : Option String

abbrev pub default_state : BackupPersistenceState
default_state = record {
  latest_agent_id = none;
  last_manifest_cid = none;
  incremental_count = 0;
  last_backup_at = none;
  last_full_backup_at = none;
  latest_recovery_package_path = none;
}

unfoldable pub read_backup_state : Option BackupPersistenceState → BackupPersistenceState
read_backup_state none = default_state
read_backup_state (some state) = state

-- What lies outside of the scheduler.
pub record Outside : Type 0 where
  pub manifests : List SnapshotManifest
  pub calls : List AnchorCall
  pub state_file : Option BackupPersistenceState

abbrev pub zero_bytes32 : String
zero_bytes32 = "0x0000000000000000000000000000000000000000000000000000000000000000"

-- The answers that one anchoring meets.
pub record AnchorEnv : Type 0 where
  pub add_manifest : Result String (Unit {0})
  pub anchor_backup : Result String String
  pub latest_backup : Result String OnChainBackup

-- `ipfs.catManifest(cid)`, where IPFS can be reached.
unfoldable pub cat_manifest :
    (SnapshotManifest → String) → List SnapshotManifest → String → Option SnapshotManifest
cat_manifest cid_of [] cid = none
cat_manifest cid_of (m ∷ ms) cid = if cid_of m == cid then some m else cat_manifest cid_of ms cid

unfoldable pub parent_bytes32 : (String → String) → Option String → String
parent_bytes32 cid_to_bytes32 none = zero_bytes32
parent_bytes32 cid_to_bytes32 (some cid) = if cid == "" then zero_bytes32 else cid_to_bytes32 cid

unfoldable pub backup_type : Option String → ℕ
backup_type none = 0
backup_type (some cid) = 1

unfoldable pub anchored_at : String → Result String OnChainBackup → Option ℕ
anchored_at cid32 (ok latest) =
    if latest.manifest_cid == cid32 then some latest.anchored_at else none
anchored_at cid32 (err e) = none

module _ (cid_of : SnapshotManifest → String) (cid_to_bytes32 : String → String) where
  abbrev pub call_of : SnapshotManifest → AnchorCall
  call_of m = record {
    agent_id = m.agent_id;
    manifest_cid = cid_to_bytes32 (cid_of m);
    data_merkle_root = m.merkle_root;
    file_count = m.file_count;
    total_bytes = m.total_bytes;
    backup_type = backup_type m.parent_cid;
    parent_manifest_cid = parent_bytes32 cid_to_bytes32 m.parent_cid;
  }

  unfoldable pub anchor_backup : AnchorEnv → SnapshotManifest → Task Outside BackupResult
  unfolding parent_bytes32 backup_type anchored_at
  anchor_backup env m = do
    await env.add_manifest
    modify (λ o. record o { manifests = m ∷ o.manifests })
    tx ← await env.anchor_backup
    modify (λ o. record o { calls = call_of m ∷ o.calls })
    pure (record {
      manifest_cid = cid_of m;
      data_merkle_root = m.merkle_root;
      file_count = m.file_count;
      total_bytes = m.total_bytes;
      backup_type = backup_type m.parent_cid;
      parent_manifest_cid = m.parent_cid;
      tx_hash = tx;
      anchored_at = anchored_at (cid_to_bytes32 (cid_of m)) env.latest_backup;
    })
