-- ===== src/Backup/Scheduler.antt =====
-- packages/soul/src/backup/scheduler.ts: `BackupScheduler`. A run of a backup is one action; the
-- guard against a second run is `run_backup`'s test of `running`. What the services answer during a
-- run is its environment.
mod Parts
pub mod Chain
pub mod Keeps
pub mod History
pub mod Timer
mod Tests
unfoldable pub use Parts.*
use claw_mem.Prelude.{
  if◌then◌else◌, Result, ok, ◌+◌, String, Bool, true, false, not, ◌&&◌, Option, none, some, List,
  ◌++◌, ◌==◌, map,
}
use claw_mem.Task.{Task, await, modify, gets, pure, ◌>>=◌, ◌>>◌}
use claw_mem.Backup.Scan.{CocBackupConfig, scan_files}
use claw_mem.Backup.Types.{ChangeSet, FileState, SnapshotManifest, BackupReceipt, ManifestFileEntry}
use claw_mem.Backup.Anchor.{Outside, anchor_backup, zero_bytes32}
use claw_mem.Backup.Upload.{UploadResult, upload_files, spread, carry_over_entries}
use claw_mem.JsMap.{Map}
use claw_mem.Backup.Manifest.{build_manifest}
use claw_mem.Backup.Detect.{detect_changes}

abbrev pub changed_files : ChangeSet → List FileState
changed_files c = c.added ++ c.modified

-- An action on what lies outside of the scheduler.
abbrev pub outside_task : {A : Type 0} → Task Outside A → Task System A
outside_task m s = ((m s.outside).0, record s { outside = (m s.outside).1 })

module _ (lib : Library) (cfg : CocBackupConfig) where
  -- The previous manifest that changes are detected against.
  abbrev pub previous_of : Bool → Scheduler → Option SnapshotManifest
  previous_of full s = if full then none else s.last_manifest

  -- The entries of the new manifest.
  unfoldable pub all_entries :
      Option SnapshotManifest → ChangeSet → UploadResult → Map ManifestFileEntry
  all_entries none changes uploaded = uploaded.entries
  all_entries (some m) changes uploaded =
      spread (carry_over_entries changes.unchanged m.files) uploaded.entries

  -- Steps 5 and 6 of `_executeBackup` and what follows them.
  unfoldable pub commit_backup :
      RunEnv → Bool → String → SnapshotManifest → Task System BackupReceipt
  unfolding anchor_backup persist_state
  commit_backup env full agent_id manifest = do
    result ← outside_task (anchor_backup lib.cid_of lib.cid_to_bytes32 env.anchor manifest)
    modify (λ s. record s {
      scheduler = record s.scheduler {
        last_manifest = some manifest;
        last_manifest_cid = some result.manifest_cid;
        incremental_count = if full then 0 else s.scheduler.incremental_count + 1;
      };
    })
    persist_state lib cfg env agent_id result
    pure (receipt_of (send_heartbeat env.resurrection_configured env.heartbeat) (some result))

  -- Steps 3 and 4.
  unfoldable pub new_manifest :
      RunEnv → Bool → String → ChangeSet → UploadResult → Scheduler → SnapshotManifest
  unfolding all_entries build_manifest
  new_manifest env full agent_id changes uploaded s =
      build_manifest lib.sha256 lib.utf8 agent_id
        (all_entries (previous_of full s) changes uploaded)
        (if full then none else s.last_manifest_cid)
        (build_semantic_digest env.upload.sha256_hex env.semantic) env.timestamp

  -- Steps 2 to 6.
  unfoldable pub build_backup : RunEnv → Bool → String → ChangeSet → Task System BackupReceipt
  unfolding commit_backup
  build_backup env full agent_id changes = do
    uploaded ←
        await
          (upload_files env.upload cfg.private_key cfg.encryption_password (changed_files changes))
    s ← gets (λ s. s.scheduler)
    commit_backup env full agent_id (new_manifest env full agent_id changes uploaded s)

  -- Without changes there is nothing to do, but for a full backup.
  unfoldable pub backup_changes : RunEnv → Bool → String → ChangeSet → Task System BackupReceipt
  unfolding build_backup
  backup_changes env full agent_id changes =
      if is_empty (changed_files changes) && (is_empty changes.deleted && not full)
      then pure (receipt_of (send_heartbeat env.resurrection_configured env.heartbeat) none)
      else build_backup env full agent_id changes

  -- `_executeBackup` for an agent that is registered.
  unfoldable pub changed_backup : RunEnv → Bool → String → Task System BackupReceipt
  unfolding backup_changes
  changed_backup env force agent_id = do
    s ← gets (λ s. s.scheduler)
    current ← await (scan_files env.upload.sha256_hex lib.base_dir cfg env.tree)
    let full = is_full_backup lib cfg force s
    backup_changes env full agent_id (detect_changes current (previous_of full s))

  -- `_executeBackup`.
  unfoldable pub execute_backup : RunEnv → Bool → Task System BackupReceipt
  unfolding changed_backup
  execute_backup env force = do
    agent_id ← await env.agent_id
    if agent_id == zero_bytes32 then pure unregistered else changed_backup env force agent_id

  -- `try { … } finally { this.running = false }`.
  abbrev pub finish : Result String BackupReceipt × System → Result String BackupReceipt × System
  finish (r, s) = (r, record s { scheduler = record s.scheduler { running = false } })

  -- `runBackup`.
  unfoldable pub run_backup : RunEnv → Bool → Task System BackupReceipt
  unfolding ensure_initialized execute_backup
  run_backup env force s =
      let s = ensure_initialized lib cfg env.ipfs_up s in
      if s.scheduler.running
      then (ok in_progress, s)
      else finish (
          execute_backup env force (record s { scheduler = record s.scheduler { running = true } }))
