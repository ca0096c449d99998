-- ===== src/Backup/Scheduler/Parts.antt =====
-- packages/soul/src/backup/scheduler.ts: the fields of `BackupScheduler`, what it meets during a
-- run, and its private methods around a run.
use claw_mem.Prelude.{
  if◌then◌else◌, leb, eqb, get_or, is_some, Result, ok, err, ℕ, String, Bool, true, false, not,
  ◌&&◌, ◌||◌, Option, none, some, List, [], ◌∷◌,
}
use claw_mem.Task.{Task, ◌>>=◌, ◌>>◌, await, modify}
use claw_mem.Backup.Types.{
  SemanticDigest, SnapshotManifest, BackupResult, BackupReceipt, completed, skipped,
  registration_required, already_running, soul_not_registered, no_changes, HeartbeatStatus, sent,
  not_configured, failed, not_attempted, BackupStatus, SkipReason,
}
use claw_mem.Backup.Scan.{CocBackupConfig, Entries}
use claw_mem.Backup.Upload.{UploadEnv}
use claw_mem.Backup.Anchor.{
  Outside, AnchorEnv, BackupPersistenceState, read_backup_state, cat_manifest,
}

-- The fields of `BackupScheduler` that change; `timer` is the delay of the pending timeout.
pub record Scheduler : Type 0 where
  pub timer : Option ℕ
  pub running : Bool
  pub last_manifest : Option SnapshotManifest
  pub incremental_count : ℕ
  pub last_manifest_cid : Option String
  pub consecutive_failures : ℕ
  pub initialized : Bool

pub record System : Type 0 where
  pub scheduler : Scheduler
  pub outside : Outside

-- `semantic-snapshot.json` as `readSemanticSnapshot` returns it.
pub record SemanticSnapshot : Type 0 where
  pub observation_count : ℕ
  pub summary_count : ℕ
  pub serialized : List ℕ
  pub tokens_used : ℕ

-- The answers that a run meets.
pub record RunEnv : Type 0 where
  pub ipfs_up : Bool
  pub agent_id : Result String String
  pub tree : Option Entries
  pub upload : UploadEnv
  pub semantic : Result String (Option SemanticSnapshot)
  pub timestamp : String
  pub anchor : AnchorEnv
  pub write_package : Result String String
  pub write_state : Result String (Unit {0})
  pub now : ℕ
  pub resurrection_configured : Result String Bool
  pub heartbeat : Result String (Unit {0})

pub record Heartbeat : Type 0 where
  pub status : HeartbeatStatus
  pub error : Option String

abbrev pub one_hour_ms : ℕ
one_hour_ms = 3600000

abbrev pub is_empty {ℓ} : {A : Type ℓ} → List A → Bool
is_empty [] = true
is_empty (x ∷ xs) = false

-- The part of the program that the scheduler calls and that is not its own.
pub record Library : Type 0 where
  pub sha256 : List ℕ → List ℕ
  pub utf8 : String → List ℕ
  pub cid_of : SnapshotManifest → String
  pub cid_to_bytes32 : String → String
  pub base_dir : String

-- `_buildSemanticDigest`.
unfoldable pub build_semantic_digest :
    (List ℕ → String) → Result String (Option SemanticSnapshot) → Option SemanticDigest
build_semantic_digest sha256_hex (err e) = none
build_semantic_digest sha256_hex (ok none) = none
build_semantic_digest sha256_hex (ok (some s)) =
    if eqb s.observation_count 0 && eqb s.summary_count 0
    then none
    else some (record {
      observation_count = s.observation_count;
      summary_count = s.summary_count;
      content_hash = sha256_hex s.serialized;
      snapshot_tokens = s.tokens_used;
    })

-- `_sendHeartbeat`.
unfoldable pub send_heartbeat : Result String Bool → Result String (Unit {0}) → Heartbeat
send_heartbeat (err e) beat = record { status = failed; error = some e }
send_heartbeat (ok false) beat = record { status = not_configured; error = none }
send_heartbeat (ok true) (ok _) = record { status = sent; error = none }
send_heartbeat (ok true) (err e) = record { status = failed; error = some e }

abbrev pub receipt_of : Heartbeat → Option BackupResult → BackupReceipt
receipt_of h none = record {
  status = skipped;
  reason = some no_changes;
  heartbeat_status = h.status;
  heartbeat_error = h.error;
  backup = none;
}
receipt_of h (some r) = record {
  status = completed;
  reason = none;
  heartbeat_status = h.status;
  heartbeat_error = h.error;
  backup = some r;
}

abbrev pub no_backup : BackupStatus → SkipReason → BackupReceipt
no_backup status reason = record {
  status = status;
  reason = some reason;
  heartbeat_status = not_attempted;
  heartbeat_error = none;
  backup = none;
}

abbrev pub unregistered : BackupReceipt
unregistered = no_backup registration_required soul_not_registered

abbrev pub in_progress : BackupReceipt
in_progress = no_backup skipped already_running

module _ (lib : Library) (cfg : CocBackupConfig) where
  -- `ensureInitialized`: an unreachable previous manifest means a full backup.
  unfoldable pub hydrate : Bool → System → Scheduler
  hydrate ipfs_up s =
      let state = read_backup_state s.outside.state_file in
      let fresh = record s.scheduler {
        last_manifest_cid = state.last_manifest_cid;
        incremental_count = state.incremental_count;
        initialized = true;
      } in
      elim state.last_manifest_cid [
        | none ↦ fresh
        | some cid ↦
            elim (if ipfs_up then cat_manifest lib.cid_of s.outside.manifests cid else none) [
              | some m ↦ record fresh { last_manifest = some m }
              | none ↦ record fresh {
                last_manifest = none;
                last_manifest_cid = none;
                incremental_count = 0;
              }
            ]
      ]

  unfoldable pub ensure_initialized : Bool → System → System
  unfolding hydrate
  ensure_initialized ipfs_up s =
      if s.scheduler.initialized then s else record s { scheduler = hydrate ipfs_up s }

  -- `forceFullBackup || !lastManifest || incrementalCount >= maxIncrementalChain`.
  unfoldable pub is_full_backup : Bool → Scheduler → Bool
  is_full_backup force s =
      force || (not (is_some s.last_manifest) || leb cfg.max_incremental_chain s.incremental_count)

  -- The state file after a backup; `lastFullBackupAt` moves with a full backup only.
  unfoldable pub next_state :
      RunEnv
      → String
      → BackupResult
      → ℕ
      → String
      → Option BackupPersistenceState
      → BackupPersistenceState
  next_state env agent_id r count path old =
      let at = get_or r.anchored_at env.now in
      record {
        latest_agent_id = some agent_id;
        last_manifest_cid = some r.manifest_cid;
        incremental_count = count;
        last_backup_at = some at;
        last_full_backup_at =
            if eqb r.backup_type 0 then some at else (read_backup_state old).last_full_backup_at;
        latest_recovery_package_path = some path;
      }

  -- `persistState`.
  unfoldable pub persist_state : RunEnv → String → BackupResult → Task System Unit
  unfolding next_state
  persist_state env agent_id r = do
    path ← await env.write_package
    await env.write_state
    modify (λ s. record s {
      outside = record s.outside {
        state_file =
            some
              (next_state env agent_id r s.scheduler.incremental_count path s.outside.state_file);
      };
    })
