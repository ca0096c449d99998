-- ===== src/Backup/Types.antt =====
-- The records of packages/soul/src/backup-types.ts. Text is `String`, hexadecimal digests are kept
-- as the bytes that they spell, and a time is a number of milliseconds or seconds.
use claw_mem.Prelude.{ℕ, String, Bool, Option, List}
use claw_mem.JsMap.{Map}

pub data FileCategory : Type 0 where
  identity memory chat config workspace database : FileCategory

pub record FileState : Type 0 where
  pub relative_path : String
  pub absolute_path : String
  pub hash : String
  pub size_bytes : ℕ
  pub mtime_ms : ℕ
  pub encrypted : Bool
  pub category : FileCategory

pub record ChangeSet : Type 0 where
  pub added : List FileState
  pub modified : List FileState
  pub deleted : List String
  pub unchanged : List FileState

pub record SemanticDigest : Type 0 where
  pub observation_count : ℕ
  pub summary_count : ℕ
  pub content_hash : String
  pub snapshot_tokens : ℕ

pub record ManifestFileEntry : Type 0 where
  pub cid : String
  pub hash : String
  pub size_bytes : ℕ
  pub encrypted : Bool
  pub category : FileCategory

-- `version` is always 1.
pub record SnapshotManifest : Type 0 where
  pub agent_id : String
  pub timestamp : String
  pub parent_cid : Option String
  pub files : Map ManifestFileEntry
  pub merkle_root : List ℕ
  pub total_bytes : ℕ
  pub file_count : ℕ
  pub semantic_digest : Option SemanticDigest

pub record BackupResult : Type 0 where
  pub manifest_cid : String
  pub data_merkle_root : List ℕ
  pub file_count : ℕ
  pub total_bytes : ℕ
  pub backup_type : ℕ
  pub parent_manifest_cid : Option String
  pub tx_hash : String
  pub anchored_at : Option ℕ

pub record OnChainBackup : Type 0 where
  pub manifest_cid : String
  pub data_merkle_root : List ℕ
  pub anchored_at : ℕ
  pub file_count : ℕ
  pub total_bytes : ℕ
  pub backup_type : ℕ
  pub parent_manifest_cid : String

pub data BackupStatus : Type 0 where
  completed skipped registration_required : BackupStatus

pub data SkipReason : Type 0 where
  already_running soul_not_registered no_changes : SkipReason

pub data HeartbeatStatus : Type 0 where
  sent not_configured failed not_attempted : HeartbeatStatus

pub record BackupReceipt : Type 0 where
  pub status : BackupStatus
  pub reason : Option SkipReason
  pub heartbeat_status : HeartbeatStatus
  pub heartbeat_error : Option String
  pub backup : Option BackupResult
