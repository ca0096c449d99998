-- ===== src/Recovery/Tests.antt =====
-- Restores at concrete inputs.
use claw_mem.Recovery.Registry.{
  RegistryEnv, restore_from_chain, latest_cid, resolve_with, restore_from_chain-ok,
}
use claw_mem.Prelude.{
  ◌++◌, ap, if◌then◌else◌, ok, err, String, ◌≡◌, refl, false, none, some, [], ◌∷◌, ◌==◌, length,
  All, true, List, Result, ap, ◌∙◌, ℕ,
}
use Prim.Native.String.{◌++◌ as concat}
use claw_mem.Recovery.Download.{
  DownloadEnv, Disk, apply_manifest_chain, is_inside, apply_all, starts_with,
  download_manifest_files, download_from, download_file, content_of, write_content, unlink_absent,
  unlink_file, written_paths, last_of,
}
use claw_mem.Recovery.Restore.{
  RestoreEnv, RecoveryResult, restore_from_manifest_cid, verified, check_all, chain_failed,
  check_chain, is_blank, apply_checked, has_encrypted, verify_roots, latest_of, check_anchor,
  check_latest, RestoreError,
}
use claw_mem.Recovery.Restore.Checked.{
  restore_from_manifest_cid-ok, restore_from_manifest_cid-err, RootVerified, IsAnchored,
}
use claw_mem.Backup.Types.{ManifestFileEntry, SnapshotManifest, memory, OnChainBackup}
use claw_mem.Backup.Merkle.{replicate, build_merkle_root, climb, next_level, hash_pair, hash_leaf}
use claw_mem.Backup.Pattern.{codes, strip}
use claw_mem.JsMap.{get, set, delete}
use claw_mem.Recovery.Chain.{resolve_chain_from_cid, unavailable, follow, fetch}
use claw_mem.Recovery.Integrity.{
  verify_manifest_merkle_root, verify_on_chain_anchor, verify_restored_files, verify_all,
  verify_file,
}
use claw_mem.Backup.Manifest.{
  compute_data_merkle_root, sort_paths, insert_path, comes_before, leaf_of, length_prefixed,
}

abbrev entry_at : String → ManifestFileEntry
entry_at cid = record {
  cid = cid;
  hash = "00";
  size_bytes = 1;
  encrypted = false;
  category = memory;
}

-- A manifest with a path that leaves the target directory.
abbrev hostile : SnapshotManifest
hostile = record {
  agent_id = "0xa";
  timestamp = "first";
  parent_cid = none;
  files = ("../etc/passwd", entry_at "bafyevil") ∷ ("MEMORY.md", entry_at "bafygood") ∷ [];
  merkle_root = replicate 32 7;
  total_bytes = 2;
  file_count = 2;
  semantic_digest = none;
}

-- `resolve` of the paths at hand.
abbrev normalise : String → String
normalise p = if p == "/home/../etc/passwd" then "/etc/passwd" else p

abbrev disk_env : DownloadEnv
disk_env = record {
  place = λ p. p;
  entry_place = λ p. p;
  resolve = normalise;
  join = λ d p. concat d (concat "/" p);
  cat = λ cid. ok (1 ∷ []);
  decrypt = λ content key is_password. err "no";
  mkdir_for = λ p. ok tt;
  write_file = λ p content. ok tt;
  unlink = λ p. ok tt;
}

abbrev old_disk : Disk
old_disk = ("/etc/passwd", 5 ∷ []) ∷ []

hostile_run : apply_manifest_chain disk_env "/home" "" false (hostile ∷ []) old_disk ≡ (
  ok (record {
    files_written = 1;
    total_bytes = 1;
    errors =
        record { path = "../etc/passwd"; error = "Path traversal blocked: ../etc/passwd" } ∷ [];
  }),
  ("/etc/passwd", 5 ∷ []) ∷ ("/home/MEMORY.md", 1 ∷ []) ∷ [],
)
unfolding apply_manifest_chain apply_all download_manifest_files download_from download_file
    content_of write_content is_inside starts_with unlink_absent unlink_file written_paths set
    delete strip get
hostile_run = refl

abbrev second : List ℕ → ℕ
second (a ∷ b ∷ s) = b
second _ = 0

abbrev registry : RestoreEnv
registry = record {
  sha256 = λ b. replicate 32 7;
  utf8 = codes;
  sha256_hex = λ b. "00";
  cid_to_bytes32 = λ cid. concat "0x" cid;
  cat_manifest = λ cid. if cid == "bafym" then some hostile else none;
  latest_backup = some (λ agent.
      if agent == "0xa"
      then ok (record {
        manifest_cid = "0xbafym";
        data_merkle_root = replicate 32 7;
        anchored_at = 1;
        file_count = 2;
        total_bytes = 2;
        backup_type = 0;
        parent_manifest_cid = "";
      })
      else err "no backup");
  files = disk_env;
}

abbrev restored_result : RecoveryResult
restored_result = record {
  files_restored = 1;
  total_bytes = 1;
  backups_applied = 1;
  merkle_verified = false;
  requested_manifest_cid = "bafym";
  resolved_agent_id = some "0xa";
  anchor_check = record { attempted = true; passed = true; reason = verified };
}

registry_run :
    ((restore_from_manifest_cid registry 2 "bafym" "/home" "" false old_disk).0
      ≡ ok restored_result)
    × ((restore_from_manifest_cid registry 2 "bafyx" "/home" "" false old_disk).0
        ≡ err (chain_failed (unavailable "bafyx")))
unfolding restore_from_manifest_cid check_all check_chain apply_checked verify_roots latest_of
    check_anchor check_latest apply_manifest_chain apply_all download_manifest_files download_from
    download_file content_of write_content is_inside starts_with unlink_absent unlink_file
    written_paths set delete strip get resolve_chain_from_cid follow fetch
    verify_manifest_merkle_root compute_data_merkle_root build_merkle_root climb next_level
    hash_pair sort_paths insert_path comes_before leaf_of hash_leaf length_prefixed
    verify_on_chain_anchor verify_restored_files verify_all verify_file
registry_run = (refl, refl)

restore_from_manifest_cid-ok_example :
    (chain : List SnapshotManifest) × (latest : SnapshotManifest) × (resolve_chain_from_cid
        registry.cat_manifest 2 "bafym"
      ≡ ok chain)
    × All (RootVerified registry) chain
    × (last_of chain ≡ some latest)
    × (is_blank "" ≡ true → has_encrypted latest ≡ false)
    × (restored_result.anchor_check.passed ≡ true → IsAnchored registry "bafym" latest)
    × (restored_result.backups_applied ≡ length chain)
restore_from_manifest_cid-ok_example =
    restore_from_manifest_cid-ok registry 2 "bafym" "/home" "" false old_disk restored_result
      registry_run.0

restore_from_manifest_cid-err_example :
    (restore_from_manifest_cid registry 2 "bafyx" "/home" "" false old_disk).1 ≡ old_disk
restore_from_manifest_cid-err_example =
    restore_from_manifest_cid-err registry 2 "bafyx" "/home" "" false old_disk
      (chain_failed (unavailable "bafyx")) registry_run.1

abbrev anchored : OnChainBackup
anchored = record {
  manifest_cid = "0xbafym";
  data_merkle_root = replicate 32 7;
  anchored_at = 1;
  file_count = 2;
  total_bytes = 2;
  backup_type = 0;
  parent_manifest_cid = "";
}

abbrev chain_env : RegistryEnv
chain_env = record {
  get_soul = ok (record { active = true; backup_count = 1 });
  get_latest_backup = ok anchored;
  cid_resolver = some (λ h. ok (some "bafym"));
  restore = registry;
}

chain_env_run :
    restore_from_chain chain_env 2 "/home" "" false old_disk
    ≡ restore_from_manifest_cid registry 2 "bafym" "/home" "" false old_disk
unfolding restore_from_chain latest_cid resolve_with
chain_env_run = refl

restore_from_chain-ok_example :
    (cid : String) × (b : OnChainBackup) × (chain_env.get_latest_backup ≡ ok b)
    × (registry.cid_to_bytes32 cid ≡ b.manifest_cid)
    × (restore_from_chain chain_env 2 "/home" "" false old_disk
        ≡ restore_from_manifest_cid registry 2 cid "/home" "" false old_disk)
restore_from_chain-ok_example =
    restore_from_chain-ok chain_env 2 "/home" "" false old_disk restored_result
      (ap (λ (x : Result RestoreError RecoveryResult × Disk). x.0) chain_env_run ∙ registry_run.0)
