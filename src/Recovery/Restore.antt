-- ===== src/Recovery/Restore.antt =====
-- packages/soul/src/recovery/state-restorer.ts: the chain is resolved, checked and applied, and the
-- result is read back.
pub mod Checked
use claw_mem.Prelude.{
  if◌then◌else◌, leb, eqb, is_some, length, any_of, Result, ok, err, guard, ℕ, ◌+◌, String, Bool,
  true, false, not, ◌&&◌, ◌||◌, Option, none, some, List, [], ◌∷◌, ◌==◌, ◌>>◌, ◌>>=◌,
}
use claw_mem.JsMap.{values}
use claw_mem.Backup.Pattern.{codes, strip}
use claw_mem.Backup.Types.{SnapshotManifest, ManifestFileEntry, OnChainBackup}
use claw_mem.Backup.Anchor.{zero_bytes32}
use claw_mem.Recovery.Chain.{ChainError, resolve_chain_from_cid}
use claw_mem.Recovery.Download.{DownloadEnv, Disk, apply_manifest_chain, last_of}
use claw_mem.Recovery.Integrity.{
  verify_manifest_merkle_root, verify_restored_files, verify_on_chain_anchor,
}

pub data RestoreError : Type 0 where
  chain_failed : ChainError → RestoreError
  merkle_root_failed : ℕ → RestoreError
  password_required anchor_failed : RestoreError
  thrown : String → RestoreError

pub data AnchorReason : Type 0 where
  verified manifest_not_latest_on_chain missing_manifest_agent_id : AnchorReason
  verification_unavailable no_soul_client : AnchorReason

pub record AnchorCheck : Type 0 where
  pub attempted : Bool
  pub passed : Bool
  pub reason : AnchorReason

pub record RecoveryResult : Type 0 where
  pub files_restored : ℕ
  pub total_bytes : ℕ
  pub backups_applied : ℕ
  pub merkle_verified : Bool
  pub requested_manifest_cid : String
  pub resolved_agent_id : Option String
  pub anchor_check : AnchorCheck

-- The answers of a restore: `latest_backup` is that of the registry for an agent, none without a soul
-- client.
pub record RestoreEnv : Type 0 where
  pub sha256 : List ℕ → List ℕ
  pub utf8 : String → List ℕ
  pub sha256_hex : List ℕ → String
  pub cid_to_bytes32 : String → String
  pub cat_manifest : String → Option SnapshotManifest
  pub latest_backup : Option (String → Result String OnChainBackup)
  pub files : DownloadEnv

-- `WhiteSpace` and `LineTerminator`, as `trim` removes them.
abbrev pub is_space : ℕ → Bool
is_space c =
    (leb 9 c && leb c 13)
    || (eqb c 32
        || (eqb c 160
            || (eqb c 0x1680
                || ((leb 0x2000 c && leb c 0x200a)
                    || (eqb c 0x2028
                        || (eqb c 0x2029
                            || (eqb c 0x202f
                                || (eqb c 0x205f || (eqb c 0x3000 || eqb c 0xfeff)))))))))

abbrev pub all_space : List ℕ → Bool
all_space [] = true
all_space (c ∷ s) = is_space c && all_space s

-- `!s.trim()`
abbrev pub is_blank : String → Bool
is_blank s = all_space (codes s)

-- `s.includes(t)`
unfoldable pub contains : List ℕ → List ℕ → Bool
contains t [] = is_some (strip t [])
contains t (c ∷ s) = is_some (strip t (c ∷ s)) || contains t s

unfoldable pub latest_of : List SnapshotManifest → Result RestoreError SnapshotManifest
latest_of chain = elim (last_of chain) [
  | none ↦ err (thrown "TypeError: Cannot read properties of undefined (reading 'files')")
  | some latest ↦ ok latest
]

abbrev pub has_encrypted : SnapshotManifest → Bool
has_encrypted m = any_of (λ e. e.encrypted) (values m.files)

module _ (env : RestoreEnv) where
  -- The first manifest whose root does not verify stops the restore.
  unfoldable pub verify_roots : ℕ → List SnapshotManifest → Result RestoreError (Unit {0})
  verify_roots i [] = ok tt
  verify_roots i (m ∷ ms) =
      if verify_manifest_merkle_root env.sha256 env.utf8 env.sha256_hex m
      then verify_roots (i + 1) ms
      else err (merkle_root_failed i)

  -- The answer of the registry: the text of some errors is thrown again.
  unfoldable pub check_latest :
      String → SnapshotManifest → Result String OnChainBackup → Result RestoreError AnchorCheck
  unfolding contains
  check_latest manifest_cid latest (err e) =
      if contains (codes "anchor verification failed") (codes e)
      then err (thrown e)
      else ok (record { attempted = true; passed = false; reason = verification_unavailable })
  check_latest manifest_cid latest (ok on_chain) =
      if on_chain.manifest_cid == env.cid_to_bytes32 manifest_cid
      then if verify_on_chain_anchor latest.merkle_root on_chain.data_merkle_root
        then ok (record { attempted = true; passed = true; reason = verified })
        else err anchor_failed
      else ok (record { attempted = true; passed = false; reason = manifest_not_latest_on_chain })

  -- Step 2b.
  unfoldable pub check_anchor :
      String
      → SnapshotManifest
      → Option (String → Result String OnChainBackup)
      → Result RestoreError AnchorCheck
  unfolding check_latest
  check_anchor manifest_cid latest none =
      ok (record { attempted = false; passed = false; reason = no_soul_client })
  check_anchor manifest_cid latest (some get_latest_backup) =
      if (latest.agent_id == "") || (latest.agent_id == zero_bytes32)
      then ok (record { attempted = false; passed = false; reason = missing_manifest_agent_id })
      else check_latest manifest_cid latest (get_latest_backup latest.agent_id)

  -- Steps 2 to 2b: what is checked of a chain before any file is written.
  unfoldable pub check_chain :
      String
      → String
      → List SnapshotManifest
      → Result RestoreError (List SnapshotManifest × SnapshotManifest × AnchorCheck)
  unfolding verify_roots check_anchor latest_of
  check_chain manifest_cid key chain = do
    verify_roots 0 chain
    latest ← latest_of chain
    guard (not (has_encrypted latest && is_blank key)) password_required
    check ← check_anchor manifest_cid latest env.latest_backup
    ok (chain, latest, check)

  unfoldable pub check_all :
      ℕ
      → String
      → String
      → Result RestoreError (List SnapshotManifest × SnapshotManifest × AnchorCheck)
  unfolding check_chain
  check_all fuel manifest_cid key =
      elim (resolve_chain_from_cid env.cat_manifest fuel manifest_cid) [
        | err e ↦ err (chain_failed e)
        | ok chain ↦ check_chain manifest_cid key chain
      ]

  -- Steps 3 and 4.
  unfoldable pub apply_checked :
      String
      → String
      → String
      → Bool
      → List SnapshotManifest × SnapshotManifest × AnchorCheck
      → Disk
      → Result RestoreError RecoveryResult × Disk
  apply_checked manifest_cid target key is_password (chain, latest, check) disk =
      let (downloaded, after) = apply_manifest_chain env.files target key is_password chain disk in
      elim downloaded [
        | err e ↦ (err (thrown e), after)
        | ok r ↦ (
          ok (record {
            files_restored = r.files_written;
            total_bytes = r.total_bytes;
            backups_applied = length chain;
            merkle_verified =
                (verify_restored_files env.sha256 env.utf8 env.sha256_hex env.files target after
                  latest).valid;
            requested_manifest_cid = manifest_cid;
            resolved_agent_id = if latest.agent_id == "" then none else some latest.agent_id;
            anchor_check = check;
          }),
          after,
        )
      ]

  -- `restoreFromManifestCid`.
  unfoldable pub restore_from_manifest_cid :
      ℕ → String → String → String → Bool → Disk → Result RestoreError RecoveryResult × Disk
  unfolding check_all apply_checked
  restore_from_manifest_cid fuel manifest_cid target key is_password disk =
      elim (check_all fuel manifest_cid key) [
        | err e ↦ (err e, disk)
        | ok checked ↦ apply_checked manifest_cid target key is_password checked disk
      ]
