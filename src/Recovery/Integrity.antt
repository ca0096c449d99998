-- ===== src/Recovery/Integrity.antt =====
-- packages/soul/src/recovery/integrity-checker.ts: roots recomputed, and restored files read back.
use claw_mem.Prelude.{
  if◌then◌else◌, eqb, ℕ, String, Bool, true, false, not, ◌&&◌, none, some, List, [], ◌∷◌, ◌==◌,
}
use claw_mem.JsMap.{Map, get}
use claw_mem.Backup.Types.{SnapshotManifest, ManifestFileEntry}
use claw_mem.Backup.Manifest.{compute_data_merkle_root}
use claw_mem.Recovery.Download.{DownloadEnv, Disk, full_path, is_inside}

-- `a === b` on digests.
abbrev pub same_bytes : List ℕ → List ℕ → Bool
same_bytes [] [] = true
same_bytes [] (d ∷ b) = false
same_bytes (c ∷ a) [] = false
same_bytes (c ∷ a) (d ∷ b) = eqb c d && same_bytes a b

pub record FileResult : Type 0 where
  pub path : String
  pub valid : Bool
  pub expected_hash : String
  pub actual_hash : String

pub record IntegrityResult : Type 0 where
  pub valid : Bool
  pub manifest_merkle_root : List ℕ
  pub expected_merkle_root : List ℕ
  pub file_results : List FileResult

-- `verifyOnChainAnchor`.
unfoldable pub verify_on_chain_anchor : List ℕ → List ℕ → Bool
verify_on_chain_anchor manifest_merkle_root on_chain_merkle_root =
    same_bytes manifest_merkle_root on_chain_merkle_root

module _ (sha256 : List ℕ → List ℕ) (utf8 : String → List ℕ) (sha256_hex : List ℕ → String) where
  -- `verifyManifestMerkleRoot`.
  unfoldable pub verify_manifest_merkle_root : SnapshotManifest → Bool
  verify_manifest_merkle_root m =
      same_bytes (compute_data_merkle_root sha256 utf8 m.files) m.merkle_root

  -- One file: a path outside of the target, or a file that is not there, is not valid.
  unfoldable pub verify_file : DownloadEnv → String → Disk → String → ManifestFileEntry → FileResult
  verify_file env target disk rel entry =
      let missing : FileResult = record {
        path = rel;
        valid = false;
        expected_hash = entry.hash;
        actual_hash = "FILE_NOT_FOUND";
      } in
      if not (is_inside env target "" false (full_path env target "" false rel))
      then missing
      else elim (get disk (env.place (full_path env target "" false rel))) [
        | none ↦ missing
        | some content ↦ record {
          path = rel;
          valid = sha256_hex content == entry.hash;
          expected_hash = entry.hash;
          actual_hash = sha256_hex content;
        }
      ]

  unfoldable pub verify_all : DownloadEnv → String → Disk → Map ManifestFileEntry → List FileResult
  unfolding verify_file
  verify_all env target disk [] = []
  verify_all env target disk ((rel, entry) ∷ files) =
      verify_file env target disk rel entry ∷ verify_all env target disk files

  abbrev pub all_valid : List FileResult → Bool
  all_valid [] = true
  all_valid (r ∷ rs) = r.valid && all_valid rs

  -- `verifyRestoredFiles`.
  unfoldable pub verify_restored_files :
      DownloadEnv → String → Disk → SnapshotManifest → IntegrityResult
  unfolding verify_all
  verify_restored_files env target disk m = record {
    valid =
        all_valid (verify_all env target disk m.files)
        && same_bytes (compute_data_merkle_root sha256 utf8 m.files) m.merkle_root;
    manifest_merkle_root = compute_data_merkle_root sha256 utf8 m.files;
    expected_merkle_root = m.merkle_root;
    file_results = verify_all env target disk m.files;
  }
