-- ===== src/Tests.antt =====
-- The theorems at concrete inputs.
use claw_mem.Prelude.{
  All, ok, ℕ, String, ◌≡◌, refl, ◌↔◌, inr, true, none, some, List, [], ◌∷◌, length, take, keep_if,
  length-append, length-take, ◌⊎◌, not, ◌++◌, arith, if◌then◌else◌, eqb, if_both, false, ◌==◌,
}
use claw_mem.Backup.Pattern.Matching.{Matches, test-Matches}
use claw_mem.Backup.Classify.Laws.{classify-credentials, classify-agent_private}
use claw_mem.Backup.Detect.Sorted.{
  detect_changes_lem, is_new, is_at, previous_hash, is_other, is_same,
}
use claw_mem.Backup.Upload.Covers.{full_covers, incremental_covers}
use claw_mem.JsMap
use mathlib.Core.Path.{ap₂}
use text.Mathlib.TextEquality.{Char-path}
use claw_mem.Recovery.Chain.Lineage.{resolve_chain-Rooted, Rooted, full, incremental, StartsFull}
use claw_mem.Backup.Classify.{
  classify_file, file_rules, skip_file_relative_paths, should_skip_dir, should_skip_file_by_name,
}
use claw_mem.Backup.Types.{
  ManifestFileEntry, SnapshotManifest, FileState, config, memory, ChangeSet,
}
use claw_mem.Backup.Pattern.{test, many, codes, any_char, lit}
use claw_mem.Backup.Upload.{
  upload_files, spread, carry_over_entries, UploadEnv, UploadResult, upload_file, upload_from,
  carry_from,
}
use claw_mem.Backup.Detect.{detect_changes, place, place_all}
use claw_mem.Backup.Anchor.{cat_manifest}
use claw_mem.Backup.Merkle.{build_merkle_root, zero_hash, climb}
use claw_mem.JsMap.{has, get, set, keys}
use claw_mem.Backup.Manifest.Binding.{rows, compute_data_merkle_root_inj, HasShortEntry}
use claw_mem.Backup.Manifest.{compute_data_merkle_root, sort_paths, insert_path, comes_before}
use claw_mem.Backup.Merkle.Binding.{Collision, climb_total, build_merkle_root_inj}
use claw_mem.Recovery.Chain.{resolve_chain_from_cid}

program : Unit {0}
unfolding upload_file upload_from place place_all carry_from test classify_file file_rules
    skip_file_relative_paths should_skip_dir should_skip_file_by_name upload_files detect_changes
    cat_manifest spread carry_over_entries build_merkle_root has get JsMap.set
    compute_data_merkle_root
program = tt

notes-Matches :
    (test (many any_char ∷ lit (codes ".md") ∷ []) (codes "notes.md") ≡ true)
    ↔ Matches (many any_char ∷ lit (codes ".md") ∷ []) (codes "notes.md")
notes-Matches = test-Matches (many any_char ∷ lit (codes ".md") ∷ []) (codes "notes.md")

classify-credentials_example :
    classify_file "credentials/telegram/key.json"
    ≡ some (record { category = config; encrypt = true })
classify-credentials_example =
    classify-credentials "credentials/telegram/key.json" (codes "telegram/key.json") refl

classify-agent_private_example : classify_file "agents/main/agent/auth-profiles.json" ≡ none
classify-agent_private_example =
    classify-agent_private "agents/main/agent/auth-profiles.json" (codes "main")
      (codes "auth-profiles.json") refl (inr refl)

abbrev hex : List ℕ → String
hex b = "00"

abbrev memory_file : FileState
memory_file = record {
  relative_path = "MEMORY.md";
  absolute_path = "/home/MEMORY.md";
  hash = "00";
  size_bytes = 2;
  mtime_ms = 7;
  encrypted = true;
  category = memory;
}

abbrev entry_of : String → ManifestFileEntry
entry_of h = record { cid = "bafy"; hash = h; size_bytes = 2; encrypted = true; category = memory }

abbrev first_backup : SnapshotManifest
first_backup = record {
  agent_id = "0xa";
  timestamp = "first";
  parent_cid = none;
  files = ("MEMORY.md", entry_of "00") ∷ ("USER.md", entry_of "11") ∷ [];
  merkle_root = [];
  total_bytes = 4;
  file_count = 2;
  semantic_digest = none;
}

abbrev now_files : List FileState
now_files =
    memory_file
    ∷ record memory_file { relative_path = "USER.md"; hash = "22" }
    ∷ record memory_file { relative_path = "SOUL.md"; hash = "33" }
    ∷ []

abbrev parts : ChangeSet
parts = detect_changes now_files (some first_backup)

detect_changes_lem_example :
    (parts.added ≡ keep_if (λ f. is_new (previous_hash first_backup.files f) f.hash) now_files)
    × (parts.modified
        ≡ keep_if (λ f. is_other (previous_hash first_backup.files f) f.hash) now_files)
    × (parts.unchanged
        ≡ keep_if (λ f. is_same (previous_hash first_backup.files f) f.hash) now_files)
    × (parts.deleted ≡ keep_if (λ p. not (is_at now_files p)) (keys first_backup.files))
detect_changes_lem_example = detect_changes_lem now_files first_backup

abbrev services : UploadEnv
services = record {
  snapshot_binary_file = λ path. ok path;
  read_file = λ path. ok (codes path);
  sha256_hex = hex;
  encrypt = λ content key password. 0 ∷ content;
  add = λ content. ok "bafynew";
}

abbrev stored : String → String → ManifestFileEntry
stored path h = record {
  cid = "bafynew";
  hash = h;
  size_bytes = length (codes path);
  encrypted = true;
  category = memory;
}

abbrev all_stored : UploadResult
all_stored = record {
  entries = ("MEMORY.md", record (entry_of "00") { cid = "bafynew"; size_bytes = 16 }) ∷ [];
  total_bytes = 16;
  file_count = 1;
}

all_stored_run : upload_files services "0x1" none (memory_file ∷ []) ≡ ok all_stored
unfolding program
all_stored_run = refl

full_backup_covers : has all_stored.entries "MEMORY.md" ≡ is_at (memory_file ∷ []) "MEMORY.md"
unfolding upload_files detect_changes
full_backup_covers = full_covers services "0x1" none (memory_file ∷ []) "MEMORY.md" all_stored_run

abbrev short_digest : List ℕ → List ℕ
short_digest b = take 32 (b ++ zero_hash)

short_digest-length : (b : List ℕ) → length (short_digest b) ≡ 32
short_digest-length b = omega (arith, length-take 32 (b ++ zero_hash), length-append b zero_hash)

abbrev leaves : List (List ℕ)
leaves = short_digest (1 ∷ []) ∷ short_digest (2 ∷ []) ∷ short_digest (3 ∷ []) ∷ []

leaves_rooted : (r : List ℕ) × (climb short_digest 2 leaves ≡ some r)
leaves_rooted =
    climb_total short_digest short_digest-length 2 (short_digest (1 ∷ []))
      (short_digest (2 ∷ []) ∷ short_digest (3 ∷ []) ∷ []) (omega arith)

build_merkle_root_inj_example : (leaves ≡ leaves) ⊎ Collision short_digest
build_merkle_root_inj_example =
    build_merkle_root_inj short_digest short_digest-length leaves leaves refl
      (refl, (refl, (refl, tt))) (refl, (refl, (refl, tt))) refl

codes_inj : (s t : String) → codes s ≡ codes t → s ≡ t
codes_inj String.[] String.[] e = refl
codes_inj String.[] (String.◌∷◌ d t) e = cc
codes_inj (String.◌∷◌ c s) String.[] e = cc
codes_inj (String.◌∷◌ c s) (String.◌∷◌ d t) e =
    ap₂ (String.◌∷◌) (Char-path c d (cc)) (codes_inj s t (cc))

short_entries :
    All (HasShortEntry short_digest codes first_backup.files) (sort_paths (keys first_backup.files))
unfolding program sort_paths insert_path comes_before
short_entries = (
  (entry_of "00", refl, omega arith, omega arith, omega arith),
  ((entry_of "11", refl, omega arith, omega arith, omega arith), tt),
)

compute_data_merkle_root_inj_example :
    (rows first_backup.files ≡ rows first_backup.files) ⊎ Collision short_digest
unfolding program
compute_data_merkle_root_inj_example =
    compute_data_merkle_root_inj short_digest codes short_digest-length codes_inj first_backup.files
      first_backup.files refl short_entries short_entries refl

abbrev user_stored : UploadResult
user_stored = record {
  entries =
      ("SOUL.md", record (entry_of "00") { cid = "bafynew"; size_bytes = 16 })
      ∷ ("USER.md", record (entry_of "00") { cid = "bafynew"; size_bytes = 16 })
      ∷ [];
  total_bytes = 32;
  file_count = 2;
}

user_stored_run : upload_files services "0x1" none (parts.added ++ parts.modified) ≡ ok user_stored
unfolding program
user_stored_run = refl

incremental_covers_example :
    has
      (spread (carry_over_entries parts.unchanged first_backup.files) user_stored.entries)
      "USER.md"
    ≡ is_at now_files "USER.md"
incremental_covers_example =
    incremental_covers services "0x1" none now_files first_backup "USER.md" user_stored_run

-- Two manifests in a store, told apart by their number of files.
abbrev cid_of_two : SnapshotManifest → String
cid_of_two m = if eqb m.file_count 2 then "bafytwo" else "bafyother"

cid_of_two-ne : (m : SnapshotManifest) → (cid_of_two m == "") ≡ false
cid_of_two-ne m =
    if_both (λ (c : String). (c == "") ≡ false) (eqb m.file_count 2) _ _ (λ e. refl) (λ e. refl)

abbrev second_backup : SnapshotManifest
second_backup = record first_backup { parent_cid = some "bafytwo"; file_count = 3 }

second_backup-Rooted : Rooted cid_of_two (second_backup ∷ first_backup ∷ []) second_backup 1
unfolding program
second_backup-Rooted = incremental first_backup refl refl (full refl refl)

resolve_chain-Rooted_example :
    (older : List SnapshotManifest) × (resolve_chain_from_cid
        (cat_manifest cid_of_two (second_backup ∷ first_backup ∷ []))
        2
        (cid_of_two second_backup)
      ≡ ok (older ++ (second_backup ∷ [])))
    × (length older ≡ 1)
    × StartsFull (older ++ (second_backup ∷ []))
resolve_chain-Rooted_example =
    resolve_chain-Rooted cid_of_two cid_of_two-ne (second_backup ∷ first_backup ∷ []) 2
      second_backup-Rooted (omega arith)
