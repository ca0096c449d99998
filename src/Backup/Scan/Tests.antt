-- ===== src/Backup/Scan/Tests.antt =====
-- The scan of a small directory.
use claw_mem.Prelude.{All, ok, err, ℕ, String, ◌≡◌, refl, true, none, some, List, [], ◌∷◌}
use claw_mem.Backup.Classify.{
  skip_file_name_patterns, skip_dirs_by_name, classify_file, should_skip_dir,
  should_skip_file_by_name,
}
use claw_mem.Backup.Scan.Eligible.{Eligible, Stands, scan_files-Eligible}
use claw_mem.Backup.Types.{FileState}
use claw_mem.Backup.Scan.{
  Entries, scan_files, CocBackupConfig, cons, memory, walk, file, append_scan, dir, scan_file, nil,
  scan_classified, is_hidden,
}
use claw_mem.Backup.Classify.Rules.{file_rules, skip_file_relative_paths}
use claw_mem.Backup.Pattern.{test}

abbrev hex : List ℕ → String
hex b = "00"

abbrev settings : CocBackupConfig
settings = record {
  auto_backup_enabled = true;
  auto_backup_interval_ms = 60000;
  encrypt_memory = true;
  encryption_password = none;
  private_key = "0x1";
  max_incremental_chain = 2;
  categories = λ c. true;
}

abbrev home : Entries
home =
    cons (file "MEMORY.md" (ok (record { size = 2; mtime_ms = 7 })) (ok (1 ∷ 2 ∷ [])))
      (cons (dir "node_modules" (cons (file "IDENTITY.md" (err "gone") (err "gone")) nil)) nil)

abbrev memory_file : FileState
memory_file = record {
  relative_path = "MEMORY.md";
  absolute_path = "/home/MEMORY.md";
  hash = "00";
  size_bytes = 2;
  mtime_ms = 7;
  encrypted = true;
  category = memory;
}

home_scan : scan_files hex "/home" settings (some home) ≡ ok (memory_file ∷ [])
unfolding scan_files walk append_scan scan_file scan_classified is_hidden classify_file file_rules
    skip_file_relative_paths should_skip_dir should_skip_file_by_name test skip_file_name_patterns
    skip_dirs_by_name
home_scan = refl

scan_files-Eligible_example :
    All (Eligible hex "/home" settings (Stands (some home))) (memory_file ∷ [])
scan_files-Eligible_example =
    scan_files-Eligible hex "/home" settings (some home) (memory_file ∷ []) home_scan
