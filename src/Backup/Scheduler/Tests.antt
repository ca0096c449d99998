-- ===== src/Backup/Scheduler/Tests.antt =====
-- A full backup, a new process, and an incremental backup.
use claw_mem.Backup.Scheduler.{persist_state, next_state, build_semantic_digest}
use claw_mem.JsMap
use claw_mem.Backup.Upload.{upload_files, carry_over_entries, spread}
use claw_mem.Backup.Detect.{detect_changes}
use claw_mem.Backup.Manifest.{build_manifest}
use claw_mem.Backup.Scheduler.Timer
use claw_mem.Backup.Scheduler.Timer.{TimerEvent}
use claw_mem.Prelude.{
  if◌then◌else◌, is_some, ok, err, String, ◌≡◌, refl, true, false, none, some, List, [], ◌∷◌, ◌==◌,
  length, if_both, ◌≤◌, ◌++◌,
}
use claw_mem.Backup.Scan
use claw_mem.Backup.Scan.{
  scan_files, walk, append_scan, scan_file, scan_classified, is_hidden, Entries,
}
use claw_mem.Backup.Classify.{
  classify_file, should_skip_file_by_name, file_rules, skip_file_name_patterns,
  skip_file_relative_paths, first_match,
}
use claw_mem.Backup.Pattern.{test, codes}
use claw_mem.Backup.Scheduler.Parts.{System, RunEnv, Library}
use claw_mem.Backup.Scheduler.History.{
  Event, backed_up, restarted, replay, replay-resolves, new_system, happen,
}
use claw_mem.Recovery.Chain.Lineage.{CollisionFree, StartsFull}
use claw_mem.Backup.Anchor.{
  read_backup_state, cat_manifest, anchor_backup, backup_type, parent_bytes32, anchored_at,
}
use claw_mem.Backup.Merkle.{replicate}
use claw_mem.Backup.Scheduler.{
  run_backup, SnapshotManifest, ensure_initialized, hydrate, execute_backup, changed_backup,
  backup_changes, is_full_backup, build_backup, new_manifest, all_entries, commit_backup,
  persist_state,
}
use claw_mem.Backup.Upload.{upload_from, upload_file, carry_from}
use claw_mem.Recovery.Chain.{resolve_chain_from_cid}
use claw_mem.Backup.Detect.{place_all, place, remove}

abbrev library : Library
library = record {
  sha256 = λ b. replicate 32 7;
  utf8 = codes;
  cid_of = λ m. if is_some m.parent_cid then "bafytwo" else "bafyone";
  cid_to_bytes32 = λ cid. cid;
  base_dir = "/home";
}

abbrev policy : Scan.CocBackupConfig
policy = record {
  auto_backup_enabled = true;
  auto_backup_interval_ms = 60000;
  encrypt_memory = false;
  encryption_password = none;
  private_key = "0x1";
  max_incremental_chain = 2;
  categories = λ c. true;
}

abbrev note : String → Scan.Entry
note name = Scan.file name (ok (record { size = 1; mtime_ms = 1 })) (ok (1 ∷ []))

abbrev run_with : Entries → RunEnv
run_with home = record {
  ipfs_up = true;
  agent_id = ok "0xa";
  tree = some home;
  upload = record {
    snapshot_binary_file = λ p. ok p;
    read_file = λ p. ok (1 ∷ []);
    sha256_hex = λ b. "00";
    encrypt = λ content key is_password. content;
    add = λ content. ok "bafyfile";
  };
  semantic = ok none;
  timestamp = "now";
  anchor = record { add_manifest = ok tt; anchor_backup = ok "0xtx"; latest_backup = err "down" };
  write_package = ok "package.json";
  write_state = ok tt;
  now = 5;
  resurrection_configured = ok false;
  heartbeat = ok tt;
}

abbrev history : List Event
history =
    backed_up (run_with (Scan.cons (note "MEMORY.md") Scan.nil)) false
    ∷ restarted
    ∷ backed_up (run_with (Scan.cons (note "MEMORY.md") (Scan.cons (note "SOUL.md") Scan.nil)))
        false
    ∷ []

abbrev last_system : System
last_system = replay library policy history new_system

two-CollisionFree :
    (cid_of : SnapshotManifest → String) (x y : SnapshotManifest)
    → (cid_of y == cid_of x) ≡ false
    → CollisionFree cid_of (x ∷ y ∷ [])
unfolding cat_manifest
two-CollisionFree cid_of x y n = (λ m h. cc (rw n at h), (λ m h. cc h, tt))

program : Unit {0}
unfolding replay happen run_backup ensure_initialized hydrate execute_backup changed_backup
    backup_changes is_full_backup build_backup new_manifest all_entries commit_backup anchor_backup
    persist_state next_state read_backup_state upload_files upload_from upload_file JsMap.set
    JsMap.get carry_over_entries carry_from spread detect_changes place_all place remove
    cat_manifest backup_type scan_files walk append_scan scan_file scan_classified is_hidden
    classify_file first_match file_rules skip_file_relative_paths should_skip_file_by_name
    skip_file_name_patterns test build_manifest build_semantic_digest parent_bytes32 anchored_at
program = tt

last_state : (read_backup_state last_system.outside.state_file).last_manifest_cid ≡ some "bafytwo"
unfolding program
last_state = refl

last-CollisionFree : CollisionFree library.cid_of last_system.outside.manifests
unfolding program
last-CollisionFree = two-CollisionFree library.cid_of _ _ refl

cid_ne : (m : SnapshotManifest) → (library.cid_of m == "") ≡ false
cid_ne m =
    if_both (λ (c : String). (c == "") ≡ false) (is_some m.parent_cid) _ _ (λ e. refl) (λ e. refl)

replay-resolves_example :
    (m : SnapshotManifest) × (older : List SnapshotManifest) × ("bafytwo" ≡ library.cid_of m)
    × (resolve_chain_from_cid
          (cat_manifest library.cid_of last_system.outside.manifests)
          3
          "bafytwo"
        ≡ ok (older ++ (m ∷ [])))
    × (length older ≡ (read_backup_state last_system.outside.state_file).incremental_count)
    × (length older ≤ 2)
    × StartsFull (older ++ (m ∷ []))
replay-resolves_example =
    replay-resolves library policy cid_ne history last-CollisionFree "bafytwo" last_state

-- A stop while a run is under way does not keep the end of the run from scheduling the next one.
abbrev stopped_too_early : List TimerEvent
stopped_too_early = Timer.started ∷ Timer.fired ∷ Timer.stopped ∷ Timer.ran true ∷ []
