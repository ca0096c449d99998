-- ===== src/Backup/Scan.antt =====
-- `scanFiles` of packages/soul/src/backup/change-detector.ts, lines 141 to 211: the walk over a
-- directory tree that collects what is to be backed up. The tree is what `readdir`, `stat` and
-- `readFile` answer; the digest of a content is a parameter.
pub mod Eligible
mod Tests
use Prim.Native.String.{◌++◌ as concat}
use claw_mem.Prelude.{
  if◌then◌else◌, ltb, eqb, Result, ok, ℕ, ◌*◌, String, Bool, true, false, not, ◌&&◌, ◌||◌, Option,
  none, some, List, [], ◌∷◌, ◌++◌, ◌==◌, ◌>>=◌, ◌/◌,
}
use claw_mem.Backup.Types.{FileCategory, FileState, memory}
use claw_mem.Backup.Classify.{Class, should_skip_dir, should_skip_file_by_name, classify_file}
use claw_mem.Backup.Pattern.{codes}

-- The parts of `CocBackupConfig` that the backup reads.
pub record CocBackupConfig : Type 0 where
  pub auto_backup_enabled : Bool
  pub auto_backup_interval_ms : ℕ
  pub encrypt_memory : Bool
  pub encryption_password : Option String
  pub private_key : String
  pub max_incremental_chain : ℕ
  pub categories : FileCategory → Bool

pub record Stat : Type 0 where
  pub size : ℕ
  pub mtime_ms : ℕ

-- An entry of a directory: `unreadable` is a directory that `readdir` refuses.
mutual
  pub data Entry : Type 0 where
    file : String → Result String Stat → Result String (List ℕ) → Entry
    dir : String → Entries → Entry
    unreadable : String → Entry
    symbolic_link : String → Entry
    special : String → Entry

  pub data Entries : Type 0 where
    nil : Entries
    cons : Entry → Entries → Entries

abbrev pub max_file_bytes : ℕ
max_file_bytes = 100 * 1024 * 1024

-- `join(dir, name)`, on paths relative to the base directory.
abbrev pub join : String → String → String
join d name = if d == "" then name else concat d (concat "/" name)

-- `name.startsWith(".")`
abbrev pub begins_with_dot : List ℕ → Bool
begins_with_dot [] = false
begins_with_dot (c ∷ s) = eqb c b'.'

-- The hidden directories, but for three that are walked all the same.
unfoldable pub is_hidden : String → Bool
is_hidden name =
    begins_with_dot (codes name)
    && (not (name == ".claude") && (not (name == ".coc-backup") && not (name == ".openclaw")))

abbrev pub is_memory : FileCategory → Bool
is_memory memory = true
is_memory _ = false

-- The files of one entry, and then those of the entries behind it.
unfoldable pub append_scan :
    Result String (List FileState) → Result String (List FileState) → Result String (List FileState)
append_scan first later = do fs ← first; gs ← later; ok (fs ++ gs)

module _ (sha256_hex : List ℕ → String) (base : String) (cfg : CocBackupConfig) where
  abbrev state_of : String → Class → Stat → List ℕ → FileState
  state_of path c st content = record {
    relative_path = path;
    absolute_path = join base path;
    hash = sha256_hex content;
    size_bytes = st.size;
    mtime_ms = st.mtime_ms;
    encrypted = c.encrypt || (is_memory c.category && cfg.encrypt_memory);
    category = c.category;
  }

  -- What a classified file adds to the list.
  unfoldable pub scan_classified :
      String → Class → Result String Stat → Result String (List ℕ) → Result String (List FileState)
  scan_classified path c stat content = if not (cfg.categories c.category) then ok [] else do
    st ← stat
    if ltb max_file_bytes st.size
        then ok []
        else do bytes ← content; ok (state_of path c st bytes ∷ [])

  unfoldable pub scan_file :
      String → String → Result String Stat → Result String (List ℕ) → Result String (List FileState)
  unfolding scan_classified
  scan_file path name stat content =
      if should_skip_file_by_name name
      then ok []
      else elim (classify_file path) [ none ↦ ok [] | some c ↦ scan_classified path c stat content ]

  unfoldable mutual
    pub walk_entry : String → Entry → Result String (List FileState)
    walk_entry d (file name stat content) = scan_file (join d name) name stat content
    walk_entry d (dir name es) =
        let inner = walk (join d name) es in
        if should_skip_dir name || is_hidden name then ok [] else inner
    walk_entry d (unreadable name) = ok []
    walk_entry d (symbolic_link name) = ok []
    walk_entry d (special name) = ok []

    pub walk : String → Entries → Result String (List FileState)
    walk d nil = ok []
    walk d (cons e es) = append_scan (walk_entry d e) (walk d es)

  -- `scanFiles(baseDir, config)`: the base directory's own listing may fail too, and is then empty.
  unfoldable pub scan_files : Option Entries → Result String (List FileState)
  scan_files none = ok []
  scan_files (some es) = walk "" es
