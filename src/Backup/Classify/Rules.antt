-- ===== src/Backup/Classify/Rules.antt =====
-- The tables FILE_RULES, SKIP_DIRS_BY_NAME, SKIP_DIR_NAME_PATTERNS, SKIP_FILE_NAME_PATTERNS and
-- SKIP_FILE_RELATIVE_PATHS of packages/soul/src/backup/change-detector.ts.
use claw_mem.Prelude.{leb, eqb, ℕ, String, Bool, true, false, not, ◌&&◌, ◌||◌, List, [], ◌∷◌}
use claw_mem.Backup.Types.{FileCategory, identity, memory, chat, config, workspace, database}
use claw_mem.Backup.Pattern.{Piece, lit, opt, many, plus, dot, any_char, codes}

-- `{ category, encrypt }`.
pub record Class : Type 0 where
  pub category : FileCategory
  pub encrypt : Bool

pub record Rule : Type 0 where
  pub pattern_of : List Piece
  pub class : Class

abbrev word : String → Piece
word s = lit (codes s)

abbrev in_workspace : Piece
in_workspace = opt (codes "workspace/")

abbrev rest : Piece
rest = many any_char

abbrev dots : Piece
dots = many dot

-- `[^/]`
abbrev not_slash : ℕ → Bool
not_slash c = not (eqb c b'/')

abbrev is_digit : ℕ → Bool
is_digit c = leb b'0' c && leb c b'9'

abbrev is_letter : ℕ → Bool
is_letter c = (leb b'a' c && leb c b'z') || (leb b'A' c && leb c b'Z')

-- `[a-zA-Z0-9-]`
abbrev is_tag : ℕ → Bool
is_tag c = is_letter c || (is_digit c || eqb c b'-')

-- `[\dTZ:.\-]`
abbrev is_time : ℕ → Bool
is_time c = is_digit c || (eqb c b'T' || (eqb c b'Z' || (eqb c b':' || (eqb c b'.' || eqb c b'-'))))

abbrev plain : FileCategory → List Piece → Rule
plain c ps = record { pattern_of = ps; class = record { category = c; encrypt = false } }

abbrev secret : FileCategory → List Piece → Rule
secret c ps = record { pattern_of = ps; class = record { category = c; encrypt = true } }

unfoldable pub file_rules : List Rule
file_rules =
    plain identity (in_workspace ∷ word "IDENTITY.md" ∷ [])
    ∷ plain identity (in_workspace ∷ word "SOUL.md" ∷ [])
    ∷ plain identity (in_workspace ∷ word "BOOTSTRAP.md" ∷ [])
    ∷ secret config (word "identity/device.json" ∷ [])
    ∷ secret config (word "identity/device-auth.json" ∷ [])
    ∷ secret config (word "auth.json" ∷ [])
    ∷ plain memory (in_workspace ∷ word "MEMORY.md" ∷ [])
    ∷ plain memory (in_workspace ∷ word "USER.md" ∷ [])
    ∷ plain memory (in_workspace ∷ word "memory/" ∷ dots ∷ word ".md" ∷ [])
    ∷ plain memory (in_workspace ∷ word "RECOVERY_CONTEXT.md" ∷ [])
    ∷ plain workspace (in_workspace ∷ word "AGENTS.md" ∷ [])
    ∷ plain workspace (in_workspace ∷ word "TOOLS.md" ∷ [])
    ∷ plain workspace (in_workspace ∷ word "HEARTBEAT.md" ∷ [])
    ∷ plain workspace (word "workspace-state.json" ∷ [])
    ∷ plain workspace (word "workspace/.openclaw/workspace-state.json" ∷ [])
    ∷ plain chat (word "agents/" ∷ dots ∷ word "/sessions/" ∷ dots ∷ word ".jsonl" ∷ [])
    ∷ plain chat (word "agents/" ∷ dots ∷ word "/sessions/sessions.json" ∷ [])
    ∷ secret database (word "memory/" ∷ plus not_slash ∷ word ".sqlite" ∷ [])
    ∷ secret database (word "memory/lancedb/" ∷ dots ∷ rest ∷ [])
    ∷ secret config (word "openclaw.json" ∷ [])
    ∷ plain config (word "plugins/" ∷ dots ∷ word "/openclaw.plugin.json" ∷ [])
    ∷ secret config (word "exec-approvals.json" ∷ [])
    ∷ secret config (word "credentials/" ∷ dots ∷ rest ∷ [])
    ∷ plain workspace (word ".coc-backup/context-snapshot.json" ∷ [])
    ∷ plain memory (word ".coc-backup/semantic-snapshot.json" ∷ [])
    ∷ []

unfoldable pub skip_dirs_by_name : List String
skip_dirs_by_name = ".git" ∷ "node_modules" ∷ ".openclaw-install-backups" ∷ []

unfoldable pub skip_dir_name_patterns : List (List Piece)
skip_dir_name_patterns = (word ".restore-overwrite-backup-" ∷ rest ∷ []) ∷ []

unfoldable pub skip_file_name_patterns : List (List Piece)
skip_file_name_patterns =
    (rest ∷ word ".bak" ∷ [])
    ∷ (rest ∷ word ".bak." ∷ plus is_digit ∷ [])
    ∷ (rest ∷ word ".pre-" ∷ plus is_tag ∷ [])
    ∷ (rest ∷ word ".rejected." ∷ plus is_time ∷ [])
    ∷ (rest ∷ word ".last-good" ∷ [])
    ∷ (word "stale-" ∷ dots ∷ word "backup" ∷ dots ∷ word ".tar.gz" ∷ [])
    ∷ []

unfoldable pub skip_file_relative_paths : List String
skip_file_relative_paths = ".coc-backup/state.json" ∷ []
