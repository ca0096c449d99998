-- ===== src/Recovery/Download/Inside.antt =====
-- A restore touches nothing outside of its target directory.
use claw_mem.Prelude.{◌⊎◌, ◌++◌, ℕ, String, ◌≡◌, Bool, false, List, ◌==◌}
use claw_mem.Backup.Pattern.{codes}
use claw_mem.Recovery.Download.{DownloadEnv, concat}

-- A path below a directory: its text is that of the directory, a slash, and what comes behind.
abbrev pub IsBelow : String → String → Type 0
IsBelow base q = (rest : List ℕ) × (codes q ≡ codes (concat base "/") ++ rest)

abbrev pub IsInside : String → String → Type 0
IsInside base q = IsBelow base q ⊎ (q ≡ base)

module _ (env : DownloadEnv) (target : String) (key : String) (is_password : Bool) where
  -- A place that no path inside of the target leads to, neither that of a file nor, for its removal,
  -- that of a link.
  abbrev pub IsOutside : String → Type 0
  IsOutside p =
      (q : String)
      → IsInside (env.resolve target) q
      → ((env.place q == p) ≡ false) × ((env.entry_place q == p) ≡ false)
