-- ===== src/Backup/Classify.antt =====
-- packages/soul/src/backup/change-detector.ts, lines 27 to 139: the table of files that are backed
-- up, in the table's order, and the names that are never backed up.
pub mod Rules
pub mod Laws
pub use Rules.{Rule, Class}
unfoldable pub use Rules.{
  file_rules, skip_dirs_by_name, skip_dir_name_patterns, skip_file_name_patterns,
  skip_file_relative_paths,
}
use claw_mem.Prelude.{
  if◌then◌else◌, includes, ℕ, ◌*◌, String, ◌≡◌, refl, Bool, true, false, ◌||◌, Option, none, some,
  List, [], ◌∷◌,
}
use claw_mem.Backup.Pattern.{Piece, codes, test}
use claw_mem.Backup.Types.{identity, database}

any_test : List (List Piece) → List ℕ → Bool
any_test [] s = false
any_test (re ∷ res) s = test re s || any_test res s

unfoldable pub should_skip_dir : String → Bool
unfolding any_test
should_skip_dir name =
    includes skip_dirs_by_name name || any_test skip_dir_name_patterns (codes name)

unfoldable pub should_skip_file_by_name : String → Bool
unfolding any_test
should_skip_file_by_name name = any_test skip_file_name_patterns (codes name)

-- The first rule that matches decides.
unfoldable pub first_match : List Rule → List ℕ → Option Class
first_match [] s = none
first_match (rule ∷ rules) s = elim (test rule.pattern_of s) [
  | true ↦ some rule.class
  | false ↦ first_match rules s
]

unfoldable pub classify_file : String → Option Class
unfolding first_match
classify_file path =
    if includes skip_file_relative_paths path then none else first_match file_rules (codes path)

-- A few paths, by evaluation.
classify_tests :
    (classify_file "workspace/IDENTITY.md" ≡ some (record { category = identity; encrypt = false }))
    × (classify_file "memory/index.sqlite" ≡ some (record { category = database; encrypt = true }))
    × (classify_file ".coc-backup/state.json" ≡ none)
    × (classify_file "agents/a1/agent/models.json" ≡ none)
unfolding classify_file file_rules skip_file_relative_paths test
classify_tests = (refl, refl, refl, refl)
