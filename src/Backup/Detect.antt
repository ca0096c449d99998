-- ===== src/Backup/Detect.antt =====
-- `detectChanges` of packages/soul/src/backup/change-detector.ts, lines 213 to 254: the current
-- files against the previous manifest.
pub mod Sorted
use claw_mem.Prelude.{
  if◌then◌else◌, keep_if, String, not, Option, none, some, List, [], ◌∷◌, ◌++◌, ◌==◌,
}
use claw_mem.JsMap.{get, keys}
use claw_mem.JsMap
use claw_mem.Backup.Types.{FileState, ChangeSet, ManifestFileEntry, SnapshotManifest}

-- `set.delete(p)`.
unfoldable pub remove : String → List String → List String
remove p = keep_if λ q. not (p == q)

-- One round of the loop over the current files.
unfoldable pub place : JsMap.Map ManifestFileEntry → FileState → ChangeSet → ChangeSet
unfolding remove
place prev_files f cs = elim (get prev_files f.relative_path) [
  | none ↦ record cs { added = cs.added ++ f ∷ []; deleted = remove f.relative_path cs.deleted }
  | some prev ↦
      if not (prev.hash == f.hash)
      then record cs {
        modified = cs.modified ++ f ∷ [];
        deleted = remove f.relative_path cs.deleted;
      }
      else record cs {
        unchanged = cs.unchanged ++ f ∷ [];
        deleted = remove f.relative_path cs.deleted;
      }
]

unfoldable pub place_all : JsMap.Map ManifestFileEntry → List FileState → ChangeSet → ChangeSet
unfolding place
place_all prev_files [] cs = cs
place_all prev_files (f ∷ fs) cs = place_all prev_files fs (place prev_files f cs)

unfoldable pub detect_changes : List FileState → Option SnapshotManifest → ChangeSet
unfolding place_all
detect_changes current none = record {
  added = current;
  modified = [];
  deleted = [];
  unchanged = [];
}
detect_changes current (some m) =
    place_all m.files current
      (record { added = []; modified = []; deleted = keys m.files; unchanged = [] })
