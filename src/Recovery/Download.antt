-- ===== src/Recovery/Download.antt =====
-- packages/soul/src/recovery/downloader.ts: the files of manifests are fetched, decrypted and
-- written below a target directory. The disk is a map from the places of files to contents; where a
-- path leads through symbolic links, Node's `path` functions, IPFS, decryption and what the file system
-- refuses are the environment. A restore makes no links.
pub mod Inside
use claw_mem.Prelude.{
  if◌then◌else◌, is_some, length, includes, Result, ok, err, guard, ℕ, ◌+◌, ◌/◌, String, Bool, not,
  ◌||◌, Option, none, some, List, [], ◌∷◌, ◌==◌, ◌>>◌, ◌>>=◌,
}
use Prim.Native.String.{◌++◌ as concat}
use mathlib.Core.List.{◌++◌}
use claw_mem.JsMap.{Map, get, set, delete, keys}
use claw_mem.Backup.Pattern.{codes, strip}
use claw_mem.Backup.Types.{SnapshotManifest, ManifestFileEntry}

abbrev pub Disk : Type 0
Disk = Map (List ℕ)

-- A write that fails: the file may have been truncated, and then `left` is what stands in it.
pub record WriteError : Type 0 where
  pub error : String
  pub left : Option (List ℕ)

-- `place` is where `writeFile` and `readFile` of a path lead, through every link; `entry_place` is what
-- `unlink` removes, through the links of the directories only.
pub record DownloadEnv : Type 0 where
  pub place : String → String
  pub entry_place : String → String
  pub resolve : String → String
  pub join : String → String → String
  pub cat : String → Result String (List ℕ)
  pub decrypt : List ℕ → String → Bool → Result String (List ℕ)
  pub mkdir_for : String → Result String (Unit {0})
  pub write_file : String → List ℕ → Result WriteError (Unit {0})
  pub unlink : String → Result String (Unit {0})

pub record FileError : Type 0 where
  pub path : String
  pub error : String

pub record DownloadResult : Type 0 where
  pub files_written : ℕ
  pub total_bytes : ℕ
  pub errors : List FileError

abbrev pub nothing_written : DownloadResult
nothing_written = record { files_written = 0; total_bytes = 0; errors = [] }

-- `s.startsWith(prefix)`
unfoldable pub starts_with : String → String → Bool
starts_with s prefix = is_some (strip (codes prefix) (codes s))

abbrev pub last_of : List SnapshotManifest → Option SnapshotManifest
last_of [] = none
last_of (m ∷ []) = some m
last_of (m ∷ n ∷ ms) = last_of (n ∷ ms)

module _ (env : DownloadEnv) (target : String) (key : String) (is_password : Bool) where
  abbrev pub resolved_target : String
  resolved_target = env.resolve target

  abbrev pub full_path : String → String
  full_path rel = env.resolve (env.join target rel)

  -- `fullPath.startsWith(resolvedTarget + "/") || fullPath === resolvedTarget`
  unfoldable pub is_inside : String → Bool
  unfolding starts_with
  is_inside full = starts_with full (concat resolved_target "/") || (full == resolved_target)

  -- The content that a file is to have, where its directory can be made.
  unfoldable pub content_of : String → ManifestFileEntry → Result String (List ℕ)
  unfolding is_inside
  content_of rel entry = do
    guard (is_inside (full_path rel)) (concat "Path traversal blocked: " rel)
    content ← env.cat entry.cid
    plain ← if entry.encrypted then env.decrypt content key is_password else ok content
    env.mkdir_for (full_path rel)
    ok plain

  unfoldable pub write_content : String → List ℕ → Disk × DownloadResult → Disk × DownloadResult
  write_content rel plain (disk, r) = elim (env.write_file (full_path rel) plain) [
    | ok _ ↦ (
      set disk (env.place (full_path rel)) plain,
      record r { files_written = r.files_written + 1; total_bytes = r.total_bytes + length plain },
    )
    | err e ↦ (
      elim e.left [ none ↦ disk | some left ↦ set disk (env.place (full_path rel)) left ],
      record r { errors = r.errors ++ (record { path = rel; error = e.error } ∷ []) },
    )
  ]

  unfoldable pub download_file :
      String → ManifestFileEntry → Disk × DownloadResult → Disk × DownloadResult
  unfolding content_of write_content
  download_file rel entry (disk, r) = elim (content_of rel entry) [
    | ok plain ↦ write_content rel plain (disk, r)
    | err e ↦ (disk, record r { errors = r.errors ++ (record { path = rel; error = e } ∷ []) })
  ]

  unfoldable pub download_from :
      Map ManifestFileEntry → Disk × DownloadResult → Disk × DownloadResult
  unfolding download_file
  download_from [] s = s
  download_from ((rel, entry) ∷ files) s = download_from files (download_file rel entry s)

  unfoldable pub download_manifest_files : SnapshotManifest → Disk → Disk × DownloadResult
  unfolding download_from
  download_manifest_files m disk = download_from m.files (disk, nothing_written)

  -- One round over the chain: the totals are added up.
  unfoldable pub apply_all : List SnapshotManifest → Disk × DownloadResult → Disk × DownloadResult
  unfolding download_manifest_files
  apply_all [] s = s
  apply_all (m ∷ ms) (disk, r) =
      let (disk, one) = download_manifest_files m disk in
      apply_all ms (
        disk,
        record {
          files_written = r.files_written + one.files_written;
          total_bytes = r.total_bytes + one.total_bytes;
          errors = r.errors ++ one.errors;
        },
      )

  -- `writtenPaths`: a path that stands here twice is unlinked twice, the second time to no effect.
  unfoldable pub written_paths : List SnapshotManifest → List String
  written_paths [] = []
  written_paths (m ∷ ms) = keys m.files ++ written_paths ms

  unfoldable pub unlink_file : String → Disk → Disk
  unfolding starts_with
  unlink_file p disk =
      if not (starts_with (full_path p) (concat resolved_target "/"))
      then disk
      else elim (env.unlink (full_path p)) [
        | ok _ ↦ delete disk (env.entry_place (full_path p))
        | err e ↦ disk
      ]

  -- The paths of earlier manifests that the latest one has no more are removed.
  unfoldable pub unlink_absent : List String → List String → Disk → Disk
  unfolding unlink_file
  unlink_absent latest [] disk = disk
  unlink_absent latest (p ∷ ps) disk =
      unlink_absent latest ps (if includes latest p then disk else unlink_file p disk)

  -- `applyManifestChain`; an empty chain has no latest manifest, and reading its files throws.
  unfoldable pub apply_manifest_chain :
      List SnapshotManifest → Disk → Result String DownloadResult × Disk
  unfolding apply_all written_paths unlink_absent
  apply_manifest_chain chain disk =
      let (disk, r) = apply_all chain (disk, nothing_written) in
      elim (last_of chain) [
        | none ↦ (err "TypeError: Cannot read properties of undefined (reading 'files')", disk)
        | some latest ↦ (ok r, unlink_absent (keys latest.files) (written_paths chain) disk)
      ]
