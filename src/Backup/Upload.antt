-- ===== src/Backup/Upload.antt =====
-- packages/soul/src/backup/uploader.ts. The consistent copy of a database file, reading a file,
-- encryption and IPFS are the environment of the upload; removing the copy afterwards is not
-- modelled.
pub mod Covers
use claw_mem.Prelude.{
  if◌then◌else◌, get_or, is_some, length, Result, ok, ℕ, ◌+◌, String, Bool, true, false, Option,
  none, some, List, [], ◌∷◌, ◌>>=◌,
}
use claw_mem.JsMap.{get, set}
use claw_mem.JsMap
use claw_mem.Backup.Types.{FileCategory, FileState, ManifestFileEntry, database, identity}

pub record UploadEnv : Type 0 where
  pub snapshot_binary_file : String → Result String String
  pub read_file : String → Result String (List ℕ)
  pub sha256_hex : List ℕ → String
  pub encrypt : List ℕ → String → Bool → List ℕ
  pub add : List ℕ → Result String String

pub record UploadResult : Type 0 where
  pub entries : JsMap.Map ManifestFileEntry
  pub total_bytes : ℕ
  pub file_count : ℕ

abbrev pub is_database : FileCategory → Bool
is_database database = true
is_database _ = false

module _ (env : UploadEnv) (private_key : String) (password : Option String) where
  -- The content that is stored, and the entry that says where.
  unfoldable pub upload_file : FileState → Result String ManifestFileEntry
  upload_file f = do
    read_path ←
        if is_database f.category
        then env.snapshot_binary_file f.absolute_path
        else ok f.absolute_path
    content ← env.read_file read_path
    let stored =
        if f.encrypted
        then env.encrypt content (get_or password private_key) (is_some password)
        else content
    cid ← env.add stored
    ok (record {
      cid = cid;
      hash = env.sha256_hex content;
      size_bytes = length stored;
      encrypted = f.encrypted;
      category = f.category;
    })

  unfoldable pub upload_from : List FileState → UploadResult → Result String UploadResult
  unfolding upload_file
  upload_from [] done = ok done
  upload_from (f ∷ fs) done = do
    entry ← upload_file f
    upload_from fs (record {
      entries = set done.entries f.relative_path entry;
      total_bytes = done.total_bytes + entry.size_bytes;
      file_count = done.file_count + 1;
    })

  unfoldable pub upload_files : List FileState → Result String UploadResult
  unfolding upload_from
  upload_files fs = upload_from fs (record { entries = []; total_bytes = 0; file_count = 0 })

-- The entries of unchanged files, taken from the previous manifest.
unfoldable pub carry_from :
    List FileState
    → JsMap.Map ManifestFileEntry
    → JsMap.Map ManifestFileEntry
    → JsMap.Map ManifestFileEntry
carry_from [] previous entries = entries
carry_from (f ∷ fs) previous entries = carry_from fs previous (elim (get previous f.relative_path) [
  | none ↦ entries
  | some prev ↦ set entries f.relative_path prev
])

unfoldable pub carry_over_entries :
    List FileState → JsMap.Map ManifestFileEntry → JsMap.Map ManifestFileEntry
unfolding carry_from
carry_over_entries fs previous = carry_from fs previous []

-- `{ ...a, ...b }`.
unfoldable pub spread :
    JsMap.Map ManifestFileEntry → JsMap.Map ManifestFileEntry → JsMap.Map ManifestFileEntry
spread a [] = a
spread a ((k, e) ∷ b) = spread (set a k e) b
