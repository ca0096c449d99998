-- ===== src/Backup/Manifest.antt =====
-- packages/soul/src/backup/manifest-builder.ts, lines 59 to 116: the root over the file entries,
-- and the manifest. `utf8` is `Buffer.from(str, "utf-8")`.
pub mod Binding
use claw_mem.Prelude.{
  if◌then◌else◌, ltb, eqb, length, ℕ, ◌+◌, ◌/◌, ◌%◌, String, Bool, true, false, ◌&&◌, ◌||◌, Option,
  none, some, List, [], ◌∷◌, ◌++◌, map, ◌-◌,
}
use claw_mem.JsMap.{Map, get, keys, values}
use claw_mem.Backup.Types.{ManifestFileEntry, SnapshotManifest, SemanticDigest}
use claw_mem.Backup.Pattern.{codes}
use claw_mem.Backup.Merkle.{hash_leaf, build_merkle_root}

-- The code units of UTF-16.
abbrev pub utf16 : List ℕ → List ℕ
utf16 [] = []
utf16 (c ∷ s) =
    let rest = utf16 s in
    if ltb 0xFFFF c
    then (0xD800 + ((c - 0x10000) / 0x400)) ∷ ((0xDC00 + ((c - 0x10000) % 0x400)) ∷ rest)
    else c ∷ rest

-- The order of `Array.prototype.sort` on texts, by their code units.
unfoldable pub comes_before : List ℕ → List ℕ → Bool
comes_before [] t = true
comes_before (c ∷ s) [] = false
comes_before (c ∷ s) (d ∷ t) = ltb c d || (eqb c d && comes_before s t)

unfoldable pub insert_path : String → List String → List String
unfolding comes_before
insert_path p [] = p ∷ []
insert_path p (q ∷ qs) =
    if comes_before (utf16 (codes p)) (utf16 (codes q)) then p ∷ q ∷ qs else q ∷ insert_path p qs

unfoldable pub sort_paths : List String → List String
unfolding insert_path
sort_paths [] = []
sort_paths (p ∷ ps) = insert_path p (sort_paths ps)

-- `writeUInt32LE`.
unfoldable pub uint32_le : ℕ → List ℕ
uint32_le n = n % 256 ∷ (n / 256) % 256 ∷ (n / 65536) % 256 ∷ (n / 16777216) % 256 ∷ []

module _ (sha256 : List ℕ → List ℕ) (utf8 : String → List ℕ) where
  unfoldable pub length_prefixed : String → List ℕ
  unfolding uint32_le
  length_prefixed s = uint32_le (length (utf8 s)) ++ utf8 s

  -- `entries[path]` is there for each of the sorted keys.
  unfoldable pub leaf_of : Map ManifestFileEntry → String → List ℕ
  unfolding length_prefixed hash_leaf
  leaf_of entries path = elim (get entries path) [
    | none ↦ []
    | some entry ↦
        hash_leaf sha256
          (length_prefixed path ++ (length_prefixed entry.cid ++ length_prefixed entry.hash))
  ]

  unfoldable pub compute_data_merkle_root : Map ManifestFileEntry → List ℕ
  unfolding sort_paths leaf_of build_merkle_root
  compute_data_merkle_root entries =
      build_merkle_root sha256 (map (leaf_of entries) (sort_paths (keys entries)))

  unfoldable pub sum_bytes : List ManifestFileEntry → ℕ
  sum_bytes [] = 0
  sum_bytes (e ∷ es) = e.size_bytes + sum_bytes es

  unfoldable pub build_manifest :
      String
      → Map ManifestFileEntry
      → Option String
      → Option SemanticDigest
      → String
      → SnapshotManifest
  unfolding compute_data_merkle_root sum_bytes
  build_manifest agent_id entries parent_cid semantic_digest timestamp = record {
    agent_id = agent_id;
    timestamp = timestamp;
    parent_cid = parent_cid;
    files = entries;
    merkle_root = compute_data_merkle_root entries;
    total_bytes = sum_bytes (values entries);
    file_count = length (values entries);
    semantic_digest = semantic_digest;
  }
