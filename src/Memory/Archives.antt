-- ===== src/Memory/Archives.antt =====
-- packages/claw-mem/src/db/archive-store.ts: `ArchiveStore`, the table of the backups that were made.
-- Times are in milliseconds; the id of a new row is the next one of the table, and the content
-- identifier is UNIQUE, so that the insertion of one that is there fails. The database's own order of
-- rows of the same second is that of the `Sorter`.
pub mod Rows
pub mod Kept
mod Tests
use claw_mem.Prelude.{
  if◌then◌else◌, take, keep_if, any_of, count, ltb, eqb, not, ◌&&◌, ℕ, zero, suc, ◌+◌, ◌/◌, String,
  Bool, true, false, Option, none, some, List, [], ◌∷◌, ◌++◌, map, ◌==◌, Result, ok, err, length,
  ◌||◌,
}
use Prim.Native.String.{◌++◌ as concat}
use claw_mem.Memory.Sql.{Sorter}

pub data BackupType : Type 0 where
  full_backup : BackupType
  incremental_backup : BackupType

pub record BackupArchive : Type 0 where
  pub id : ℕ
  pub agent_id : String
  pub manifest_cid : String
  pub backup_type : BackupType
  pub file_count : ℕ
  pub total_bytes : ℕ
  pub data_merkle_root : String
  pub tx_hash : Option String
  pub anchored_at : Option String
  pub anchored_at_epoch : Option ℕ
  pub semantic_snapshot_included : Bool
  pub parent_cid : Option String
  pub created_at : String
  pub created_at_epoch : ℕ

pub record BackupArchiveInput : Type 0 where
  pub agent_id : String
  pub manifest_cid : String
  pub backup_type : BackupType
  pub file_count : ℕ
  pub total_bytes : ℕ
  pub data_merkle_root : String
  pub tx_hash : Option String
  pub anchored_at : Option String
  pub semantic_snapshot_included : Bool
  pub parent_cid : Option String

pub record Archives : Type 0 where
  pub rows : List BackupArchive
  pub next_id : ℕ

unfoldable pub get_by_cid : String → List BackupArchive → Option BackupArchive
get_by_cid cid [] = none
get_by_cid cid (r ∷ rows) =
    let rest = get_by_cid cid rows in if r.manifest_cid == cid then some r else rest

-- An empty date is none.
abbrev pub epoch_of : (String → ℕ) → Option String → Option ℕ
epoch_of parse none = none
epoch_of parse (some t) = if t == "" then none else some (parse t / 1000)

abbrev pub archive_row : (String → ℕ) → (ℕ → String) → ℕ → ℕ → BackupArchiveInput → BackupArchive
archive_row parse iso now id i = record {
  id = id;
  agent_id = i.agent_id;
  manifest_cid = i.manifest_cid;
  backup_type = i.backup_type;
  file_count = i.file_count;
  total_bytes = i.total_bytes;
  data_merkle_root = i.data_merkle_root;
  tx_hash = i.tx_hash;
  anchored_at = i.anchored_at;
  anchored_at_epoch = epoch_of parse i.anchored_at;
  semantic_snapshot_included = i.semantic_snapshot_included;
  parent_cid = i.parent_cid;
  created_at = iso now;
  created_at_epoch = now / 1000;
}

-- The row is read back by its content identifier.
unfoldable pub insert_archive :
    (String → ℕ)
    → (ℕ → String)
    → ℕ
    → BackupArchiveInput
    → Archives
    → Result String BackupArchive × Archives
unfolding get_by_cid
insert_archive parse iso now i db =
    let rows = db.rows ++ (archive_row parse iso now db.next_id i ∷ []) in
    if any_of (λ r. r.manifest_cid == i.manifest_cid) db.rows
    then (err "UNIQUE constraint failed: backup_archives.manifest_cid", db)
    else (
      elim (get_by_cid i.manifest_cid rows) [
        | none ↦ err (concat "Failed to insert archive " i.manifest_cid)
        | some row ↦ ok row
      ],
      record { rows = rows; next_id = db.next_id + 1 },
    )

abbrev pub is_of : String → BackupArchive → Bool
is_of agent r = r.agent_id == agent

-- `ORDER BY created_at_epoch DESC, id DESC`: by the second, the rows ordered by their ids.
abbrev pub latest_first : Sorter → List BackupArchive → List BackupArchive
latest_first order rows =
    order.descending (λ r. r.created_at_epoch) (order.descending (λ r. r.id) rows)

unfoldable pub list_by_agent : Sorter → String → ℕ → List BackupArchive → List BackupArchive
list_by_agent order agent limit rows = take limit (latest_first order (keep_if (is_of agent) rows))

unfoldable pub list_all : Sorter → ℕ → List BackupArchive → List BackupArchive
list_all order limit rows = take limit (latest_first order rows)

abbrev first_of : List BackupArchive → Option BackupArchive
first_of [] = none
first_of (r ∷ rows) = some r

unfoldable pub get_latest_by_agent : Sorter → String → List BackupArchive → Option BackupArchive
get_latest_by_agent order agent rows = first_of (latest_first order (keep_if (is_of agent) rows))

pub record PruneOptions : Type 0 where
  pub cutoff_epoch : ℕ
  pub keep_latest : ℕ
  pub agent : Option String
  pub dry_run : Bool

-- An empty name of an agent is none.
abbrev pub is_asked : Option String → BackupArchive → Bool
is_asked none r = true
is_asked (some agent) r = if agent == "" then true else is_of agent r

-- `ROW_NUMBER()`, from one.
abbrev pub row_number : ℕ → List BackupArchive → ℕ
row_number id [] = 1
row_number id (r ∷ rows) = let rest = row_number id rows in if eqb r.id id then 1 else suc rest

module _ (order : Sorter) where
  -- `PARTITION BY agent_id ORDER BY created_at_epoch DESC`, the part of one agent.
  abbrev pub partition : String → List BackupArchive → List BackupArchive
  partition agent rows = order.descending (λ r. r.created_at_epoch) (keep_if (is_of agent) rows)

  abbrev pub is_expired : PruneOptions → List BackupArchive → BackupArchive → Bool
  is_expired opts rows r =
      is_asked opts.agent r
      && ltb r.created_at_epoch opts.cutoff_epoch
      && ltb opts.keep_latest (row_number r.id (partition r.agent_id rows))

  unfoldable pub prune : PruneOptions → Archives → (List BackupArchive × ℕ) × Archives
  prune opts db =
      let candidates = keep_if (is_expired opts db.rows) db.rows in
      let is_picked : BackupArchive → Bool = λ r. any_of (λ c. eqb c.id r.id) candidates in
      if opts.dry_run || eqb (length candidates) 0 then ((candidates, 0), db) else (
        (candidates, count is_picked db.rows),
        record db { rows = keep_if (λ r. not (is_picked r)) db.rows },
      )
