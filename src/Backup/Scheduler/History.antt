-- ===== src/Backup/Scheduler/History.antt =====
-- Any history of backups and restarts of the process, and what the recovery makes of it.
use claw_mem.Prelude.{
  length, ok, suc, ◌≤◌, String, ◌≡◌, refl, ap, ◌∙◌, Bool, false, none, some, List, [], ◌∷◌, ◌++◌,
  arith, ◌==◌,
}
use claw_mem.Backup.Scheduler.{Library, run_backup, CocBackupConfig, SnapshotManifest}
use claw_mem.Backup.Scheduler.Parts.{System, RunEnv, Scheduler}
use claw_mem.Backup.Scheduler.Chain.{Inv}
use claw_mem.Backup.Scheduler.Keeps.{Good, run_backup-Good, Good-refl}
use claw_mem.Recovery.Chain.Lineage.{CollisionFree, StartsFull, resolve_chain-Rooted}
use claw_mem.Backup.Anchor.{read_backup_state, cat_manifest}
use claw_mem.Recovery.Chain.{resolve_chain_from_cid}

-- A run of a backup with the answers that it meets, or a new process: the scheduler is lost, what
-- lies outside stays.
pub data Event : Type 0 where
  backed_up : RunEnv → Bool → Event
  restarted : Event

abbrev pub new_scheduler : Scheduler
new_scheduler = record {
  timer = none;
  running = false;
  last_manifest = none;
  incremental_count = 0;
  last_manifest_cid = none;
  consecutive_failures = 0;
  initialized = false;
}

abbrev pub new_system : System
new_system = record {
  scheduler = new_scheduler;
  outside = record { manifests = []; calls = []; state_file = none };
}

module _ (lib : Library) (cfg : CocBackupConfig) where
  unfoldable pub happen : Event → System → System
  unfolding run_backup
  happen (backed_up env force) s = (run_backup lib cfg env force s).1
  happen restarted s = record s { scheduler = new_scheduler }

  unfoldable pub replay : List Event → System → System
  unfolding happen
  replay [] s = s
  replay (e ∷ es) s = replay es (happen e s)

  restarted-Inv :
      (s : System) → Inv lib cfg s → Inv lib cfg (record s { scheduler = new_scheduler })
  restarted-Inv s v = record { at_hand = λ m e. cc; on_disk = v.on_disk; unstarted = λ e. refl }

  happen-Good : (e : Event) (s : System) → Good lib cfg s (happen e s)
  unfolding happen
  happen-Good (backed_up env force) s = run_backup-Good lib cfg env force s
  happen-Good restarted s = λ c. (c, restarted-Inv s)

  replay-Good : (es : List Event) (s : System) → Good lib cfg s (replay es s)
  unfolding replay
  replay-Good [] s = Good-refl lib cfg s
  replay-Good (e ∷ es) s = λ c.
      let (d, k) = replay-Good es (happen e s) c in
      let (d', k') = happen-Good e s d in (d', λ v. k (k' v))

  new-Inv : Inv lib cfg new_system
  unfolding read_backup_state
  new-Inv = record { at_hand = λ m e. cc; on_disk = λ cid e. cc; unstarted = λ e. refl }

  replay-Inv :
      (es : List Event)
      → CollisionFree lib.cid_of (replay es new_system).outside.manifests
      → Inv lib cfg (replay es new_system)
  replay-Inv es c = (replay-Good es new_system c).1 new-Inv

  module _ (cid_ne : (m : SnapshotManifest) → (lib.cid_of m == "") ≡ false) where
    -- After any history of backups that succeed, fail at any point or are skipped, and of restarts,
    -- in which no two manifests share a CID: from the CID that the state file names, the recovery
    -- returns a chain that begins with a full backup, ends with a manifest of that CID and has as
    -- many incremental backups as the state file counts, which are no more than are allowed.
    pub replay-resolves :
        (es : List Event)
        → let s = replay es new_system in
          CollisionFree lib.cid_of s.outside.manifests
          → (cid : String) → (read_backup_state s.outside.state_file).last_manifest_cid ≡ some cid
          → (m : SnapshotManifest) × (older : List SnapshotManifest) × (cid ≡ lib.cid_of m)
            × (resolve_chain_from_cid
                  (cat_manifest lib.cid_of s.outside.manifests)
                  (suc cfg.max_incremental_chain)
                  cid
                ≡ ok (older ++ (m ∷ [])))
            × (length older ≡ (read_backup_state s.outside.state_file).incremental_count)
            × (length older ≤ cfg.max_incremental_chain)
            × StartsFull (older ++ (m ∷ []))
    replay-resolves es c cid e =
        let s = replay es new_system in
        let (m, same, r, b) = (replay-Inv es c).on_disk cid e in
        let (older, resolved, n, starts) =
          resolve_chain-Rooted lib.cid_of cid_ne s.outside.manifests (suc cfg.max_incremental_chain)
            r (omega (arith, b)) in
        (
          m,
          older,
          same,
          ap
                (resolve_chain_from_cid (cat_manifest lib.cid_of s.outside.manifests)
                  (suc cfg.max_incremental_chain))
                same
              ∙ resolved,
          n,
          omega (arith, n, b),
          starts,
        )

    -- The same holds of the manifest that the scheduler builds the next backup on.
    pub replay-resolves_last :
        (es : List Event)
        → let s = replay es new_system in
          CollisionFree lib.cid_of s.outside.manifests
          → (m : SnapshotManifest) → s.scheduler.last_manifest ≡ some m
          → (older : List SnapshotManifest) × (s.scheduler.last_manifest_cid ≡ some (lib.cid_of m))
            × (resolve_chain_from_cid
                  (cat_manifest lib.cid_of s.outside.manifests)
                  (suc cfg.max_incremental_chain)
                  (lib.cid_of m)
                ≡ ok (older ++ (m ∷ [])))
            × (length older ≡ s.scheduler.incremental_count)
            × (length older ≤ cfg.max_incremental_chain)
            × StartsFull (older ++ (m ∷ []))
    replay-resolves_last es c m e =
        let s = replay es new_system in
        let (cid, r, b) = (replay-Inv es c).at_hand m e in
        let (older, resolved, n, starts) =
          resolve_chain-Rooted lib.cid_of cid_ne s.outside.manifests (suc cfg.max_incremental_chain)
            r (omega (arith, b)) in
        (older, cid, resolved, n, omega (arith, n, b), starts)
