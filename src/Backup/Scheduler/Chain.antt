-- ===== src/Backup/Scheduler/Chain.antt =====
-- Whatever the services answer, what the scheduler and the state file call the last manifest can be
-- followed back to a full backup, over at most `max_incremental_chain` incremental ones.
use claw_mem.Prelude.{
  if◌then◌else◌, ℕ, ◌+◌, ◌≤◌, ◌<◌, String, ◌≡◌, ◌⊎◌, inl, inr, Bool, true, false, none, some, List,
  ◌∷◌, arith, sym, ap, subst, ◌∙◌,
}
use native.Mathlib.Numerals.{add-one}
use claw_mem.Backup.Types.{SnapshotManifest}
use claw_mem.Backup.Scan.{CocBackupConfig}
use claw_mem.Backup.Anchor.{read_backup_state}
use claw_mem.Recovery.Chain.Lineage.{
  Rooted, IsStored-add_self, Rooted-add, full, incremental, Fresh,
}
use claw_mem.Backup.Scheduler.{Library, System}

module _ (lib : Library) (cfg : CocBackupConfig) where
  -- A CID in the store, `n` backups above a full one, and no more than are allowed.
  abbrev pub Resolvable : List SnapshotManifest → String → ℕ → Type 0
  Resolvable store cid n =
      (m : SnapshotManifest) × (cid ≡ lib.cid_of m)
      × Rooted lib.cid_of store m n
      × (n ≤ cfg.max_incremental_chain)

  pub record Inv (s : System) : Type 0 where
    pub at_hand :
        (m : SnapshotManifest)
        → s.scheduler.last_manifest ≡ some m
        → (s.scheduler.last_manifest_cid ≡ some (lib.cid_of m))
          × Rooted lib.cid_of s.outside.manifests m s.scheduler.incremental_count
          × (s.scheduler.incremental_count ≤ cfg.max_incremental_chain)
    pub on_disk :
        (cid : String)
        → (read_backup_state s.outside.state_file).last_manifest_cid ≡ some cid
        → Resolvable s.outside.manifests cid
            (read_backup_state s.outside.state_file).incremental_count
    pub unstarted : s.scheduler.initialized ≡ false → s.scheduler.last_manifest ≡ none

  -- The manifest that a run builds, beside the scheduler that it builds it from.
  abbrev pub Fits : System → Bool → SnapshotManifest → Type 0
  Fits s whole x =
      ((whole ≡ true) × (x.parent_cid ≡ none))
      ⊎ ((m : SnapshotManifest) × (whole ≡ false)
          × (x.parent_cid ≡ some (lib.cid_of m))
          × (s.scheduler.last_manifest ≡ some m)
          × (s.scheduler.incremental_count < cfg.max_incremental_chain))

  abbrev pub added : SnapshotManifest → System → System
  added x s = record s { outside = record s.outside { manifests = x ∷ s.outside.manifests } }

  pub added-Inv :
      (x : SnapshotManifest) (s : System)
      → Inv s
      → Fresh lib.cid_of s.outside.manifests x
      → Inv (added x s)
  added-Inv x s v fresh = record {
    unstarted = v.unstarted;
    at_hand = λ m e. let (c, r, b) = v.at_hand m e in (c, Rooted-add lib.cid_of x fresh r, b);
    on_disk =
        λ cid e. let (m, c, r, b) = v.on_disk cid e in (m, c, Rooted-add lib.cid_of x fresh r, b);
  }

  abbrev pub next_count : System → Bool → ℕ
  next_count s whole = if whole then 0 else s.scheduler.incremental_count + 1

  -- The new manifest is in the store and fits, so it is the next link.
  new-Rooted :
      (x : SnapshotManifest) (s : System) (whole : Bool)
      → Inv s
      → Fresh lib.cid_of s.outside.manifests x
      → Fits s whole x
      → Rooted lib.cid_of (x ∷ s.outside.manifests) x (next_count s whole)
        × (next_count s whole ≤ cfg.max_incremental_chain)
  new-Rooted x s whole v fresh (inl (w, p)) =
      rw w (full (IsStored-add_self lib.cid_of s.outside.manifests x) p, omega arith)
  new-Rooted x s whole v fresh (inr (m, w, p, e, l)) =
      let (c, r, b) = v.at_hand m e in
      rw (w, add-one)
        (
          incremental m (IsStored-add_self lib.cid_of s.outside.manifests x) p
              (Rooted-add lib.cid_of x fresh r),
          omega arith,
        )

  -- A state whose last manifest is the new one, and whose state file is the old or the new one.
  pub moved-Inv :
      (x : SnapshotManifest) (s : System) (whole : Bool) (t : System)
      → Inv s
      → Fresh lib.cid_of s.outside.manifests x
      → Fits s whole x
      → t.scheduler.initialized ≡ true
      → t.scheduler.last_manifest ≡ some x
      → t.scheduler.last_manifest_cid ≡ some (lib.cid_of x)
      → t.scheduler.incremental_count ≡ next_count s whole
      → t.outside.manifests ≡ x ∷ s.outside.manifests
      → (t.outside.state_file ≡ s.outside.state_file)
        ⊎ (((read_backup_state t.outside.state_file).last_manifest_cid ≡ some (lib.cid_of x))
            × ((read_backup_state t.outside.state_file).incremental_count ≡ next_count s whole))
      → Inv t
  moved-Inv x s whole t v fresh f ei em ec en es ed = record {
    unstarted = λ i. cc (ei, i);
    at_hand = λ m e.
        let same : m ≡ x = cc (em, e) in
        let (r, b) = new-Rooted x s whole v fresh f in
        (
          ec ∙ ap (λ m. some (lib.cid_of m)) (sym same),
          subst (λ m. Rooted lib.cid_of t.outside.manifests m t.scheduler.incremental_count)
              (sym same)
              (subst (λ n. Rooted lib.cid_of t.outside.manifests x n) (sym en)
                (subst (λ ms. Rooted lib.cid_of ms x (next_count s whole)) (sym es) r)),
          omega (arith, en, b),
        );
    on_disk = λ cid e. disk cid e ed;
  }
    where
      disk :
          (cid : String)
          → (read_backup_state t.outside.state_file).last_manifest_cid ≡ some cid
          → (t.outside.state_file ≡ s.outside.state_file)
            ⊎ (((read_backup_state t.outside.state_file).last_manifest_cid ≡ some (lib.cid_of x))
                × ((read_backup_state t.outside.state_file).incremental_count ≡ next_count s whole))
          → Resolvable t.outside.manifests cid
              (read_backup_state t.outside.state_file).incremental_count
      disk cid e (inl old) =
          subst (λ ms. Resolvable ms cid (read_backup_state t.outside.state_file).incremental_count)
            (sym es)
            (subst
              (λ o.
                Resolvable (x ∷ s.outside.manifests) cid (read_backup_state o).incremental_count)
              (sym old)
              ((added-Inv x s v fresh).on_disk cid
                (subst (λ o. (read_backup_state o).last_manifest_cid ≡ some cid) old e)))
      disk cid e (inr (c, n)) =
          let (r, b) = new-Rooted x s whole v fresh f in
          subst (λ ms. Resolvable ms cid (read_backup_state t.outside.state_file).incremental_count)
            (sym es)
            (subst (λ k. Resolvable (x ∷ s.outside.manifests) cid k) (sym n) (x, cc (c, e), r, b))
