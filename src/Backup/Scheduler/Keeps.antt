-- ===== src/Backup/Scheduler/Keeps.antt =====
-- A run of a backup keeps what is said of the chain, on each of its branches.
use mathlib.Core.Option.{some-injective}
use claw_mem.Prelude.{
  if◌then◌else◌, Bool-cases, Option-cases, Result, ok, if_both, ◌≤◌, ◌<◌, String, ◌≡◌, refl, sym,
  ap, subst, ◌∙◌, ◌⊎◌, inl, inr, Bool, true, false, not, ◌&&◌, Option, none, some, ◌++◌, arith,
  ◌==◌, Result-cases,
}
use claw_mem.Backup.Scheduler.Chain
use claw_mem.Backup.Scheduler.{
  Library, changed_files, commit_backup, hydrate, build_backup, ensure_initialized, is_full_backup,
  new_manifest, execute_backup, changed_backup, backup_changes, run_backup, finish, previous_of,
  SnapshotManifest, ChangeSet, in_progress, UploadResult, upload_files, Task, BackupReceipt,
  is_empty, detect_changes, pure, receipt_of, send_heartbeat,
}
use claw_mem.Backup.Scheduler.Parts.{System, RunEnv}
use claw_mem.Backup.Scan.{CocBackupConfig, scan_files}
use claw_mem.Backup.Anchor.{read_backup_state, cat_manifest, zero_bytes32}
use claw_mem.Recovery.Chain.Lineage.{CollisionFree, Rooted, Rooted-IsStored}

module _ (lib : Library) (cfg : CocBackupConfig) where
  -- If the store afterwards is free of collisions, so it was before, and the invariant is kept.
  abbrev pub Good : System → System → Type 0
  Good s t =
      CollisionFree lib.cid_of t.outside.manifests
      → CollisionFree lib.cid_of s.outside.manifests × (Chain.Inv lib cfg s → Chain.Inv lib cfg t)

  pub Good-refl : (s : System) → Good s s
  Good-refl s c = (c, λ v. v)

  commit-Good :
      (env : RunEnv) (whole : Bool) (agent_id : String) (x : SnapshotManifest) (s : System)
      → s.scheduler.initialized ≡ true
      → (Chain.Inv lib cfg s → Chain.Fits lib cfg s whole x)
      → Good s (commit_backup lib cfg env whole agent_id x s).1
  unfolding commit_backup read_backup_state
  commit-Good env whole agent_id x s h f = elim (Result-cases env.anchor.add_manifest) [
    | inr (_, e) ↦ rw e (Good-refl s)
    | inl (_, e) ↦ elim (Result-cases env.anchor.anchor_backup) [
      | inr (_, e') ↦ rw (e, e') (λ c. (c.1, λ v. Chain.added-Inv lib cfg x s v c.0))
      | inl (tx, e') ↦ elim (Result-cases env.write_package) [
        | inr (_, p) ↦
            rw (e, e', p)
              (λ c. (
                c.1,
                λ v.
                    Chain.moved-Inv lib cfg x s whole _ v c.0 (f v) h refl refl refl refl
                      (inl refl),
              ))
        | inl (path, p) ↦ elim (Result-cases env.write_state) [
          | inr (_, w) ↦
              rw (e, e', p, w)
                (λ c. (
                  c.1,
                  λ v.
                      Chain.moved-Inv lib cfg x s whole _ v c.0 (f v) h refl refl refl refl
                        (inl refl),
                ))
          | inl (_, w) ↦
              rw (e, e', p, w)
                (λ c. (
                  c.1,
                  λ v.
                      Chain.moved-Inv lib cfg x s whole _ v c.0 (f v) h refl refl refl refl
                        (inr (refl, refl)),
                ))
        ]
      ]
    ]
  ]

  hydrate-initialized : (up : Bool) (s : System) → (hydrate lib cfg up s).initialized ≡ true
  unfolding hydrate
  hydrate-initialized up s = ground arith

  if_some {ℓ} :
      {A : Type ℓ} (b : Bool) (o : Option A) (a : A) → (if b then o else none) ≡ some a → o ≡ some a
  if_some true o a e = e
  if_some false o a e = cc

  hydrate-Inv :
      (up : Bool) (s : System)
      → Chain.Inv lib cfg s
      → s.scheduler.last_manifest ≡ none
      → Chain.Inv lib cfg (record s { scheduler = hydrate lib cfg up s })
  unfolding hydrate
  hydrate-Inv up s v n =
      elim (Option-cases (read_backup_state s.outside.state_file).last_manifest_cid) [
        | inl e ↦
            rw (e, hydrate)
              (record { unstarted = λ i. n; at_hand = λ m h. cc (n, h); on_disk = v.on_disk })
        | inr (cid, e) ↦
            elim (Option-cases
              (if up then cat_manifest lib.cid_of s.outside.manifests cid else none)) [
                | inl c ↦
                    rw (e, c, hydrate)
                      (record { unstarted = λ i. refl; at_hand = λ m h. cc h; on_disk = v.on_disk })
                | inr (m, c) ↦
                    rw (e, c, hydrate)
                      (record {
                        unstarted = λ i. cc i;
                        at_hand = λ x h. found cid m e (if_some up _ m c) x (cc h);
                        on_disk = v.on_disk;
                      })
              ]
      ]
    where
      found :
          (cid : String) (m : SnapshotManifest)
          → (read_backup_state s.outside.state_file).last_manifest_cid ≡ some cid
          → cat_manifest lib.cid_of s.outside.manifests cid ≡ some m
          → (x : SnapshotManifest) → m ≡ x
          → ((read_backup_state s.outside.state_file).last_manifest_cid ≡ some (lib.cid_of x))
            × Rooted lib.cid_of s.outside.manifests x
                (read_backup_state s.outside.state_file).incremental_count
            × ((read_backup_state s.outside.state_file).incremental_count
                ≤ cfg.max_incremental_chain)
      found cid m e c x h =
          let (y, cy, r, b) = v.on_disk cid e in
          let yx : y ≡ x = some-injective y x (
            sym (Rooted-IsStored lib.cid_of r)
            ∙ (ap (cat_manifest lib.cid_of s.outside.manifests) (sym cy) ∙ (c ∙ ap some h))) in
          (
            e ∙ ap some (cy ∙ ap lib.cid_of yx),
            subst
                (λ z.
                  Rooted lib.cid_of s.outside.manifests z
                    (read_backup_state s.outside.state_file).incremental_count)
                yx r,
            b,
          )

  ensure-Inv :
      (up : Bool) (s : System)
      → Chain.Inv lib cfg s
      → Chain.Inv lib cfg (ensure_initialized lib cfg up s)
        × ((ensure_initialized lib cfg up s).scheduler.initialized ≡ true)
  unfolding ensure_initialized
  ensure-Inv up s v =
      if_both (λ t. Chain.Inv lib cfg t × (t.scheduler.initialized ≡ true)) s.scheduler.initialized
        _ _ (λ e. (v, e)) λ e. (hydrate-Inv up s v (v.unstarted e), hydrate-initialized up s)

  abbrev Starts : System → Bool → Type 0
  Starts s whole =
      (whole ≡ true)
      ⊎ ((m : SnapshotManifest) × (whole ≡ false)
          × (s.scheduler.last_manifest ≡ some m)
          × (s.scheduler.incremental_count < cfg.max_incremental_chain))

  new-Fits :
      (env : RunEnv) (whole : Bool) (agent_id : String) (changes : ChangeSet) (u : UploadResult)
      (s : System)
      → Chain.Inv lib cfg s
      → Starts s whole
      → Chain.Fits lib cfg s whole (new_manifest lib cfg env whole agent_id changes u s.scheduler)
  unfolding new_manifest
  new-Fits env whole agent_id changes u s v (inl w) =
      inl (w, ap (λ (b : Bool). if b then none else s.scheduler.last_manifest_cid) w)
  new-Fits env whole agent_id changes u s v (inr (m, w, e, l)) = inr (
    m,
    w,
    ap (λ (b : Bool). if b then none else s.scheduler.last_manifest_cid) w ∙ (v.at_hand m e).0,
    e,
    l,
  )

  build-Good :
      (env : RunEnv) (whole : Bool) (agent_id : String) (changes : ChangeSet) (s : System)
      → s.scheduler.initialized ≡ true
      → Starts s whole
      → Good s (build_backup lib cfg env whole agent_id changes s).1
  unfolding build_backup
  build-Good env whole agent_id changes s h d =
      elim (Result-cases (
        upload_files env.upload cfg.private_key cfg.encryption_password
          (changes.added ++ changes.modified))) [
            | inr (_, e) ↦ rw e (Good-refl s)
            | inl (u, e) ↦ rw e (
                commit-Good env whole agent_id _ s h
                  (λ v. new-Fits env whole agent_id changes u s v d))
          ]

  starts : (force : Bool) (s : System) → Starts s (is_full_backup lib cfg force s.scheduler)
  unfolding is_full_backup
  starts force s = elim (Bool-cases (is_full_backup lib cfg force s.scheduler)) [
    | inl e ↦ inl e
    | inr e ↦ elim (Option-cases s.scheduler.last_manifest) [
      | inl n ↦ absurd (ground arith)
      | inr (m, n) ↦ inr (m, e, n, ground arith)
    ]
  ]

  changes-Good :
      (env : RunEnv) (whole : Bool) (agent_id : String) (changes : ChangeSet) (s : System)
      → s.scheduler.initialized ≡ true
      → Starts s whole
      → Good s (backup_changes lib cfg env whole agent_id changes s).1
  unfolding backup_changes
  changes-Good env whole agent_id changes s h d =
      if_both (λ (t : Task System BackupReceipt). Good s (t s).1)
        (is_empty (changed_files changes) && (is_empty changes.deleted && not whole))
        (pure (receipt_of (send_heartbeat env.resurrection_configured env.heartbeat) none))
        (build_backup lib cfg env whole agent_id changes) (λ _. Good-refl s)
        (λ _. build-Good env whole agent_id changes s h d)

  changed-Good :
      (env : RunEnv) (force : Bool) (agent_id : String) (s : System)
      → s.scheduler.initialized ≡ true
      → Good s (changed_backup lib cfg env force agent_id s).1
  unfolding changed_backup
  changed-Good env force agent_id s h =
      elim (Result-cases (scan_files env.upload.sha256_hex lib.base_dir cfg env.tree)) [
        | inr (_, e) ↦ rw e (Good-refl s)
        | inl (current, e) ↦ rw e (
            changes-Good env (is_full_backup lib cfg force s.scheduler) agent_id
              (detect_changes current
                (previous_of lib cfg (is_full_backup lib cfg force s.scheduler) s.scheduler))
              s h (starts force s))
      ]

  execute-Good :
      (env : RunEnv) (force : Bool) (s : System)
      → s.scheduler.initialized ≡ true
      → Good s (execute_backup lib cfg env force s).1
  unfolding execute_backup new_manifest
  execute-Good env force s h = elim (Result-cases env.agent_id) [
    | inr (_, e) ↦ rw e (Good-refl s)
    | inl (agent, e) ↦ rw e (
        if_both (λ (t : Task System BackupReceipt). Good s (t s).1) (agent == zero_bytes32) _ _
          (λ _. Good-refl s) λ _. changed-Good env force agent s h)
  ]

  marked-Inv :
      (b : Bool) (s : System)
      → Chain.Inv lib cfg s
      → Chain.Inv lib cfg (record s { scheduler = record s.scheduler { running = b } })
  marked-Inv b s v = record { at_hand = v.at_hand; on_disk = v.on_disk; unstarted = v.unstarted }

  ensure_outside : (up : Bool) (s : System) → (ensure_initialized lib cfg up s).outside ≡ s.outside
  unfolding ensure_initialized
  ensure_outside up s =
      if_both (λ (t : System). t.outside ≡ s.outside) s.scheduler.initialized _ _ (λ _. refl)
        (λ _. refl)

  ensure-initialized :
      (up : Bool) (s : System) → (ensure_initialized lib cfg up s).scheduler.initialized ≡ true
  unfolding ensure_initialized
  ensure-initialized up s =
      if_both (λ (t : System). t.scheduler.initialized ≡ true) s.scheduler.initialized _ _ (λ e. e)
        (λ _. hydrate-initialized up s)

  started-Good :
      (env : RunEnv) (force : Bool) (s : System)
      → s.scheduler.initialized ≡ true
      → Good s
          (if s.scheduler.running
            then (ok in_progress, s)
            else finish lib cfg (
                execute_backup lib cfg env force
                  (record s { scheduler = record s.scheduler { running = true } }))).1
  started-Good env force s h =
      if_both (λ (t : Result String BackupReceipt × System). Good s t.1) s.scheduler.running _ _
        (λ _. Good-refl s)
        (λ _ c.
          let (d, k) =
            execute-Good env force (record s { scheduler = record s.scheduler { running = true } })
              h c in
          (d, λ v. marked-Inv false _ (k (marked-Inv true s v))))

  -- A run of a backup keeps the invariant, if no two manifests share a CID.
  pub run_backup-Good :
      (env : RunEnv) (force : Bool) (s : System) → Good s (run_backup lib cfg env force s).1
  unfolding run_backup
  run_backup-Good env force s c =
      let (d, k) =
        started-Good env force (ensure_initialized lib cfg env.ipfs_up s)
          (ensure-initialized env.ipfs_up s) c in
      (
        subst (λ o. CollisionFree lib.cid_of o.manifests) (ensure_outside env.ipfs_up s) d,
        λ v. k (ensure-Inv env.ipfs_up s v).0,
      )
