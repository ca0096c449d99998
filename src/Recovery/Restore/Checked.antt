-- ===== src/Recovery/Restore/Checked.antt =====
-- What holds of a restore that is not refused, and of one that is.
use claw_mem.Prelude.{
  Bool-cases, All, ok, err, ℕ, ◌+◌, String, ◌≡◌, inl, inr, true, false, some, List, [], ◌∷◌, arith,
  ◌==◌, eq_iff, Option-cases, Result, refl, ap, ◌||◌, Option, none, guard, >>=-eq_ok, subst, Bool,
  not, ◌&&◌, length, ◌∙◌, Result-cases,
}
use claw_mem.Recovery.Chain.{resolve_chain_from_cid}
use claw_mem.Recovery.Integrity.{verify_manifest_merkle_root, verify_on_chain_anchor}
use claw_mem.Recovery.Download.{apply_manifest_chain}
use claw_mem.Recovery.Restore.{
  RestoreEnv, check_anchor, verify_roots, SnapshotManifest, OnChainBackup, AnchorCheck,
  check_latest, zero_bytes32, latest_of, last_of, is_blank, has_encrypted, check_chain,
  password_required, check_all, apply_checked, restore_from_manifest_cid, Disk, RecoveryResult,
  RestoreError,
}

module _ (env : RestoreEnv) where
  abbrev pub RootVerified : SnapshotManifest → Type 0
  RootVerified m = verify_manifest_merkle_root env.sha256 env.utf8 env.sha256_hex m ≡ true

  -- The registry's latest backup of the manifest's agent is this manifest, and has its root.
  abbrev pub IsAnchored : String → SnapshotManifest → Type 0
  IsAnchored cid latest =
      (get_latest_backup : String → Result String OnChainBackup) × (b : OnChainBackup)
      × (env.latest_backup ≡ some get_latest_backup)
      × (get_latest_backup latest.agent_id ≡ ok b)
      × (b.manifest_cid ≡ env.cid_to_bytes32 cid)
      × (verify_on_chain_anchor latest.merkle_root b.data_merkle_root ≡ true)

  verify_roots-ok :
      (i : ℕ) (ms : List SnapshotManifest) → verify_roots env i ms ≡ ok tt → All RootVerified ms
  unfolding verify_roots
  verify_roots-ok i [] e = tt
  verify_roots-ok i (m ∷ ms) e =
      elim (Bool-cases (verify_manifest_merkle_root env.sha256 env.utf8 env.sha256_hex m)) [
        | inl h ↦ (h, verify_roots-ok (i + 1) ms (rw (h, verify_roots) at e))
        | inr h ↦ cc (rw (h, verify_roots) at e)
      ]

  check_latest-ok :
      (cid : String) (latest : SnapshotManifest) (answer : Result String OnChainBackup)
      (check : AnchorCheck)
      → check_latest env cid latest answer ≡ ok check
      → check.passed ≡ true
      → (b : OnChainBackup) × (answer ≡ ok b)
        × (b.manifest_cid ≡ env.cid_to_bytes32 cid)
        × (verify_on_chain_anchor latest.merkle_root b.data_merkle_root ≡ true)
  unfolding check_latest
  check_latest-ok cid latest (err x) check e p = absurd (ground arith)
  check_latest-ok cid latest (ok b) check e p =
      let both : (b.manifest_cid ≡ env.cid_to_bytes32 cid)
          × (verify_on_chain_anchor latest.merkle_root b.data_merkle_root ≡ true) =
        ground (arith, eq_iff b.manifest_cid (env.cid_to_bytes32 cid)) in
      (b, refl, both.0, both.1)

  check_anchor-ok :
      (cid : String) (latest : SnapshotManifest) (o : Option (String → Result String OnChainBackup))
      (check : AnchorCheck)
      → check_anchor env cid latest o ≡ ok check
      → check.passed ≡ true
      → (get_latest_backup : String → Result String OnChainBackup) × (b : OnChainBackup) × (o
          ≡ some get_latest_backup)
        × (get_latest_backup latest.agent_id ≡ ok b)
        × (b.manifest_cid ≡ env.cid_to_bytes32 cid)
        × (verify_on_chain_anchor latest.merkle_root b.data_merkle_root ≡ true)
  unfolding check_anchor
  check_anchor-ok cid latest none check e p = absurd (ground arith)
  check_anchor-ok cid latest (some ask) check e p =
      elim (Bool-cases ((latest.agent_id == "") || (latest.agent_id == zero_bytes32))) [
        | inl h ↦ absurd (ground arith)
        | inr h ↦
            let (b, a, c, d) =
              check_latest-ok cid latest (ask latest.agent_id) check (rw (h, check_anchor) at e)
                p in
            (ask, b, refl, a, c, d)
      ]

  latest_of-ok :
      (chain : List SnapshotManifest) (latest : SnapshotManifest)
      → latest_of chain ≡ ok latest
      → last_of chain ≡ some latest
  unfolding latest_of
  latest_of-ok chain latest e = elim (Option-cases (last_of chain)) [
    | inl h ↦ cc (rw (h, latest_of) at e)
    | inr (m, h) ↦ cc (h, rw (h, latest_of) at e)
  ]

  abbrev Checked :
      ℕ → String → String → List SnapshotManifest → SnapshotManifest → AnchorCheck → Type 0
  Checked fuel cid key chain latest check =
      (resolve_chain_from_cid env.cat_manifest fuel cid ≡ ok chain)
      × All RootVerified chain
      × (last_of chain ≡ some latest)
      × (is_blank key ≡ true → has_encrypted latest ≡ false)
      × (check.passed ≡ true → IsAnchored cid latest)

  check_chain-ok :
      (cid key : String) (ms chain : List SnapshotManifest) (latest : SnapshotManifest)
      (check : AnchorCheck)
      → check_chain env cid key ms ≡ ok (chain, latest, check)
      → (ms ≡ chain)
        × All RootVerified chain
        × (last_of chain ≡ some latest)
        × (is_blank key ≡ true → has_encrypted latest ≡ false)
        × (check.passed ≡ true → IsAnchored cid latest)
  unfolding check_chain
  check_chain-ok cid key ms chain latest check e =
      let (_, roots, e) = >>=-eq_ok (verify_roots env 0 ms) _ e in
      let (m, last, e) = >>=-eq_ok (latest_of ms) _ e in
      let (_, allowed, e) =
        >>=-eq_ok (guard (not (has_encrypted m && is_blank key)) password_required) _ e in
      let (c, anchored, e) = >>=-eq_ok (check_anchor env cid m env.latest_backup) _ e in
      let same : ms ≡ chain = cc e in
      let same_m : m ≡ latest = cc e in
      let same_c : c ≡ check = cc e in
      (
        same,
        subst (All RootVerified) same (verify_roots-ok 0 ms roots),
        cc (latest_of-ok ms m last, same, same_m),
        λ blank. ground arith,
        λ p. check_anchor-ok cid latest env.latest_backup check (cc (anchored, same_m, same_c)) p,
      )

  check_all-ok :
      (fuel : ℕ) (cid key : String) (chain : List SnapshotManifest) (latest : SnapshotManifest)
      (check : AnchorCheck)
      → check_all env fuel cid key ≡ ok (chain, latest, check)
      → Checked fuel cid key chain latest check
  unfolding check_all
  check_all-ok fuel cid key chain latest check e =
      elim (Result-cases (resolve_chain_from_cid env.cat_manifest fuel cid)) [
        | inr (x, h) ↦ cc (rw (h, check_all) at e)
        | inl (ms, h) ↦
            let (same, roots, last, allowed, anchored) =
              check_chain-ok cid key ms chain latest check (rw (h, check_all) at e) in
            (h ∙ ap ok same, roots, last, allowed, anchored)
      ]

  -- A chain with a latest manifest is applied to its end.
  apply_checked-ok :
      (cid target key : String) (is_password : Bool) (chain : List SnapshotManifest)
      (latest : SnapshotManifest) (check : AnchorCheck) (disk : Disk)
      → last_of chain ≡ some latest
      → (r : RecoveryResult) × ((apply_checked env cid target key is_password
            (chain, latest, check)
            disk).0
          ≡ ok r)
        × (r.anchor_check ≡ check)
        × (r.backups_applied ≡ length chain)
  unfolding apply_checked apply_manifest_chain
  apply_checked-ok cid target key is_password chain latest check disk last =
      rw (last, apply_checked, apply_manifest_chain) (_, refl, refl, refl)

  -- A restore that returns has resolved the chain of the requested manifest and recomputed the root
  -- of each of its manifests; an encrypted latest manifest had a key that is not blank; and where the
  -- anchor check passed, the registry's latest backup of the latest manifest's agent is the requested manifest, with its root.
  pub restore_from_manifest_cid-ok :
      (fuel : ℕ) (cid target key : String) (is_password : Bool) (disk : Disk) (r : RecoveryResult)
      → (restore_from_manifest_cid env fuel cid target key is_password disk).0 ≡ ok r
      → (chain : List SnapshotManifest) × (latest : SnapshotManifest) × (resolve_chain_from_cid
            env.cat_manifest fuel cid
          ≡ ok chain)
        × All RootVerified chain
        × (last_of chain ≡ some latest)
        × (is_blank key ≡ true → has_encrypted latest ≡ false)
        × (r.anchor_check.passed ≡ true → IsAnchored cid latest)
        × (r.backups_applied ≡ length chain)
  unfolding restore_from_manifest_cid
  restore_from_manifest_cid-ok fuel cid target key is_password disk r e =
      elim (Result-cases (check_all env fuel cid key)) [
        | inr (x, h) ↦ cc (rw (h, restore_from_manifest_cid) at e)
        | inl ((chain, latest, check), h) ↦
            let (resolved, roots, last, allowed, anchored) =
              check_all-ok fuel cid key chain latest check h in
            let (q, f, c, n) =
              apply_checked-ok cid target key is_password chain latest check disk last in
            let same : q ≡ r = cc (f, rw (h, restore_from_manifest_cid) at e) in
            (
              chain,
              latest,
              resolved,
              roots,
              last,
              allowed,
              λ p. anchored (
                  cc (
                    ap (λ (x : RecoveryResult). x.anchor_check.passed) same,
                    ap (λ (x : AnchorCheck). x.passed) c,
                    p,
                  )),
              cc (ap (λ (x : RecoveryResult). x.backups_applied) same, n),
            )
      ]

  -- A restore that is refused has written nothing.
  pub restore_from_manifest_cid-err :
      (fuel : ℕ) (cid target key : String) (is_password : Bool) (disk : Disk) (x : RestoreError)
      → (restore_from_manifest_cid env fuel cid target key is_password disk).0 ≡ err x
      → (restore_from_manifest_cid env fuel cid target key is_password disk).1 ≡ disk
  unfolding restore_from_manifest_cid
  restore_from_manifest_cid-err fuel cid target key is_password disk x e =
      elim (Result-cases (check_all env fuel cid key)) [
        | inr (y, h) ↦ rw (h, restore_from_manifest_cid) refl
        | inl ((chain, latest, check), h) ↦
            let (_, _, last, _, _) = check_all-ok fuel cid key chain latest check h in
            let (q, f, _, _) =
              apply_checked-ok cid target key is_password chain latest check disk last in
            cc (f, rw (h, restore_from_manifest_cid) at e)
      ]
