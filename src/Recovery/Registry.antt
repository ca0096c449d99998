-- ===== src/Recovery/Registry.antt =====
-- `restoreFromChain` of packages/soul/src/recovery/state-restorer.ts: the registry names the digest of
-- a CID, the resolver finds the CID, and the restore is that from the CID.
use claw_mem.Prelude.{
  if◌then◌else◌, eqb, Result, ok, err, guard, >>=-eq_ok, ℕ, String, ◌≡◌, refl, sym, ap, ◌∙◌, inl,
  inr, Bool, not, Option, none, some, ◌==◌, eq_iff, Result-cases, ◌>>=◌, ◌>>◌, guard-ok,
}
use claw_mem.Backup.Types.{OnChainBackup}
use claw_mem.Recovery.Download.{Disk}
use claw_mem.Recovery.Restore.{
  RestoreEnv, RestoreError, RecoveryResult, thrown, restore_from_manifest_cid,
}

pub record SoulInfo : Type 0 where
  pub active : Bool
  pub backup_count : ℕ

-- `cid_resolver` is none where there is no resolver.
pub record RegistryEnv : Type 0 where
  pub get_soul : Result String SoulInfo
  pub get_latest_backup : Result String OnChainBackup
  pub cid_resolver : Option (String → Result String (Option String))
  pub restore : RestoreEnv

unfoldable pub resolve_with :
    Option (String → Result String (Option String)) → String → Result String String
resolve_with none cid_hash = err "On-chain recovery requires a CID resolver"
resolve_with (some resolve) cid_hash = do
  found ← resolve cid_hash
  elim found [
    | none ↦ err "Cannot resolve CID"
    | some cid ↦ if cid == "" then err "Cannot resolve CID" else ok cid
  ]

module _ (env : RegistryEnv) where
  -- The CID of the latest backup of an active soul.
  unfoldable pub latest_cid : Result String String
  unfolding resolve_with
  latest_cid = do
    soul ← env.get_soul
    guard soul.active "Soul is not active or not found"
    guard (not (eqb soul.backup_count 0)) "Soul has no backups"
    latest ← env.get_latest_backup
    cid ← resolve_with env.cid_resolver latest.manifest_cid
    guard (env.restore.cid_to_bytes32 cid == latest.manifest_cid)
        "CID integrity verification failed"
    ok cid

  unfoldable pub restore_from_chain :
      ℕ → String → String → Bool → Disk → Result RestoreError RecoveryResult × Disk
  unfolding latest_cid
  restore_from_chain fuel target key is_password disk = elim latest_cid [
    | err e ↦ (err (thrown e), disk)
    | ok cid ↦ restore_from_manifest_cid env.restore fuel cid target key is_password disk
  ]

  latest_cid-ok :
      (cid : String)
      → latest_cid ≡ ok cid
      → (b : OnChainBackup) × (env.get_latest_backup ≡ ok b)
        × (env.restore.cid_to_bytes32 cid ≡ b.manifest_cid)
  unfolding latest_cid
  latest_cid-ok cid e =
      let (soul, _, e) = >>=-eq_ok env.get_soul _ e in
      let (_, _, e) = >>=-eq_ok (guard soul.active _) _ e in
      let (_, _, e) = >>=-eq_ok (guard (not (eqb soul.backup_count 0)) _) _ e in
      let (b, at, e) = >>=-eq_ok env.get_latest_backup _ e in
      let (found, _, e) = >>=-eq_ok (resolve_with env.cid_resolver b.manifest_cid) _ e in
      let (u, g, e) =
        >>=-eq_ok (guard (env.restore.cid_to_bytes32 found == b.manifest_cid) _) _ e in
      let same : found ≡ cid = cc e in
      (b, at, ap env.restore.cid_to_bytes32 (sym same) ∙ (eq_iff _ _).0 (guard-ok _ _ u g))

  -- A restore from the registry that returns has restored a CID whose digest is that of the
  -- registry's latest backup, as the restore from that CID does.
  pub restore_from_chain-ok :
      (fuel : ℕ) (target key : String) (is_password : Bool) (disk : Disk) (r : RecoveryResult)
      → (restore_from_chain fuel target key is_password disk).0 ≡ ok r
      → (cid : String) × (b : OnChainBackup) × (env.get_latest_backup ≡ ok b)
        × (env.restore.cid_to_bytes32 cid ≡ b.manifest_cid)
        × (restore_from_chain fuel target key is_password disk
            ≡ restore_from_manifest_cid env.restore fuel cid target key is_password disk)
  unfolding restore_from_chain
  restore_from_chain-ok fuel target key is_password disk r e = elim (Result-cases latest_cid) [
    | inr (x, h) ↦ cc (rw (h, restore_from_chain) at e)
    | inl (cid, h) ↦
        let (b, at, same) = latest_cid-ok cid h in
        (cid, b, at, same, rw (h, restore_from_chain) refl)
  ]
