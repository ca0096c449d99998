-- ===== src/Recovery/Chain.antt =====
-- packages/soul/src/recovery/chain-resolver.ts: the manifests behind a manifest, oldest first, by
-- their parent CIDs. The loop takes fuel; `out_of_fuel` is no error of the program.
pub mod Lineage
use claw_mem.Prelude.{
  if◌then◌else◌, includes, Result, ok, err, ◌>>=◌, ℕ, zero, suc, String, Option, none, some, List,
  [], ◌∷◌, ◌==◌,
}
use claw_mem.Backup.Types.{SnapshotManifest}

pub data ChainError : Type 0 where
  circular_parent_cid unavailable : String → ChainError
  out_of_fuel : ChainError

-- `ipfs.catManifest(cid)`, which may throw.
unfoldable pub fetch :
    (String → Option SnapshotManifest) → String → Result ChainError SnapshotManifest
fetch cat cid = elim (cat cid) [ none ↦ err (unavailable cid) | some m ↦ ok m ]

-- `while (currentCid)`, with `visited` and `chain`. An empty text ends the loop as null does.
unfoldable pub follow :
    (String → Option SnapshotManifest)
    → ℕ
    → List String
    → List SnapshotManifest
    → Option String
    → Result ChainError (List SnapshotManifest)
unfolding fetch
follow cat fuel visited chain none = ok chain
follow cat zero visited chain (some cid) = err out_of_fuel
follow cat (suc fuel) visited chain (some cid) =
    if cid == ""
    then ok chain
    else if includes visited cid
    then err (circular_parent_cid cid)
    else fetch cat cid >>= λ m. follow cat fuel (cid ∷ visited) (m ∷ chain) m.parent_cid

unfoldable pub resolve_chain_from_cid :
    (String → Option SnapshotManifest) → ℕ → String → Result ChainError (List SnapshotManifest)
unfolding follow
resolve_chain_from_cid cat fuel cid = follow cat fuel [] [] (some cid)
