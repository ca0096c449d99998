-- ===== src/Recovery/Resolver.antt =====
-- packages/soul/src/recovery/cid-resolver.ts: from a hash to the CID that has it, over a local index, a
-- map in IPFS and a contract. Files and answers are what they parse to; `cidToBytes32` is a parameter.
pub mod Found
mod Tests
use Prim.Native.String.{◌++◌ as concat}
use claw_mem.Prelude.{
  if◌then◌else◌, get_or, Result, ok, err, ◌>>=◌, ℕ, String, Bool, not, ◌&&◌, ◌||◌, Option, none,
  some, [], ◌==◌,
}
use claw_mem.JsMap

pub record CidMapEntry : Type 0 where
  pub cid_hash : String
  pub cid : String
  pub registered_at : ℕ

-- What the three layers hold, nothing where a file is missing or not of its format and where no contract
-- is configured, and which of them can be used.
pub record Layers : Type 0 where
  pub index : Option (JsMap.Map CidMapEntry)
  pub mfs : Option (JsMap.Map String)
  pub registry : Option (JsMap.Map String)
  pub index_writable : Bool
  pub mfs_writable : Bool
  pub registry_answers : Bool

-- `readLocalIndex`.
abbrev pub read_local_index : Layers → JsMap.Map CidMapEntry
read_local_index s = get_or s.index []

unfoldable pub cache_locally : ℕ → String → String → Layers → Result String (Unit {0}) × Layers
unfolding JsMap.set
cache_locally now cid_hash cid s =
    if s.index_writable
    then (
      ok tt,
      record s {
        index = some (
            JsMap.set (read_local_index s) cid_hash
              (record { cid_hash = cid_hash; cid = cid; registered_at = now }));
      },
    )
    else (err "the index cannot be written", s)

-- `resolveFromMfs`: an empty text is no CID.
abbrev pub resolve_from_mfs : String → Layers → Option String
resolve_from_mfs cid_hash s = elim s.mfs [ none ↦ none | some m ↦ JsMap.get m cid_hash ]

module _ (cid_to_bytes32 : String → String) where
  abbrev pub matches : String → String → Bool
  matches cid_hash cid = cid_to_bytes32 cid == cid_hash

  -- Layer 3, where every error becomes no result, one of the cache too.
  unfoldable pub resolve_on_chain : ℕ → String → Layers → Result String (Option String) × Layers
  unfolding cache_locally JsMap.get
  resolve_on_chain now cid_hash s =
      let cid : Option String = elim s.registry [ none ↦ none | some m ↦ JsMap.get m cid_hash ] in
      let found = get_or cid "" in
      let cached = cache_locally now cid_hash found s in
      if not s.registry_answers || ((found == "") || not (matches cid_hash found))
      then (ok none, s)
      else if s.index_writable
      then (ok (some found), cached.1)
      else (ok none, s)

  -- Layer 2, where an error of the cache is thrown.
  unfoldable pub resolve_remote : ℕ → String → Layers → Result String (Option String) × Layers
  unfolding cache_locally resolve_on_chain JsMap.get
  resolve_remote now cid_hash s =
      let found = get_or (resolve_from_mfs cid_hash s) "" in
      let cached = cache_locally now cid_hash found s in
      let next = resolve_on_chain now cid_hash s in
      if not (found == "") && matches cid_hash found
      then (cached.0 >>= (λ _. ok (some found)), cached.1)
      else next

  unfoldable pub resolve : ℕ → String → Layers → Result String (Option String) × Layers
  unfolding resolve_remote JsMap.get
  resolve now cid_hash s =
      let next = resolve_remote now cid_hash s in
      elim (JsMap.get (read_local_index s) cid_hash) [
        | none ↦ next
        | some e ↦ if matches cid_hash e.cid then (ok (some e.cid), s) else next
      ]

-- `updateMfsCidMap`: a map that cannot be read is begun anew; an error is only logged.
unfoldable pub update_mfs_cid_map : String → String → Layers → Layers
unfolding JsMap.set
update_mfs_cid_map cid_hash cid s =
    if s.mfs_writable then record s { mfs = some (JsMap.set (get_or s.mfs []) cid_hash cid) } else s

-- The registration on chain, unless the hash is registered; an error is only logged.
unfoldable pub register_on_chain : String → String → Layers → Layers
unfolding JsMap.set JsMap.has
register_on_chain cid_hash cid s = elim s.registry [
  | none ↦ s
  | some m ↦
      if s.registry_answers && not (JsMap.has m cid_hash)
      then record s { registry = some (JsMap.set m cid_hash cid) }
      else s
]

unfoldable pub register :
    (String → String) → ℕ → String → String → Layers → Result String (Unit {0}) × Layers
unfolding cache_locally update_mfs_cid_map register_on_chain
register cid_to_bytes32 now cid_hash cid s =
    let cached = cache_locally now cid_hash cid s in
    if not (matches cid_to_bytes32 cid_hash cid)
    then (err (concat "CID hash mismatch: expected " cid_hash), s)
    else if s.index_writable
    then (ok tt, register_on_chain cid_hash cid (update_mfs_cid_map cid_hash cid cached.1))
    else cached
