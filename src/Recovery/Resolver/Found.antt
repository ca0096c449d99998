-- ===== src/Recovery/Resolver/Found.antt =====
-- What the resolver returns: only CIDs of the hash, and those that were registered.
use claw_mem.Prelude.{
  Result, ok, ℕ, String, ◌≡◌, Option, some, Bool-cases, Option-cases, get_or, err, if_both, subst,
  inl, inr, true, false, not, ◌&&◌, ◌||◌, none, arith, ◌==◌, eq_iff, refl, ap, ◌∙◌, [], eq_refl,
}
use claw_mem.JsMap
use claw_mem.Recovery.Resolver.{
  Layers, read_local_index, cache_locally, resolve_from_mfs, matches, resolve_on_chain,
  resolve_remote, resolve, update_mfs_cid_map, register_on_chain, register,
}

-- The later layers leave the earlier ones as they are.
register_on_chain-same :
    (cid_hash cid : String) (s : Layers)
    → register_on_chain cid_hash cid s
      ≡ record s { registry = (register_on_chain cid_hash cid s).registry }
unfolding register_on_chain
register_on_chain-same cid_hash cid s = elim (Option-cases s.registry) [
  | inl e ↦ rw e refl
  | inr (m, e) ↦ rw e elim (Bool-cases (s.registry_answers && not (JsMap.has m cid_hash))) [
    | inl q ↦ rw q refl
    | inr q ↦ rw q refl
  ]
]

update_mfs_cid_map-index :
    (cid_hash cid : String) (s : Layers) → (update_mfs_cid_map cid_hash cid s).index ≡ s.index
unfolding update_mfs_cid_map
update_mfs_cid_map-index cid_hash cid s =
    if_both (λ (q : Layers). q.index ≡ s.index) s.mfs_writable _ _ (λ _. refl) (λ _. refl)

module _ (cid_to_bytes32 : String → String) where
  -- A reply with a CID has one of the hash.
  abbrev Honest : String → Result String (Option String) → Type 0
  Honest cid_hash r = (cid : String) → r ≡ ok (some cid) → cid_to_bytes32 cid ≡ cid_hash

  found-Honest :
      (cid_hash found : String)
      → matches cid_to_bytes32 cid_hash found ≡ true
      → Honest cid_hash (ok (some found))
  found-Honest cid_hash found h cid e =
      let same : found ≡ cid = cc in
      subst (λ c. cid_to_bytes32 c ≡ cid_hash) same ((eq_iff (cid_to_bytes32 found) cid_hash).0 h)

  none-Honest : (cid_hash : String) → Honest cid_hash (ok none)
  none-Honest cid_hash cid e = cc

  err-Honest : (cid_hash thrown : String) → Honest cid_hash (err thrown)
  err-Honest cid_hash thrown cid e = cc

  resolve_on_chain-Honest :
      (now : ℕ) (cid_hash : String) (s : Layers)
      → Honest cid_hash (resolve_on_chain cid_to_bytes32 now cid_hash s).0
  unfolding resolve_on_chain cache_locally
  resolve_on_chain-Honest now cid_hash s =
      let cid : Option String = elim s.registry [ none ↦ none | some m ↦ JsMap.get m cid_hash ] in
      let found = get_or cid "" in
      if_both (λ (r : Result String (Option String) × Layers). Honest cid_hash r.0)
        (not s.registry_answers || ((found == "") || not (matches cid_to_bytes32 cid_hash found))) _
        _ (λ _. none-Honest cid_hash)
        (λ h.
          if_both (λ (r : Result String (Option String) × Layers). Honest cid_hash r.0)
            s.index_writable _ _ (λ _. found-Honest cid_hash found (ground arith))
            (λ _. none-Honest cid_hash))

  resolve_remote-Honest :
      (now : ℕ) (cid_hash : String) (s : Layers)
      → Honest cid_hash (resolve_remote cid_to_bytes32 now cid_hash s).0
  unfolding resolve_remote cache_locally
  resolve_remote-Honest now cid_hash s =
      let found = get_or (resolve_from_mfs cid_hash s) "" in
      if_both (λ (r : Result String (Option String) × Layers). Honest cid_hash r.0)
        (not (found == "") && matches cid_to_bytes32 cid_hash found) _ _
        (λ h. elim (Bool-cases s.index_writable) [
          | inl w ↦ rw w (found-Honest cid_hash found (ground arith))
          | inr w ↦ rw w (err-Honest cid_hash _)
        ])
        (λ _. resolve_on_chain-Honest now cid_hash s)

  -- Whatever the local index, the map in IPFS and the contract hold: a CID that is returned has the
  -- hash that was asked for.
  pub resolve-hash :
      (now : ℕ) (cid_hash cid : String) (s : Layers)
      → (resolve cid_to_bytes32 now cid_hash s).0 ≡ ok (some cid)
      → cid_to_bytes32 cid ≡ cid_hash
  unfolding resolve
  resolve-hash now cid_hash cid s = elim (Option-cases (JsMap.get (read_local_index s) cid_hash)) [
    | inl e ↦ rw (resolve, e) (resolve_remote-Honest now cid_hash s cid)
    | inr (entry, e) ↦
        rw (resolve, e)
          (if_both (λ (r : Result String (Option String) × Layers). Honest cid_hash r.0)
            (matches cid_to_bytes32 cid_hash entry.cid) _ _ (λ h. found-Honest cid_hash entry.cid h)
            (λ _. resolve_remote-Honest now cid_hash s) cid)
  ]

  register-ok :
      (now : ℕ) (cid_hash cid : String) (s : Layers)
      → (register cid_to_bytes32 now cid_hash cid s).0 ≡ ok tt
      → (matches cid_to_bytes32 cid_hash cid ≡ true) × (s.index_writable ≡ true)
  unfolding register cache_locally
  register-ok now cid_hash cid s h = ground arith

  module _ (now : ℕ) (cid_hash cid : String) (s : Layers) where
    abbrev left : Layers
    left = (register cid_to_bytes32 now cid_hash cid s).1

    -- The state behind a registration that succeeds.
    abbrev cached : Layers
    cached = record s {
      index = some (
          JsMap.set (read_local_index s) cid_hash
            (record { cid_hash = cid_hash; cid = cid; registered_at = now }));
    }

    cached-now : s.index_writable ≡ true → (cache_locally now cid_hash cid s).1 ≡ cached
    unfolding cache_locally
    cached-now w =
        if_both (λ (r : Result String (Unit {0}) × Layers). r.1 ≡ cached) s.index_writable _ _
          (λ _. refl) (λ n. cc)

    left-chain :
        matches cid_to_bytes32 cid_hash cid ≡ true
        → s.index_writable ≡ true
        → left ≡ register_on_chain cid_hash cid (update_mfs_cid_map cid_hash cid cached)
    unfolding register
    left-chain m w =
        let expected = register_on_chain cid_hash cid (update_mfs_cid_map cid_hash cid cached) in
        if_both (λ (r : Result String (Unit {0}) × Layers). r.1 ≡ expected)
          (not (matches cid_to_bytes32 cid_hash cid)) _ _ (λ bad. ground arith)
          (λ _.
            if_both (λ (r : Result String (Unit {0}) × Layers). r.1 ≡ expected) s.index_writable _ _
              (λ _.
                ap (λ q. register_on_chain cid_hash cid (update_mfs_cid_map cid_hash cid q))
                  (cached-now w))
              (λ n. cc))

    update_mfs_cid_map-mfs :
        s.mfs_writable ≡ true
        → (update_mfs_cid_map cid_hash cid cached).mfs
          ≡ some (JsMap.set (get_or s.mfs []) cid_hash cid)
    unfolding update_mfs_cid_map
    update_mfs_cid_map-mfs u =
        if_both (λ (q : Layers). q.mfs ≡ some (JsMap.set (get_or s.mfs []) cid_hash cid))
          s.mfs_writable _ _ (λ _. refl) (λ n. cc)

    update_mfs_cid_map-writable :
        (update_mfs_cid_map cid_hash cid cached).index_writable ≡ s.index_writable
    unfolding update_mfs_cid_map
    update_mfs_cid_map-writable =
        if_both (λ (q : Layers). q.index_writable ≡ s.index_writable) s.mfs_writable _ _ (λ _. refl)
          (λ _. refl)

    remote_found :
        (later : ℕ) (q : Layers)
        → resolve_from_mfs cid_hash q ≡ some cid
        → q.index_writable ≡ true
        → matches cid_to_bytes32 cid_hash cid ≡ true
        → (cid == "") ≡ false
        → (resolve_remote cid_to_bytes32 later cid_hash q).0 ≡ ok (some cid)
    unfolding resolve_remote cache_locally
    remote_found later q found w m named =
        rw (resolve_remote, found, named, m, cache_locally, w) refl

    -- What is registered is resolved from then on, from the local index.
    pub resolve-register :
        (later : ℕ)
        → (register cid_to_bytes32 now cid_hash cid s).0 ≡ ok tt
        → (resolve cid_to_bytes32 later cid_hash left).0 ≡ ok (some cid)
    unfolding resolve
    resolve-register later h =
        let (m, w) = register-ok now cid_hash cid s h in
        let index : left.index ≡ cached.index =
          ap (λ (q : Layers). q.index)
            (left-chain m w
              ∙ register_on_chain-same cid_hash cid (update_mfs_cid_map cid_hash cid cached))
          ∙ update_mfs_cid_map-index cid_hash cid cached in
        let found =
          JsMap.get-set (read_local_index s) cid_hash cid_hash
            (record { cid_hash = cid_hash; cid = cid; registered_at = now }) in
        let entry : JsMap.get (read_local_index left) cid_hash
            ≡ some (record { cid_hash = cid_hash; cid = cid; registered_at = now }) =
          ap (λ i. JsMap.get (get_or i []) cid_hash) index ∙ found ∙ rw (eq_refl cid_hash) refl in
        rw (resolve, entry, m) refl

    -- Where the map in IPFS could be written: what is registered is resolved also when the local index
    -- is lost.
    pub resolve-register_lost :
        (later : ℕ)
        → (register cid_to_bytes32 now cid_hash cid s).0 ≡ ok tt
        → s.mfs_writable ≡ true
        → (cid == "") ≡ false
        → (resolve cid_to_bytes32 later cid_hash (record left { index = none })).0 ≡ ok (some cid)
    unfolding resolve JsMap.get
    resolve-register_lost later h u named =
        let (m, w) = register-ok now cid_hash cid s h in
        let state =
          left-chain m w
          ∙ register_on_chain-same cid_hash cid (update_mfs_cid_map cid_hash cid cached) in
        let mfs : left.mfs ≡ some (JsMap.set (get_or s.mfs []) cid_hash cid) =
          ap (λ (q : Layers). q.mfs) state ∙ update_mfs_cid_map-mfs u in
        let writable : left.index_writable ≡ true =
          ap (λ (q : Layers). q.index_writable) state ∙ update_mfs_cid_map-writable ∙ w in
        let found : resolve_from_mfs cid_hash (record left { index = none }) ≡ some cid =
          ap (λ f. elim f as (λ _. Option String) [ none ↦ none | some n ↦ JsMap.get n cid_hash ])
            mfs
          ∙ JsMap.get-set (get_or s.mfs []) cid_hash cid_hash cid
          ∙ rw (eq_refl cid_hash) refl in
        remote_found later (record left { index = none }) found writable m named
