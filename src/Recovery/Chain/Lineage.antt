-- ===== src/Recovery/Chain/Lineage.antt =====
-- A manifest in the store with its ancestors down to a full backup, and what the resolver makes of
-- it.
use claw_mem.Prelude.{
  Bool-cases, length, All, includes, ok, ℕ, zero, suc, ◌<◌, String, ◌≡◌, refl, sym, ap, ◌∙◌, inl,
  inr, false, none, some, List, [], ◌∷◌, ◌++◌, arith, ◌==◌, eq_iff, eq_refl, length-append,
  append_assoc,
}
use mathlib.Core.Option.{some-injective}
use claw_mem.Backup.Types.{SnapshotManifest}
use claw_mem.Backup.Anchor.{cat_manifest}
use claw_mem.Recovery.Chain.{fetch, follow, resolve_chain_from_cid}

-- The first manifest is that of a full backup.
abbrev pub StartsFull : List SnapshotManifest → Type 0
StartsFull [] = ⊥
StartsFull (m ∷ ms) = m.parent_cid ≡ none

StartsFull-append : (ms ns : List SnapshotManifest) → StartsFull ms → StartsFull (ms ++ ns)
StartsFull-append [] ns h = absurd h
StartsFull-append (m ∷ ms) ns h = h

module _ (cid_of : SnapshotManifest → String) where
  -- The store has the manifest under its CID.
  abbrev pub IsStored : List SnapshotManifest → SnapshotManifest → Type 0
  IsStored store m = cat_manifest cid_of store (cid_of m) ≡ some m

  -- `n` incremental manifests above a full one, all in the store.
  pub data Rooted (store : List SnapshotManifest) : SnapshotManifest → ℕ → Type 0 where
    full : {m : SnapshotManifest} → IsStored store m → m.parent_cid ≡ none → Rooted store m 0
    incremental :
        {m : SnapshotManifest} {n : ℕ} (p : SnapshotManifest)
        → IsStored store m
        → m.parent_cid ≡ some (cid_of p)
        → Rooted store p n
        → Rooted store m (suc n)

  pub Rooted-IsStored :
      {store : List SnapshotManifest} {m : SnapshotManifest} {n : ℕ}
      → Rooted store m n
      → IsStored store m
  Rooted-IsStored (full s e) = s
  Rooted-IsStored (incremental p s e r) = s

  same_manifest :
      {store : List SnapshotManifest} {a b : SnapshotManifest} {i j : ℕ}
      → Rooted store a i
      → Rooted store b j
      → cid_of a ≡ cid_of b
      → a ≡ b
  same_manifest {store} {a} {b} r r' h =
      some-injective a b
        (sym (Rooted-IsStored r) ∙ (ap (cat_manifest cid_of store) h ∙ Rooted-IsStored r'))

  -- A manifest determines how far it is from its full backup.
  same_depth :
      {store : List SnapshotManifest} {a b : SnapshotManifest} {i j : ℕ}
      → Rooted store a i
      → Rooted store b j
      → cid_of a ≡ cid_of b
      → i ≡ j
  same_depth (full s e) (full s' e') h = refl
  same_depth (full s e) (incremental q s' e' r') h =
      cc (same_manifest (full s e) (incremental q s' e' r') h)
  same_depth (incremental p s e r) (full s' e') h =
      cc (same_manifest (incremental p s e r) (full s' e') h)
  same_depth (incremental p s e r) (incremental q s' e' r') h =
      let same = same_manifest (incremental p s e r) (incremental q s' e' r') h in
      ap suc (same_depth r r' (cc same))

  -- No other manifest is in the store under the CID of this one.
  abbrev pub Fresh : List SnapshotManifest → SnapshotManifest → Type 0
  Fresh store x = (m : SnapshotManifest) → cat_manifest cid_of store (cid_of x) ≡ some m → x ≡ m

  -- Each manifest was fresh when it was added.
  abbrev pub CollisionFree : List SnapshotManifest → Type 0
  CollisionFree [] = Unit
  CollisionFree (x ∷ store) = Fresh store x × CollisionFree store

  pub IsStored-add_self :
      (store : List SnapshotManifest) (m : SnapshotManifest) → IsStored (m ∷ store) m
  unfolding cat_manifest
  IsStored-add_self store m = rw (eq_refl (cid_of m))

  IsStored-add :
      (store : List SnapshotManifest) (x m : SnapshotManifest)
      → Fresh store x
      → IsStored store m
      → IsStored (x ∷ store) m
  unfolding cat_manifest
  IsStored-add store x m f s = elim (Bool-cases (cid_of x == cid_of m)) [
    | inl same ↦ rw same (ap some (f m (ap (cat_manifest cid_of store) ((eq_iff _ _).0 same) ∙ s)))
    | inr other ↦ rw other s
  ]

  -- A fresh manifest that is added takes nothing away.
  pub Rooted-add :
      {store : List SnapshotManifest} {m : SnapshotManifest} {n : ℕ} (x : SnapshotManifest)
      → Fresh store x
      → Rooted store m n
      → Rooted (x ∷ store) m n
  Rooted-add {store} {m} x f (full s e) = full (IsStored-add store x m f s) e
  Rooted-add {store} {m} x f (incremental p s e r) =
      incremental p (IsStored-add store x m f s) e (Rooted-add x f r)

  module _ (cid_ne : (m : SnapshotManifest) → (cid_of m == "") ≡ false)
      (store : List SnapshotManifest) where
    -- The CIDs that were visited are of descendants.
    abbrev Above : ℕ → List String → Type 0
    Above n =
        All λ v. (m : SnapshotManifest) × (i : ℕ) × (v ≡ cid_of m) × Rooted store m i × (n < i)

    Above-weaken : (n : ℕ) (vs : List String) → Above (suc n) vs → Above n vs
    Above-weaken n [] h = tt
    Above-weaken n (v ∷ vs) ((m, i, e, r, l), h) = ((m, i, e, r, omega arith), Above-weaken n vs h)

    unvisited :
        {m : SnapshotManifest} {n : ℕ} (vs : List String)
        → Rooted store m n
        → Above n vs
        → includes vs (cid_of m) ≡ false
    unvisited [] r h = refl
    unvisited {m} {n} (v ∷ vs) r ((x, i, e, rx, l), h) = elim (Bool-cases (v == cid_of m)) [
      | inr other ↦ rw other (unvisited vs r h)
      | inl same ↦ absurd (omega (arith, same_depth rx r (sym e ∙ (eq_iff _ _).0 same)))
    ]

    abbrev Follows : ℕ → List String → List SnapshotManifest → SnapshotManifest → ℕ → Type 0
    Follows fuel vs chain m n =
        (older : List SnapshotManifest) × (follow (cat_manifest cid_of store) fuel vs chain
            (some (cid_of m))
          ≡ ok (older ++ (m ∷ chain)))
        × (length older ≡ n)
        × StartsFull (older ++ (m ∷ []))

    follow_step :
        {m : SnapshotManifest} {n : ℕ} (fuel : ℕ) (vs : List String) (chain : List SnapshotManifest)
        → Rooted store m n
        → Above n vs
        → follow (cat_manifest cid_of store) (suc fuel) vs chain (some (cid_of m))
          ≡ follow (cat_manifest cid_of store) fuel (cid_of m ∷ vs) (m ∷ chain) m.parent_cid
    unfolding follow
    follow_step {m} fuel vs chain r h =
        rw (cid_ne m, unvisited vs r h) (rw (Rooted-IsStored r, fetch))

    follow-Rooted :
        {m : SnapshotManifest} {n : ℕ} (fuel : ℕ) (vs : List String) (chain : List SnapshotManifest)
        → Rooted store m n
        → n < fuel
        → Above n vs
        → Follows fuel vs chain m n
    follow-Rooted zero vs chain r l h = absurd (omega (arith, l))
    follow-Rooted {m} (suc fuel) vs chain (full s e) l h =
        ([], follow_step fuel vs chain (full s e) h ∙ (unfold follow in rw e), refl, e)
    follow-Rooted {m} (suc fuel) vs chain (incremental p s e r) l h =
        let above : Above _ (cid_of m ∷ vs) =
          ((m, suc _, refl, incremental p s e r, omega arith), Above-weaken _ vs h) in
        let (older, eq, len, starts) =
          follow-Rooted fuel (cid_of m ∷ vs) (m ∷ chain) r (omega arith) above in
        (
          older ++ (p ∷ []),
          follow_step fuel vs chain (incremental p s e r) h
              ∙ (ap (follow (cat_manifest cid_of store) fuel (cid_of m ∷ vs) (m ∷ chain)) e
                  ∙ (eq ∙ ap ok (sym (append_assoc older (p ∷ []) (m ∷ chain))))),
          omega (arith, length-append older (p ∷ []), len),
          StartsFull-append (older ++ (p ∷ [])) (m ∷ []) starts,
        )

    -- From the CID of a manifest `n` backups above a full one, the resolver returns the chain of
    -- `n + 1` manifests, oldest first: it begins with the full backup and ends with the manifest.
    pub resolve_chain-Rooted :
        {m : SnapshotManifest} {n : ℕ} (fuel : ℕ)
        → Rooted store m n
        → n < fuel
        → (older : List SnapshotManifest) × (resolve_chain_from_cid
              (cat_manifest cid_of store)
              fuel
              (cid_of m)
            ≡ ok (older ++ (m ∷ [])))
          × (length older ≡ n)
          × StartsFull (older ++ (m ∷ []))
    unfolding resolve_chain_from_cid
    resolve_chain-Rooted fuel r l = follow-Rooted fuel [] [] r l tt
