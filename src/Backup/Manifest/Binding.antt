-- ===== src/Backup/Manifest/Binding.antt =====
-- The root of a manifest determines its rows: path, CID and digest of every file.
use claw_mem.Prelude.{
  ℕ, ◌^◌, ◌<◌, ◌≡◌, length, ◌/◌, ◌%◌, String, ◌⊎◌, inl, inr, none, some, List, ◌∷◌, ◌++◌, map,
  arith, All, suc, refl, sym, ap, ◌∙◌, [],
}
use claw_mem.JsMap.{Map, get, keys}
use claw_mem.Backup.Types.{ManifestFileEntry}
use claw_mem.Backup.Merkle.{hash_leaf}
use claw_mem.Backup.Merkle.Binding.{Collision, build_merkle_root_inj, append_inj, sha256-eq}
use claw_mem.Backup.Manifest.{
  uint32_le, sort_paths, insert_path, length_prefixed, leaf_of, compute_data_merkle_root,
}

uint32_le_inj : (m n : ℕ) → m < 2 ^ 32 → n < 2 ^ 32 → uint32_le m ≡ uint32_le n → m ≡ n
unfolding uint32_le
uint32_le_inj m n a b e =
    let e0 : m % 256 ≡ n % 256 = cc e in
    let e1 : m / 256 % 256 ≡ n / 256 % 256 = cc e in
    let e2 : m / 65536 % 256 ≡ n / 65536 % 256 = cc e in
    let e3 : m / 16777216 % 256 ≡ n / 16777216 % 256 = cc e in omega arith

drop_head : {c : ℕ} {s t : List ℕ} → c ∷ s ≡ c ∷ t → s ≡ t
drop_head e = cc e

length-map {ℓ κ} :
    {A : Type ℓ} {B : Type κ} (f : A → B) (xs : List A) → length (map f xs) ≡ length xs
length-map f [] = refl
length-map f (x ∷ xs) = ap suc (length-map f xs)

length-insert_path : (p : String) (ps : List String) → length (insert_path p ps) ≡ suc (length ps)
unfolding insert_path
length-insert_path p [] = refl
length-insert_path p (q ∷ ps) = ground (arith, length-insert_path p ps)

length-sort_paths : (ps : List String) → length (sort_paths ps) ≡ length ps
unfolding sort_paths
length-sort_paths [] = refl
length-sort_paths (p ∷ ps) =
    omega (arith, length-insert_path p (sort_paths ps), length-sort_paths ps)

-- What the leaf of a path says: the path, the CID and the digest.
unfoldable pub row_of : Map ManifestFileEntry → String → String × String × String
row_of entries p = elim (get entries p) [ none ↦ (p, "", "") | some e ↦ (p, e.cid, e.hash) ]

-- The rows of a manifest's files, in the order of their paths.
pub rows : Map ManifestFileEntry → List (String × String × String)
rows entries = map (row_of entries) (sort_paths (keys entries))

module _ (sha256 : List ℕ → List ℕ) (utf8 : String → List ℕ) where
  -- The text is shorter than 4 GiB, so that its length has four bytes.
  abbrev pub IsShort : String → Type 0
  IsShort s = length (utf8 s) < 2 ^ 32

  -- The path has an entry, and its three texts are short.
  abbrev pub HasShortEntry : Map ManifestFileEntry → String → Type 0
  HasShortEntry entries p =
      (e : ManifestFileEntry) × (get entries p ≡ some e)
      × IsShort p
      × IsShort e.cid
      × IsShort e.hash

  module _ (is_digest : (a : List ℕ) → length (sha256 a) ≡ 32)
      (utf8_inj : (s t : String) → utf8 s ≡ utf8 t → s ≡ t) where
    prefixed_inj :
        (s t : String) (x y : List ℕ)
        → IsShort s
        → IsShort t
        → length_prefixed sha256 utf8 s ++ x ≡ length_prefixed sha256 utf8 t ++ y
        → (s ≡ t) × (x ≡ y)
    unfolding length_prefixed
    prefixed_inj s t x y a b e =
        let heads : uint32_le (length (utf8 s)) ≡ uint32_le (length (utf8 t)) =
          unfold uint32_le in cc e in
        let tails : utf8 s ++ x ≡ utf8 t ++ y = cc e in
        let split = append_inj (utf8 s) (utf8 t) x y (uint32_le_inj _ _ a b heads) tails in
        (utf8_inj s t split.0, split.1)

    abbrev leaf_bytes : String → ManifestFileEntry → List ℕ
    leaf_bytes p e =
        length_prefixed sha256 utf8 p
        ++ (length_prefixed sha256 utf8 e.cid ++ length_prefixed sha256 utf8 e.hash)

    leaf_of-some :
        (a : Map ManifestFileEntry) (p : String) (e : ManifestFileEntry)
        → get a p ≡ some e
        → leaf_of sha256 utf8 a p ≡ sha256 (0 ∷ leaf_bytes p e)
    unfolding leaf_of hash_leaf
    leaf_of-some a p e h = rw (h, leaf_of)

    row_of-some :
        (a : Map ManifestFileEntry) (p : String) (e : ManifestFileEntry)
        → get a p ≡ some e
        → row_of a p ≡ (p, e.cid, e.hash)
    unfolding row_of
    row_of-some a p e h = rw (h, row_of)

    bytes_inj :
        (p q : String) (e f : ManifestFileEntry)
        → IsShort p × IsShort e.cid × IsShort e.hash
        → IsShort q × IsShort f.cid × IsShort f.hash
        → leaf_bytes p e ≡ leaf_bytes q f
        → ◌≡◌ {A = String × String × String} (p, e.cid, e.hash) (q, f.cid, f.hash)
    bytes_inj p q e f (sp, sc, sh) (tp, tc, th) bytes =
        let one = prefixed_inj p q _ _ sp tp bytes in
        let two = prefixed_inj e.cid f.cid _ _ sc tc one.1 in
        let three = prefixed_inj e.hash f.hash [] [] sh th (ap (λ (x : List ℕ). x ++ []) two.1) in
        cc (one.0, two.0, three.0)

    leaf_inj :
        (a b : Map ManifestFileEntry) (p q : String)
        → HasShortEntry a p
        → HasShortEntry b q
        → leaf_of sha256 utf8 a p ≡ leaf_of sha256 utf8 b q
        → (row_of a p ≡ row_of b q) ⊎ Collision sha256
    leaf_inj a b p q (e, ea, sp, sc, sh) (f, fb, tp, tc, th) same =
        let hashes = sym (leaf_of-some a p e ea) ∙ same ∙ leaf_of-some b q f fb in
        elim (sha256-eq sha256 _ _ hashes) [
          | inr clash ↦ inr clash
          | inl bytes ↦ inl (
              row_of-some a p e ea
              ∙ bytes_inj p q e f (sp, sc, sh) (tp, tc, th) (drop_head bytes)
              ∙ sym (row_of-some b q f fb))
        ]

    leaves_inj :
        (a b : Map ManifestFileEntry) (ps qs : List String)
        → All (HasShortEntry a) ps
        → All (HasShortEntry b) qs
        → map (leaf_of sha256 utf8 a) ps ≡ map (leaf_of sha256 utf8 b) qs
        → (map (row_of a) ps ≡ map (row_of b) qs) ⊎ Collision sha256
    leaves_inj a b [] [] h k e = inl refl
    leaves_inj a b [] (q ∷ qs) h k e = cc
    leaves_inj a b (p ∷ ps) [] h k e = cc
    leaves_inj a b (p ∷ ps) (q ∷ qs) h k e = elim (leaf_inj a b p q h.0 k.0 (cc)) [
      | inr clash ↦ inr clash
      | inl one ↦ elim (leaves_inj a b ps qs h.1 k.1 (cc)) [
        | inr clash ↦ inr clash
        | inl later ↦ inl (cc)
      ]
    ]

    leaf-IsDigest :
        (a : Map ManifestFileEntry) (p : String)
        → HasShortEntry a p
        → length (leaf_of sha256 utf8 a p) ≡ 32
    leaf-IsDigest a p (e, ea, _, _, _) = rw (leaf_of-some a p e ea) (is_digest _)

    leaves-IsDigest :
        (a : Map ManifestFileEntry) (ps : List String)
        → All (HasShortEntry a) ps
        → All (λ d. length d ≡ 32) (map (leaf_of sha256 utf8 a) ps)
    leaves-IsDigest a [] h = tt
    leaves-IsDigest a (p ∷ ps) h = (leaf-IsDigest a p h.0, leaves-IsDigest a ps h.1)

    -- Two sets of as many files with one root have the same rows, or a collision of the digest is at
    -- hand: whoever changes a path, a CID or a digest in a manifest changes its root.
    pub compute_data_merkle_root_inj :
        (a b : Map ManifestFileEntry)
        → length (keys a) ≡ length (keys b)
        → All (HasShortEntry a) (sort_paths (keys a))
        → All (HasShortEntry b) (sort_paths (keys b))
        → compute_data_merkle_root sha256 utf8 a ≡ compute_data_merkle_root sha256 utf8 b
        → (rows a ≡ rows b) ⊎ Collision sha256
    unfolding compute_data_merkle_root rows
    compute_data_merkle_root_inj a b n h k e =
        elim (build_merkle_root_inj sha256 is_digest _ _ (same_length) (leaves-IsDigest a _ h)
          (leaves-IsDigest b _ k) e) [
            | inr clash ↦ inr clash
            | inl leaves ↦ leaves_inj a b _ _ h k leaves
          ]
      where
        same_length :
            length (map (leaf_of sha256 utf8 a) (sort_paths (keys a)))
            ≡ length (map (leaf_of sha256 utf8 b) (sort_paths (keys b)))
        same_length = omega (
          arith,
          n,
          length-map (leaf_of sha256 utf8 a) (sort_paths (keys a)),
          length-map (leaf_of sha256 utf8 b) (sort_paths (keys b)),
          length-sort_paths (keys a),
          length-sort_paths (keys b),
        )
