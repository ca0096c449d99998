-- ===== src/Backup/Merkle.antt =====
-- The Merkle tree of packages/soul/src/backup/manifest-builder.ts, lines 17 to 57. A hexadecimal
-- digest is kept as the bytes that it spells, so `hexToBytes` is the identity; SHA-256 is a
-- parameter.
pub mod Binding
use claw_mem.Prelude.{get_or, length, ℕ, zero, suc, Option, none, some, List, [], ◌∷◌, ◌++◌}

-- `0x000…0`, 32 bytes.
abbrev pub replicate : ℕ → ℕ → List ℕ
replicate zero b = []
replicate (suc n) b = b ∷ replicate n b

abbrev pub zero_hash : List ℕ
zero_hash = replicate 32 0

module _ (sha256 : List ℕ → List ℕ) where
  unfoldable pub hash_leaf : List ℕ → List ℕ
  hash_leaf bytes = sha256 (0 ∷ bytes)

  unfoldable pub hash_pair : List ℕ → List ℕ → List ℕ
  hash_pair left right = sha256 (1 ∷ (left ++ right))

  -- One level up: a last node without a neighbour is paired with itself.
  unfoldable pub next_level : List (List ℕ) → List (List ℕ)
  unfolding hash_pair
  next_level [] = []
  next_level (left ∷ []) = hash_pair left left ∷ []
  next_level (left ∷ right ∷ level) = hash_pair left right ∷ next_level level

  -- `while (level.length > 1)`; `none` is `level[0]` of an empty level, or that the fuel ran out.
  unfoldable pub climb : ℕ → List (List ℕ) → Option (List ℕ)
  unfolding next_level
  climb fuel [] = none
  climb fuel (root ∷ []) = some root
  climb zero (left ∷ right ∷ level) = none
  climb (suc fuel) (left ∷ right ∷ level) = climb fuel (next_level (left ∷ right ∷ level))

  unfoldable pub build_merkle_root : List (List ℕ) → List ℕ
  unfolding climb
  build_merkle_root [] = zero_hash
  build_merkle_root (leaf ∷ leaves) = get_or (climb (length leaves) (leaf ∷ leaves)) zero_hash
