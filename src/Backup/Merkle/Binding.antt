-- ===== src/Backup/Merkle/Binding.antt =====
-- The root determines the leaves, or shows two inputs on which the digest collides.
use native.Mathlib.Decide.{ℕ_discrete}
use claw_mem.Prelude.{
  length, All, ℕ, suc, ◌≤◌, ◌≡◌, refl, ap, ◌≢◌, ◌⊎◌, inl, inr, List, [], ◌∷◌, ◌++◌, arith, zero,
  sym, subst, ◌∙◌, some,
}
use claw_mem.Backup.Merkle.{hash_pair, next_level, climb, build_merkle_root}

module _ (sha256 : List ℕ → List ℕ) where
  -- Two different inputs with one digest.
  abbrev pub Collision : Type 0
  Collision = (a : List ℕ) × (b : List ℕ) × (a ≢ b) × (sha256 a ≡ sha256 b)

  abbrev pub IsDigest : List ℕ → Type 0
  IsDigest d = length d ≡ 32

  pub sha256-eq : (a b : List ℕ) → sha256 a ≡ sha256 b → (a ≡ b) ⊎ Collision
  sha256-eq a b e = elim (bytes_discrete a b) [
    | yes same ↦ inl same
    | no differ ↦ inr (a, b, differ, e)
  ]
    where
      bytes_discrete : Discrete (List ℕ)
      bytes_discrete = hlevel ℕ_discrete

pub append_inj {ℓ} :
    {A : Type ℓ} (a b c d : List A) → length a ≡ length b → a ++ c ≡ b ++ d → (a ≡ b) × (c ≡ d)
append_inj [] [] c d n e = (refl, e)
append_inj [] (y ∷ b) c d n e = absurd (omega (arith, n))
append_inj (x ∷ a) [] c d n e = absurd (omega (arith, n))
append_inj (x ∷ a) (y ∷ b) c d n e =
    let ih = append_inj a b c d (omega (arith, n)) (cc) in (cc, ih.1)

module _ (sha256 : List ℕ → List ℕ) (is_digest : (a : List ℕ) → length (sha256 a) ≡ 32) where
  hash_pair_inj :
      (a b c d : List ℕ)
      → length a ≡ 32
      → length c ≡ 32
      → hash_pair sha256 a b ≡ hash_pair sha256 c d
      → ((a ≡ c) × (b ≡ d)) ⊎ Collision sha256
  unfolding hash_pair
  hash_pair_inj a b c d m n e = elim (sha256-eq sha256 _ _ e) [
    | inl same ↦ inl (append_inj a c b d (omega arith) (cc))
    | inr clash ↦ inr clash
  ]

  abbrev Digests : List (List ℕ) → Type 0
  Digests = All (λ d. length d ≡ 32)

  next_level-Digests : (xs : List (List ℕ)) → Digests (next_level sha256 xs)
  unfolding next_level
  next_level-Digests [] = tt
  next_level-Digests (x ∷ []) = (is_digest _, tt)
  next_level-Digests (x ∷ y ∷ xs) = (is_digest _, next_level-Digests xs)

  length-next_level :
      (xs ys : List (List ℕ))
      → length xs ≡ length ys
      → length (next_level sha256 xs) ≡ length (next_level sha256 ys)
  unfolding next_level
  length-next_level [] [] e = refl
  length-next_level [] (y ∷ ys) e = absurd (omega (arith, e))
  length-next_level (x ∷ xs) [] e = absurd (omega (arith, e))
  length-next_level (x ∷ []) (y ∷ []) e = refl
  length-next_level (x ∷ []) (y ∷ z ∷ ys) e = absurd (omega (arith, e))
  length-next_level (x ∷ z ∷ xs) (y ∷ []) e = absurd (omega (arith, e))
  length-next_level (x ∷ x' ∷ xs) (y ∷ y' ∷ ys) e =
      omega (arith, length-next_level xs ys (omega (arith, e)))

  next_level_inj :
      (xs ys : List (List ℕ))
      → length xs ≡ length ys
      → Digests xs
      → Digests ys
      → next_level sha256 xs ≡ next_level sha256 ys
      → (xs ≡ ys) ⊎ Collision sha256
  unfolding next_level
  next_level_inj [] [] n p q e = inl refl
  next_level_inj [] (y ∷ ys) n p q e = absurd (omega (arith, n))
  next_level_inj (x ∷ xs) [] n p q e = absurd (omega (arith, n))
  next_level_inj (x ∷ []) (y ∷ z ∷ ys) n p q e = absurd (omega (arith, n))
  next_level_inj (x ∷ z ∷ xs) (y ∷ []) n p q e = absurd (omega (arith, n))
  next_level_inj (x ∷ []) (y ∷ []) n p q e = elim (hash_pair_inj x x y y p.0 q.0 (cc)) [
    | inl (same, _) ↦ inl (ap (λ d. d ∷ []) same)
    | inr clash ↦ inr clash
  ]
  next_level_inj (x ∷ x' ∷ xs) (y ∷ y' ∷ ys) n p q e = elim (hash_pair_inj x x' y y' p.0 q.0 (cc)) [
    | inr clash ↦ inr clash
    | inl (same, also) ↦ elim (next_level_inj xs ys (omega (arith, n)) p.1.1 q.1.1 (cc)) [
      | inr clash ↦ inr clash
      | inl later ↦ inl (cc)
    ]
  ]

  length-next_level-le :
      (x y : List ℕ) (xs : List (List ℕ))
      → length (next_level sha256 (x ∷ y ∷ xs)) ≤ suc (length xs)
  unfolding next_level
  length-next_level-le x y [] = omega arith
  length-next_level-le x y (z ∷ []) = omega arith
  length-next_level-le x y (z ∷ w ∷ xs) = omega (arith, length-next_level-le z w xs)

  -- Every level is at most half as long, rounded up, so the fuel suffices: a tree has a root.
  pub climb_total :
      (fuel : ℕ) (x : List ℕ) (xs : List (List ℕ))
      → length xs ≤ fuel
      → (r : List ℕ) × (climb sha256 fuel (x ∷ xs) ≡ some r)
  unfolding climb
  climb_total zero x [] h = (x, refl)
  climb_total zero x (y ∷ xs) h = absurd (omega arith)
  climb_total (suc fuel) x [] h = (x, refl)
  climb_total (suc fuel) x (y ∷ xs) h =
      climb_total fuel (hash_pair sha256 x y) (next_level sha256 xs)
        (omega (arith, length-next_level-le x y xs))

  climb_inj :
      (fuel : ℕ) (xs ys : List (List ℕ)) (r : List ℕ)
      → length xs ≡ length ys
      → Digests xs
      → Digests ys
      → climb sha256 fuel xs ≡ some r
      → climb sha256 fuel ys ≡ some r
      → (xs ≡ ys) ⊎ Collision sha256
  unfolding climb
  climb_inj fuel [] [] r n p q e f = inl refl
  climb_inj fuel [] (y ∷ ys) r n p q e f = absurd (omega (arith, n))
  climb_inj fuel (x ∷ xs) [] r n p q e f = absurd (omega (arith, n))
  climb_inj fuel (x ∷ []) (y ∷ z ∷ ys) r n p q e f = absurd (omega (arith, n))
  climb_inj fuel (x ∷ z ∷ xs) (y ∷ []) r n p q e f = absurd (omega (arith, n))
  climb_inj fuel (x ∷ []) (y ∷ []) r n p q e f = inl (cc)
  climb_inj zero (x ∷ x' ∷ xs) (y ∷ y' ∷ ys) r n p q e f = cc
  climb_inj (suc fuel) (x ∷ x' ∷ xs) (y ∷ y' ∷ ys) r n p q e f =
      elim (climb_inj fuel (next_level sha256 (x ∷ x' ∷ xs)) (next_level sha256 (y ∷ y' ∷ ys)) r
        (length-next_level (x ∷ x' ∷ xs) (y ∷ y' ∷ ys) n) (next_level-Digests (x ∷ x' ∷ xs))
        (next_level-Digests (y ∷ y' ∷ ys)) e f) [
          | inr clash ↦ inr clash
          | inl same ↦ next_level_inj (x ∷ x' ∷ xs) (y ∷ y' ∷ ys) n p q same
        ]

  -- Two lists of as many leaves with one root are equal, or a collision of the digest is at hand.
  pub build_merkle_root_inj :
      (xs ys : List (List ℕ))
      → length xs ≡ length ys
      → All (λ d. length d ≡ 32) xs
      → All (λ d. length d ≡ 32) ys
      → build_merkle_root sha256 xs ≡ build_merkle_root sha256 ys
      → (xs ≡ ys) ⊎ Collision sha256
  unfolding build_merkle_root
  build_merkle_root_inj [] [] n p q e = inl refl
  build_merkle_root_inj [] (y ∷ ys) n p q e = absurd (omega (arith, n))
  build_merkle_root_inj (x ∷ xs) [] n p q e = absurd (omega (arith, n))
  build_merkle_root_inj (x ∷ xs) (y ∷ ys) n p q e =
      let (r, a) = climb_total (length xs) x xs (omega arith) in
      let (s, b) = climb_total (length ys) y ys (omega arith) in
      let same : length ys ≡ length xs = omega (arith, n) in
      let root : r ≡ s = cc (a, b, e) in
      climb_inj (length xs) (x ∷ xs) (y ∷ ys) r n p q a
        (subst (λ k. climb sha256 k (y ∷ ys) ≡ some r) same (b ∙ ap some (sym root)))
