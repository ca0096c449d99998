-- ===== src/Memory/Sql/Laws.antt =====
-- What the beginning of an ordered list of rows has that a row behind it shows.
use claw_mem.Prelude.{
  All-drop, count, leb, length, take, drop, All, ℕ, zero, suc, ◌≤◌, ◌<◌, ◌≡◌, refl, ap, Bool, true,
  List, [], ◌∷◌, arith, count-none, All-map, ◌∙◌, not,
}
use claw_mem.Memory.Sql.{Sorter, IsSorter, Ascends, Descends}

module _ {A : Type 0} (key : A → ℕ) where
  below :
      (p : A → Bool) (b : ℕ) (xs : List A)
      → All (λ y. key y ≤ b) xs
      → (e : ℕ) → ((x : A) → p x ≡ true → e ≤ key x)
      → 1 ≤ count p xs
      → e ≤ b
  below p b [] h e k c = omega arith
  below p b (x ∷ xs) (h, hs) e k c = ground (arith, below p b xs hs e k, k x)

  above :
      (p : A → Bool) (b : ℕ) (xs : List A)
      → All (λ y. b ≤ key y) xs
      → (e : ℕ) → ((x : A) → p x ≡ true → key x < e)
      → 1 ≤ count p xs
      → b < e
  above p b [] h e k c = omega arith
  above p b (x ∷ xs) (h, hs) e k c = ground (arith, above p b xs hs e k, k x)

  -- Where a row of that key or a larger one stands behind the first `n`, there are `n` before it, and
  -- none of them has a smaller key.
  pub take-Descends :
      (p : A → Bool) (e : ℕ) (n : ℕ) (xs : List A)
      → Descends key xs
      → ((x : A) → p x ≡ true → e ≤ key x)
      → 1 ≤ count p (drop n xs)
      → All (λ x. leb e (key x) ≡ true) (take n xs) × (length (take n xs) ≡ n)
  take-Descends p e zero xs d k c = (tt, refl)
  take-Descends p e (suc n) [] d k c = omega arith
  take-Descends p e (suc n) (x ∷ xs) (h, d) k c =
      let rest = take-Descends p e n xs d k c in
      let bound = below p (key x) (drop n xs) (All-drop _ n xs h) e k c in
      ((ground arith, rest.0), ap suc rest.1)

  -- Where a row of a smaller key stands behind the first `n`, none before it has the key or a larger.
  pub take-Ascends :
      (p : A → Bool) (e : ℕ) (n : ℕ) (xs : List A)
      → Ascends key xs
      → ((x : A) → p x ≡ true → key x < e)
      → 1 ≤ count p (drop n xs)
      → count (λ x. leb e (key x)) (take n xs) ≡ 0
  take-Ascends p e zero xs d k c = refl
  take-Ascends p e (suc n) [] d k c = refl
  take-Ascends p e (suc n) (x ∷ xs) (h, d) k c =
      ground
        (arith, take-Ascends p e n xs d k c, above p (key x) (drop n xs) (All-drop _ n xs h) e k c)

none-count :
    {A : Type 0} (p : A → Bool) (xs : List A)
    → count (λ x. not (p x)) xs ≡ 0
    → All (λ x. p x ≡ true) xs
none-count p [] h = tt
none-count p (x ∷ xs) h = (ground arith, none-count p xs (ground arith))

-- Ordering rows keeps what holds of all of them.
pub All-descending :
    {A : Type 0} (order : Sorter) (laws : IsSorter order) (key : A → ℕ) (p : A → Bool) (xs : List A)
    → All (λ x. p x ≡ true) xs
    → All (λ x. p x ≡ true) (order.descending key xs)
All-descending order laws key p xs h = none-count p (order.descending key xs) (
    laws.count_descending key (λ x. not (p x)) xs
    ∙ count-none (λ x. not (p x)) xs (All-map _ _ xs (λ x k. ground arith) h))
