-- ===== src/Memory/Sql.antt =====
-- What the stores of packages/claw-mem use of SQLite beyond filters: `ORDER BY` a number, either way.
-- The order of rows with the same number is the database's own.
pub mod Laws
pub mod Insertion
use claw_mem.Prelude.{All, ℕ, ◌≤◌, ◌≡◌, Bool, List, [], ◌∷◌, count}

pub record Sorter : Type 1 where
  pub ascending : {A : Type 0} → (A → ℕ) → List A → List A
  pub descending : {A : Type 0} → (A → ℕ) → List A → List A

-- Every later element has no smaller number, no larger one.
abbrev pub Ascends : {A : Type 0} → (A → ℕ) → List A → Type 0
Ascends key [] = Unit
Ascends key (x ∷ xs) = All (λ y. key x ≤ key y) xs × Ascends key xs

abbrev pub Descends : {A : Type 0} → (A → ℕ) → List A → Type 0
Descends key [] = Unit
Descends key (x ∷ xs) = All (λ y. key y ≤ key x) xs × Descends key xs

-- An order of the rows loses none and adds none, and puts them in the order of the key.
pub record IsSorter (s : Sorter) : Type 1 where
  pub count_ascending :
      {A : Type 0} (key : A → ℕ) (p : A → Bool) (xs : List A)
      → count p (s.ascending key xs) ≡ count p xs
  pub count_descending :
      {A : Type 0} (key : A → ℕ) (p : A → Bool) (xs : List A)
      → count p (s.descending key xs) ≡ count p xs
  pub ascends : {A : Type 0} (key : A → ℕ) (xs : List A) → Ascends key (s.ascending key xs)
  pub descends : {A : Type 0} (key : A → ℕ) (xs : List A) → Descends key (s.descending key xs)
