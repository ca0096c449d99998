-- ===== src/JsMap.antt =====
-- JavaScript's `Map` and plain objects with string keys, as association lists in insertion order:
-- `set` on a present key keeps the key's place, and on a new key appends it.
-- Keys that spell array indices, which JavaScript puts first in an object, keep their place here.
use claw_mem.Prelude.{
  String, ◌≡◌, refl, Bool, Option, none, some, List, [], ◌∷◌, ◌==◌, eq_iff, if◌then◌else◌, arith,
  is_some,
}

abbrev pub Map {ℓ} : Type ℓ → Type ℓ
Map V = List (String × V)

module _ {ℓ} {V : Type ℓ} where
  -- `m.get(k)`, `o[k]`: `none` is undefined.
  unfoldable pub get : Map V → String → Option V
  get [] k = none
  get ((j, v) ∷ m) k = if j == k then some v else get m k

  -- `m.has(k)`.
  unfoldable pub has : Map V → String → Bool
  unfolding get
  has m k = is_some (get m k)

  -- `m.set(k, v)`, `o[k] = v`.
  unfoldable pub set : Map V → String → V → Map V
  set [] k v = (k, v) ∷ []
  set ((j, w) ∷ m) k v = if j == k then (j, v) ∷ m else (j, w) ∷ set m k v

  -- `m.delete(k)`.
  unfoldable pub delete : Map V → String → Map V
  delete [] k = []
  delete ((j, w) ∷ m) k = let rest = delete m k in if j == k then rest else (j, w) ∷ rest

  -- `[...m.keys()]`, `Object.keys(o)`.
  abbrev pub keys : Map V → List String
  keys [] = []
  keys ((j, w) ∷ m) = j ∷ keys m

  -- `[...m.values()]`, `Object.values(o)`.
  abbrev pub values : Map V → List V
  values [] = []
  values ((j, w) ∷ m) = w ∷ values m

module _ {ℓ} {V : Type ℓ} where
  pub get-set :
      (m : Map V) (k j : String) (v : V) → get (set m k v) j ≡ (if k == j then some v else get m j)
  unfolding get set
  get-set [] k j v = refl
  get-set ((i, w) ∷ m) k j v = ground (arith, eq_iff k j, eq_iff i k, eq_iff i j, get-set m k j v)

  pub get-delete :
      (m : Map V) (k j : String) → get (delete m k) j ≡ (if k == j then none else get m j)
  unfolding get delete
  get-delete [] k j = ground arith
  get-delete ((i, w) ∷ m) k j = ground (arith, eq_iff k j, eq_iff i k, eq_iff i j, get-delete m k j)
