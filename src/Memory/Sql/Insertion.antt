-- ===== src/Memory/Sql/Insertion.antt =====
-- An order of the database that the laws hold of: insertion sort, either way.
use claw_mem.Prelude.{
  leb→le, All-map, count, if◌then◌else◌, leb, All, if_both, ℕ, ◌≤◌, ◌≡◌, refl, Bool, List, [], ◌∷◌,
  arith,
}
use claw_mem.Memory.Sql.{Sorter, IsSorter, Ascends, Descends}

module _ {A : Type 0} (key : A → ℕ) where
  abbrev place_up : A → List A → List A
  place_up x [] = x ∷ []
  place_up x (y ∷ ys) =
      let rest = place_up x ys in if leb (key x) (key y) then x ∷ y ∷ ys else y ∷ rest

  abbrev sort_up : List A → List A
  sort_up [] = []
  sort_up (x ∷ xs) = place_up x (sort_up xs)

  abbrev place_down : A → List A → List A
  place_down x [] = x ∷ []
  place_down x (y ∷ ys) =
      let rest = place_down x ys in if leb (key y) (key x) then x ∷ y ∷ ys else y ∷ rest

  abbrev sort_down : List A → List A
  sort_down [] = []
  sort_down (x ∷ xs) = place_down x (sort_down xs)

  count-place_up : (p : A → Bool) (x : A) (ys : List A) → count p (place_up x ys) ≡ count p (x ∷ ys)
  count-place_up p x [] = refl
  count-place_up p x (y ∷ ys) = ground (arith, count-place_up p x ys)

  count-sort_up : (p : A → Bool) (xs : List A) → count p (sort_up xs) ≡ count p xs
  count-sort_up p [] = refl
  count-sort_up p (x ∷ xs) = ground (arith, count-place_up p x (sort_up xs), count-sort_up p xs)

  count-place_down :
      (p : A → Bool) (x : A) (ys : List A) → count p (place_down x ys) ≡ count p (x ∷ ys)
  count-place_down p x [] = refl
  count-place_down p x (y ∷ ys) = ground (arith, count-place_down p x ys)

  count-sort_down : (p : A → Bool) (xs : List A) → count p (sort_down xs) ≡ count p xs
  count-sort_down p [] = refl
  count-sort_down p (x ∷ xs) =
      ground (arith, count-place_down p x (sort_down xs), count-sort_down p xs)

  place_up-All :
      (b : ℕ) (x : A) (ys : List A)
      → b ≤ key x
      → All (λ y. b ≤ key y) ys
      → All (λ y. b ≤ key y) (place_up x ys)
  place_up-All b x [] h k = (h, tt)
  place_up-All b x (y ∷ ys) h (k, ks) =
      if_both (λ (zs : List A). All (λ y. b ≤ key y) zs) (leb (key x) (key y)) _ _
        (λ _. (h, (k, ks))) (λ _. (k, place_up-All b x ys h ks))

  place_down-All :
      (b : ℕ) (x : A) (ys : List A)
      → key x ≤ b
      → All (λ y. key y ≤ b) ys
      → All (λ y. key y ≤ b) (place_down x ys)
  place_down-All b x [] h k = (h, tt)
  place_down-All b x (y ∷ ys) h (k, ks) =
      if_both (λ (zs : List A). All (λ y. key y ≤ b) zs) (leb (key y) (key x)) _ _
        (λ _. (h, (k, ks))) (λ _. (k, place_down-All b x ys h ks))

  place_up-Ascends : (x : A) (ys : List A) → Ascends key ys → Ascends key (place_up x ys)
  place_up-Ascends x [] h = (tt, tt)
  place_up-Ascends x (y ∷ ys) (h, hs) =
      if_both (λ (zs : List A). Ascends key zs) (leb (key x) (key y)) _ _
        (λ le. (
          (ground arith, All-map _ _ ys (λ z k. omega (arith, k, leb→le (key x) (key y) le)) h),
          (h, hs),
        ))
        (λ gt. (place_up-All (key y) x ys (ground arith) h, place_up-Ascends x ys hs))

  place_down-Descends : (x : A) (ys : List A) → Descends key ys → Descends key (place_down x ys)
  place_down-Descends x [] h = (tt, tt)
  place_down-Descends x (y ∷ ys) (h, hs) =
      if_both (λ (zs : List A). Descends key zs) (leb (key y) (key x)) _ _
        (λ le. (
          (ground arith, All-map _ _ ys (λ z k. omega (arith, k, leb→le (key y) (key x) le)) h),
          (h, hs),
        ))
        (λ gt. (place_down-All (key y) x ys (ground arith) h, place_down-Descends x ys hs))

  sort_up-Ascends : (xs : List A) → Ascends key (sort_up xs)
  sort_up-Ascends [] = tt
  sort_up-Ascends (x ∷ xs) = place_up-Ascends x (sort_up xs) (sort_up-Ascends xs)

  sort_down-Descends : (xs : List A) → Descends key (sort_down xs)
  sort_down-Descends [] = tt
  sort_down-Descends (x ∷ xs) = place_down-Descends x (sort_down xs) (sort_down-Descends xs)

abbrev pub insertion : Sorter
insertion = record { ascending = λ key xs. sort_up key xs; descending = λ key xs. sort_down key xs }

pub insertion-IsSorter : IsSorter insertion
insertion-IsSorter = record {
  count_ascending = λ key p xs. count-sort_up key p xs;
  count_descending = λ key p xs. count-sort_down key p xs;
  ascends = λ key xs. sort_up-Ascends key xs;
  descends = λ key xs. sort_down-Descends key xs;
}
