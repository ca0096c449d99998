-- ===== src/Node/Order.antt =====
-- The orders in which the registries of nodes list them: `sort` of JavaScript is stable, and in a
-- table the names differ, so each order is the only one there is.
use claw_mem.Prelude.{
  if◌then◌else◌, ltb, eqb, any_of, ◌≡◌, refl, ◌∙◌, Bool, true, false, ◌&&◌, ◌||◌, List, [], ◌∷◌,
  arith, ℕ,
}
use claw_mem.Backup.Pattern.{codes}
use claw_mem.Node.Types.{NodeEntry}

-- Texts by their code points, as the bytes of UTF-8 order them.
abbrev pub precedes : List ℕ → List ℕ → Bool
precedes [] [] = false
precedes [] (d ∷ t) = true
precedes (c ∷ s) [] = false
precedes (c ∷ s) (d ∷ t) = ltb c d || (eqb c d && precedes s t)

module _ (before : NodeEntry → NodeEntry → Bool) where
  -- Behind all that are before it, and in front of all others.
  abbrev pub place_node : NodeEntry → List NodeEntry → List NodeEntry
  place_node x [] = x ∷ []
  place_node x (y ∷ ys) = let rest = place_node x ys in if before y x then y ∷ rest else x ∷ y ∷ ys

  abbrev pub sort_by : List NodeEntry → List NodeEntry
  sort_by [] = []
  sort_by (x ∷ xs) = place_node x (sort_by xs)

  any_of-place_node :
      (p : NodeEntry → Bool) (x : NodeEntry) (ys : List NodeEntry)
      → any_of p (place_node x ys) ≡ any_of p (x ∷ ys)
  any_of-place_node p x [] = refl
  any_of-place_node p x (y ∷ ys) = ground (arith, any_of-place_node p x ys)

  pub any_of-sort_by :
      (p : NodeEntry → Bool) (xs : List NodeEntry) → any_of p (sort_by xs) ≡ any_of p xs
  any_of-sort_by p [] = refl
  any_of-sort_by p (x ∷ xs) =
      any_of-place_node p x (sort_by xs) ∙ ground (arith, any_of-sort_by p xs)

-- `(a, b) => b.createdAtEpoch - a.createdAtEpoch`.
abbrev pub is_newer : NodeEntry → NodeEntry → Bool
is_newer a b = ltb b.created_at_epoch a.created_at_epoch

-- `ORDER BY created_at_epoch DESC, name DESC`.
abbrev pub is_first : NodeEntry → NodeEntry → Bool
is_first a b =
    ltb b.created_at_epoch a.created_at_epoch
    || (eqb a.created_at_epoch b.created_at_epoch && precedes (codes b.name) (codes a.name))
