-- ===== src/Memory/Observations/Rows.antt =====
-- Tables of observations whose ids differ: what picking rows by their ids picks.
use claw_mem.Prelude.{
  keep_if-same, count, eqb, take, drop, keep_if, All, ℕ, zero, suc, ◌≤◌, ◌<◌, ◌≡◌, refl, ap, ◌∙◌,
  Bool, true, false, not, List, [], ◌∷◌, arith, if_both, sym, All-map,
}
use claw_mem.Memory.Types.{Observation}
use claw_mem.Memory.Observations.{MemoryDb, ids, has_id}

abbrev pub Unique : List ℕ → Type 0
Unique [] = Unit
Unique (i ∷ is) = (has_id is i ≡ false) × Unique is

-- The ids differ and are below the next one.
pub record IsValid (db : MemoryDb) : Type 0 where
  pub unique : Unique (ids db.observations)
  pub below : All (λ o. o.id < db.next_id) db.observations

eqb_same : (n : ℕ) → eqb n n ≡ true
eqb_same n = ground arith

other_id :
    (x : ℕ) (os : List Observation) → has_id (ids os) x ≡ false → All (λ o. eqb x o.id ≡ false) os
other_id x [] h = tt
other_id x (o ∷ os) h = (ground arith, other_id x os (ground arith))

others_absent :
    (js : List ℕ) (x : ℕ) (os : List Observation)
    → All (λ o. eqb x o.id ≡ false) os
    → All (λ o. has_id (x ∷ js) o.id ≡ has_id js o.id) os
others_absent js x [] h = tt
others_absent js x (o ∷ os) (h, hs) = (rw h refl, others_absent js x os hs)

pub absent-keep_if :
    (f : Observation → Bool) (x : ℕ) (os : List Observation)
    → has_id (ids os) x ≡ false
    → has_id (ids (keep_if f os)) x ≡ false
absent-keep_if f x [] h = refl
absent-keep_if f x (o ∷ os) h = ground (arith, absent-keep_if f x os)

All-trans :
    (p q r : Observation → Bool) (os : List Observation)
    → All (λ o. p o ≡ q o) os
    → All (λ o. q o ≡ r o) os
    → All (λ o. p o ≡ r o) os
All-trans p q r [] h k = tt
All-trans p q r (o ∷ os) (h, hs) (k, ks) = (h ∙ k, All-trans p q r os hs ks)

abbrev Picks : (Observation → Bool) → List Observation → List ℕ → Type 0
Picks f os js = All (λ o. has_id js o.id ≡ f o) os

-- The ids of the rows that pass a test are those of no other row.
pub has_id-keep_if :
    (f : Observation → Bool) (os : List Observation)
    → Unique (ids os)
    → Picks f os (ids (keep_if f os))
has_id-keep_if f [] u = tt
has_id-keep_if f (o ∷ os) (a, u) =
    if_both (λ (xs : List Observation). Picks f (o ∷ os) (ids xs)) (f o) (o ∷ keep_if f os)
      (keep_if f os)
      (λ h. (
        ground (arith, eqb_same o.id),
        All-trans _ (λ q. has_id (ids (keep_if f os)) q.id) f os
            (others_absent (ids (keep_if f os)) o.id os (other_id o.id os a))
            (has_id-keep_if f os u),
      ))
      (λ h. (absent-keep_if f o.id os a ∙ sym h, has_id-keep_if f os u))

All-not :
    (p q : Observation → Bool) (os : List Observation)
    → All (λ o. p o ≡ q o) os
    → All (λ o. not (p o) ≡ not (q o)) os
All-not p q [] h = tt
All-not p q (o ∷ os) (h, hs) = (ap not h, All-not p q os hs)

-- Deleting the rows with the ids of those that pass a test deletes exactly those.
pub delete_ids :
    (f : Observation → Bool) (os : List Observation)
    → Unique (ids os)
    → keep_if (λ o. not (has_id (ids (keep_if f os)) o.id)) os ≡ keep_if (λ o. not (f o)) os
delete_ids f os u =
    keep_if-same _ _ os
      (All-not (λ o. has_id (ids (keep_if f os)) o.id) f os (has_id-keep_if f os u))

none_picked : (os : List Observation) → keep_if (λ o. not (has_id [] o.id)) os ≡ os
none_picked [] = refl
none_picked (o ∷ os) = ap (◌∷◌ o) (none_picked os)

-- Without the first rows of a list, picked by their ids, the others are left.
pub keep_if-drop :
    (n : ℕ) (os : List Observation)
    → Unique (ids os)
    → keep_if (λ o. not (has_id (ids (take n os)) o.id)) os ≡ drop n os
keep_if-drop zero os u = none_picked os
keep_if-drop (suc n) [] u = refl
keep_if-drop (suc n) (o ∷ os) (a, u) = rw (eqb_same o.id) (
    keep_if-same _ _ os
      (All-not _ _ os (others_absent (ids (take n os)) o.id os (other_id o.id os a)))
    ∙ keep_if-drop n os u)

-- The ids differ exactly when no id is counted twice.
count_absent :
    (i : ℕ) (os : List Observation) → has_id (ids os) i ≡ false → count (λ o. eqb o.id i) os ≡ 0
count_absent i [] h = refl
count_absent i (o ∷ os) h = ground (arith, count_absent i os)

present_counted :
    (i : ℕ) (os : List Observation) → has_id (ids os) i ≡ true → 1 ≤ count (λ o. eqb o.id i) os
present_counted i [] h = cc
present_counted i (o ∷ os) h = ground (arith, present_counted i os)

pub Unique-count :
    (os : List Observation) → Unique (ids os) → (i : ℕ) → count (λ o. eqb o.id i) os ≤ 1
Unique-count [] u i = omega arith
Unique-count (o ∷ os) (a, u) i = ground (arith, Unique-count os u i, count_absent i os)

pub count-Unique :
    (os : List Observation) → ((i : ℕ) → count (λ o. eqb o.id i) os ≤ 1) → Unique (ids os)
count-Unique [] h = tt
count-Unique (o ∷ os) h =
    (ground (arith, h o.id, present_counted o.id os), count-Unique os (λ i. ground (arith, h i)))

pub own_ids : (os : List Observation) → All (λ o. has_id (ids os) o.id ≡ true) os
own_ids [] = tt
own_ids (o ∷ os) =
    (ground (arith, eqb_same o.id), All-map _ _ os (λ q h. ground arith) (own_ids os))
