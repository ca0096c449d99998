-- ===== src/Memory/Observations/Valid.antt =====
-- Every operation of the store keeps the ids of the table distinct and below the next one.
use claw_mem.Prelude.{
  All-map, eqb, keep_if, All, All-append, if_both, ℕ, ◌<◌, String, ◌≡◌, refl, sym, subst, Bool,
  false, List, [], ◌∷◌, ◌++◌, map, arith,
}
use claw_mem.Memory.Types.{Observation, ObservationInput}
use claw_mem.Memory.Sql.{Sorter}
use claw_mem.Memory.Observations.{
  MemoryDb, ids, has_id, mark, mark_compacted, insert, prune_compacted_low_value, to_delete,
  delete_by_session,
}
use claw_mem.Memory.Observations.Rows.{IsValid, Unique, absent-keep_if}

keep_if-Unique :
    (p : Observation → Bool) (os : List Observation) → Unique (ids os) → Unique (ids (keep_if p os))
keep_if-Unique p [] u = tt
keep_if-Unique p (o ∷ os) (a, u) =
    if_both (λ (xs : List Observation). Unique (ids xs)) (p o) _ _
      (λ _. (absent-keep_if p o.id os a, keep_if-Unique p os u)) (λ _. keep_if-Unique p os u)

keep_if-All :
    (P : Observation → Type 0) (p : Observation → Bool) (os : List Observation)
    → All P os
    → All P (keep_if p os)
keep_if-All P p [] h = tt
keep_if-All P p (o ∷ os) (h, hs) =
    if_both (λ (xs : List Observation). All P xs) (p o) _ _ (λ _. (h, keep_if-All P p os hs))
      (λ _. keep_if-All P p os hs)

keep_if-IsValid :
    (p : Observation → Bool) (db : MemoryDb)
    → IsValid db
    → IsValid (record db { observations = keep_if p db.observations })
keep_if-IsValid p db v = record {
  unique = keep_if-Unique p db.observations v.unique;
  below = keep_if-All _ p db.observations v.below;
}

module _ (n : ℕ) where
  absent :
      (o : Observation) (os : List Observation) (m : ℕ)
      → has_id (ids os) m ≡ false
      → eqb n m ≡ false
      → o.id ≡ n
      → has_id (ids (os ++ (o ∷ []))) m ≡ false
  absent o [] m h k e = ground arith
  absent o (q ∷ os) m h k e = ground (arith, absent o os m)

  append-Unique :
      (o : Observation) (os : List Observation)
      → o.id ≡ n
      → All (λ q. q.id < n) os
      → Unique (ids os)
      → Unique (ids (os ++ (o ∷ [])))
  append-Unique o [] e b u = (refl, tt)
  append-Unique o (q ∷ os) e (b, bs) (a, u) =
      (absent o os q.id a (ground arith) e, append-Unique o os e bs u)

mark-ids :
    (marked : List ℕ) (into : ℕ) (os : List Observation) → ids (map (mark marked into) os) ≡ ids os
mark-ids marked into [] = refl
mark-ids marked into (o ∷ os) = ground (arith, mark-ids marked into os)

mark-below :
    (marked : List ℕ) (into n : ℕ) (os : List Observation)
    → All (λ o. o.id < n) os
    → All (λ o. o.id < n) (map (mark marked into) os)
mark-below marked into n [] h = tt
mark-below marked into n (o ∷ os) (h, hs) = (ground arith, mark-below marked into n os hs)

pub mark_compacted-IsValid :
    (marked : List ℕ) (into : ℕ) (db : MemoryDb)
    → IsValid db
    → IsValid (mark_compacted marked into db).1
unfolding mark_compacted
mark_compacted-IsValid marked into db v = record {
  unique = subst Unique (sym (mark-ids marked into db.observations)) v.unique;
  below = mark-below marked into db.next_id db.observations v.below;
}

pub insert-IsValid :
    (digest : String → String) (iso : ℕ → String) (now : ℕ) (o : ObservationInput) (db : MemoryDb)
    → IsValid db
    → IsValid (insert digest iso now o db).1
unfolding insert
insert-IsValid digest iso now o db v = record {
  unique = append-Unique db.next_id _ db.observations refl v.below v.unique;
  below =
      All-append _ db.observations _ (All-map _ _ db.observations (λ q h. omega (arith, h)) v.below)
        (omega arith, tt);
}

pub prune-IsValid :
    (order : Sorter) (agent : String) (min_importance keep_recent : ℕ) (db : MemoryDb)
    → IsValid db
    → IsValid (prune_compacted_low_value order agent min_importance keep_recent db).1
unfolding prune_compacted_low_value to_delete
prune-IsValid order agent min_importance keep_recent db v = keep_if-IsValid _ db v

pub delete_by_session-IsValid :
    (session : String) (db : MemoryDb) → IsValid db → IsValid (delete_by_session session db).1
unfolding delete_by_session
delete_by_session-IsValid session db v = keep_if-IsValid _ db v
