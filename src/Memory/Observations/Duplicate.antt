-- ===== src/Memory/Observations/Duplicate.antt =====
-- How long an observation keeps an equal one out.
use claw_mem.Prelude.{
  any_of, ℕ, ◌+◌, ◌/◌, ◌≤◌, String, ◌≡◌, refl, Bool, true, false, ◌&&◌, ◌||◌, List, [], ◌∷◌, ◌++◌,
  arith, ◌==◌, eq_refl,
}
use claw_mem.Memory.Types.{Observation, ObservationInput}
use claw_mem.Memory.Observations.{MemoryDb, insert, is_duplicate, is_after, row_of, compute_hash}

any_of-append :
    (p : Observation → Bool) (xs ys : List Observation)
    → any_of p (xs ++ ys) ≡ any_of p xs || any_of p ys
any_of-append p [] ys = refl
any_of-append p (x ∷ xs) ys = ground (arith, any_of-append p xs ys)

module _ (digest : String → String) (iso : ℕ → String) where
  -- An insertion counts for an equal observation, and what counted before counts on.
  is_duplicate-insert :
      (now later window : ℕ) (o : ObservationInput) (db : MemoryDb)
      → is_duplicate digest iso later o window (insert digest iso now o db).1
        ≡ is_duplicate digest iso later o window db || is_after later window (now / 1000)
  unfolding is_duplicate insert
  is_duplicate-insert now later window o db = ground (
    arith,
    any_of-append
        (λ r.
          (r.content_hash == compute_hash digest iso o) && is_after later window r.created_at_epoch)
        db.observations (row_of digest iso db.next_id now o ∷ []),
    eq_refl (compute_hash digest iso o),
  )

  -- An observation that was inserted is reported as a duplicate until a second before the window ends.
  pub insert-is_duplicate :
      (now later window : ℕ) (o : ObservationInput) (db : MemoryDb)
      → later + 1000 ≤ now + window
      → is_duplicate digest iso later o window (insert digest iso now o db).1 ≡ true
  insert-is_duplicate now later window o db h =
      rw (is_duplicate-insert now later window o db) (ground arith)

  -- Once the window has ended, an insertion no longer makes a duplicate of what was none.
  pub insert-is_duplicate_expired :
      (now later window : ℕ) (o : ObservationInput) (db : MemoryDb)
      → now + window ≤ later
      → is_duplicate digest iso later o window db ≡ false
      → is_duplicate digest iso later o window (insert digest iso now o db).1 ≡ false
  insert-is_duplicate_expired now later window o db h k =
      rw (is_duplicate-insert now later window o db, k) (ground arith)
