-- ===== src/Memory/Observations/Prune.antt =====
-- What the prune of compacted chat rows keeps.
use claw_mem.Prelude.{
  keep_if-keep_if, keep_if, ℕ, String, ◌≡◌, Bool, not, ◌&&◌, List, count-keep_if, count_mono,
  count-take-drop, count, leb, eqb, take, drop, ◌≤◌, ◌<◌, arith, count-none, All-map, All-both,
  All-every, count-split, count-All, keep_if-same, sym,
}
use claw_mem.Memory.Types.{Observation}
use claw_mem.Memory.Sql.{Sorter, IsSorter}
use claw_mem.Memory.Sql.Laws.{take-Descends}
use claw_mem.Memory.Observations.{
  MemoryDb, ids, has_id, is_chat, is_candidate, recent_chat, to_delete, prune_compacted_low_value,
}
use claw_mem.Memory.Observations.Rows.{IsValid, delete_ids, own_ids}

abbrev pub is_of_second : ℕ → Observation → Bool
is_of_second e o = eqb o.created_at_epoch e

abbrev pub is_since : ℕ → Observation → Bool
is_since e o = leb e o.created_at_epoch

module _ (order : Sorter) (laws : IsSorter order) where
  module _ (agent : String) (min_importance keep_recent : ℕ) (db : MemoryDb) where
    abbrev newest_first : List Observation
    newest_first =
        order.descending (λ o. o.created_at_epoch) (keep_if (is_chat agent) db.observations)

    abbrev is_protected : Observation → Bool
    is_protected o = has_id (ids (recent_chat order agent keep_recent db)) o.id

    abbrev is_doomed : Observation → Bool
    is_doomed o = is_candidate agent min_importance o && not (is_protected o)

    abbrev after : List Observation
    after = (prune_compacted_low_value order agent min_importance keep_recent db).1.observations

    after-doomed : IsValid db → after ≡ keep_if (λ o. not (is_doomed o)) db.observations
    unfolding prune_compacted_low_value to_delete
    after-doomed v =
        rw
          (keep_if-keep_if (is_candidate agent min_importance) (λ o. not (is_protected o))
            db.observations)
          (delete_ids is_doomed db.observations v.unique)

    -- The rows of a second that were deleted stood behind the protected ones.
    behind :
        (e : ℕ)
        → count (λ o. is_of_second e o && is_doomed o) db.observations
          ≤ count (λ o. is_of_second e o && not (is_protected o)) (drop keep_recent newest_first)
    behind e =
        let test : Observation → Bool = λ o. is_of_second e o && not (is_protected o) in
        let whole =
          laws.count_descending (λ o. o.created_at_epoch) test
            (keep_if (is_chat agent) db.observations) in
        let chats = count-keep_if (is_chat agent) test db.observations in
        let fewer =
          count_mono (λ o. is_of_second e o && is_doomed o) (λ o. is_chat agent o && test o)
            db.observations (λ o h. ground arith) in
        let parts = count-take-drop test keep_recent newest_first in
        let front : count test (take keep_recent newest_first) ≡ 0 =
          count-none test (take keep_recent newest_first)
            (All-map _ _ _ (λ o h. ground arith) (own_ids (take keep_recent newest_first))) in
        omega arith

    spared :
        (e : ℕ)
        → IsValid db
        → count (λ o. is_since e o && is_protected o) newest_first
          ≤ count (λ o. is_chat agent o && is_since e o) after
    spared e v =
        let test : Observation → Bool = λ o. is_since e o && is_protected o in
        let whole =
          laws.count_descending (λ o. o.created_at_epoch) test
            (keep_if (is_chat agent) db.observations) in
        let chats = count-keep_if (is_chat agent) test db.observations in
        let fewer =
          count_mono (λ o. is_chat agent o && test o)
            (λ o. not (is_doomed o) && (is_chat agent o && is_since e o)) db.observations
            (λ o h. ground arith) in
        rw
          (
            after-doomed v,
            count-keep_if (λ o. not (is_doomed o)) (λ o. is_chat agent o && is_since e o)
                db.observations,
          )
          (omega arith)

    -- Where ids differ: a prune deletes only rows that are compacted chat of the agent below the
    -- threshold; all others stay, in their order.
    pub prune_compacted_low_value-only :
        IsValid db
        → keep_if (λ o. not (is_candidate agent min_importance o)) after
          ≡ keep_if (λ o. not (is_candidate agent min_importance o)) db.observations
    prune_compacted_low_value-only v =
        rw
          (
            after-doomed v,
            keep_if-keep_if (λ o. not (is_doomed o))
                (λ o. not (is_candidate agent min_importance o)) db.observations,
          )
          (keep_if-same _ _ db.observations (All-every _ _ (λ o. ground arith)))

    -- Where a row of a second was deleted, the protected rows are `keep_recent`, none of them older.
    ahead :
        (e : ℕ)
        → 1 ≤ count (λ o. is_of_second e o && is_doomed o) db.observations
        → keep_recent ≤ count (λ o. is_since e o && is_protected o) newest_first
    ahead e h =
        let front = take keep_recent newest_first in
        let (since, full) =
          take-Descends (λ o. o.created_at_epoch) (λ o. is_of_second e o && not (is_protected o)) e
            keep_recent newest_first (laws.descends _ _) (λ o k. ground arith)
            (omega (arith, behind e, h)) in
        let all =
          count-All (λ o. is_since e o && is_protected o) front
            (All-map _ _ front (λ o k. ground (arith, k.0, k.1))
              (All-both _ _ front since (own_ids front))) in
        let parts =
          count-take-drop (λ o. is_since e o && is_protected o) keep_recent newest_first in
        omega arith

    -- Where ids differ and a prune deletes a row: at least `keep_recent` chat rows of the agent that are
    -- of the same second or later are left.
    pub prune_compacted_low_value-keeps :
        IsValid db
        → (e : ℕ) → count (is_of_second e) after < count (is_of_second e) db.observations
        → keep_recent ≤ count (λ o. is_chat agent o && is_since e o) after
    prune_compacted_low_value-keeps v e h =
        let fewer : count (is_of_second e) (keep_if (λ o. not (is_doomed o)) db.observations)
            < count (is_of_second e) db.observations =
          rw (sym (after-doomed v)) h in
        let kept = count-keep_if (λ o. not (is_doomed o)) (is_of_second e) db.observations in
        let swapped =
          count_mono (λ o. is_of_second e o && not (is_doomed o))
            (λ o. not (is_doomed o) && is_of_second e o) db.observations (λ o k. ground arith) in
        let split = count-split (is_of_second e) is_doomed db.observations in
        let found = ahead e (omega arith) in let left = spared e v in omega arith
