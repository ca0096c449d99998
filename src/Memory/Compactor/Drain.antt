-- ===== src/Memory/Compactor/Drain.antt =====
-- A pass of the compaction keeps the tables valid and rolls up the oldest messages, and passes reach
-- the messages that are to be kept, unless a pass pulls no more than those.
use claw_mem.Prelude.{
  All-every, count-keep_if, count-append, keep_if-same, count, length, keep_if, if_both, ℕ, String,
  ◌≡◌, refl, sym, ap, ◌∙◌, Bool, false, not, ◌&&◌, List, [], ◌∷◌, ◌++◌, arith, drop, true, eqb,
  Result,
}
use claw_mem.Memory.Types.{Observation}
use claw_mem.Memory.Sql.{Sorter, IsSorter}
use claw_mem.Memory.Observations.{
  MemoryDb, ids, has_id, insert, is_candidate, row_of, is_uncompacted_chat, mark_compacted,
  prune_compacted_low_value,
}
use claw_mem.Memory.Observations.Rows.{IsValid}
use claw_mem.Memory.Observations.Prune.{prune_compacted_low_value-only}
use claw_mem.Memory.Observations.Valid.{mark_compacted-IsValid, insert-IsValid, prune-IsValid}
use claw_mem.Memory.Compactor.{
  CompactionConfig, CompactionResult, Writer, plan, roll_up, prune_after, run_chat_compaction,
  compaction_input,
}
use claw_mem.Memory.Compactor.Passes.{keep_if-mark, waiting, rolled, oldest_first, left-plan}

length-zero : (os : List Observation) → eqb (length os) 0 ≡ true → os ≡ []
length-zero [] h = refl
length-zero (o ∷ os) h = ground arith

-- Messages of the agent that wait and are of a second in the set.
abbrev pub waiting_at : String → (ℕ → Bool) → List Observation → ℕ
waiting_at agent t os = count (λ o. is_uncompacted_chat agent o && t o.created_at_epoch) os

module _ (order : Sorter) (laws : IsSorter order) where
  -- A prune takes away no message that waits.
  prune-waiting :
      (agent : String) (t : ℕ → Bool) (min_importance keep_recent : ℕ) (db : MemoryDb)
      → IsValid db
      → waiting_at agent t
          (prune_compacted_low_value order agent min_importance keep_recent db).1.observations
        ≡ waiting_at agent t db.observations
  prune-waiting agent t min_importance keep_recent db v =
      let apart : (os : List Observation)
          → waiting_at agent t os
            ≡ waiting_at agent t (keep_if (λ o. not (is_candidate agent min_importance o)) os) =
        λ os.
          ap length (keep_if-same _ _ os (All-every _ os (λ o. ground arith)))
          ∙ sym (
              count-keep_if (λ o. not (is_candidate agent min_importance o))
                (λ o. is_uncompacted_chat agent o && t o.created_at_epoch) os) in
      apart _
      ∙ ap (waiting_at agent t)
          (prune_compacted_low_value-only order laws agent min_importance keep_recent db v)
      ∙ sym (apart _)

  module _ (w : Writer) (digest : String → String) (iso : ℕ → String) where
    module _ (agent : String) (started now : ℕ) where
      -- The tables once a batch is rolled up.
      abbrev rolled_up : List Observation → MemoryDb → MemoryDb
      rolled_up os db =
          (mark_compacted (ids os) db.next_id
            (insert digest iso now (compaction_input w agent started os) db).1).1

      rolled_up-IsValid :
          (os : List Observation) (db : MemoryDb) → IsValid db → IsValid (rolled_up os db)
      rolled_up-IsValid os db v =
          mark_compacted-IsValid (ids os) db.next_id _ (insert-IsValid digest iso now _ db v)

      -- The observation that stands for a batch is no message.
      rolled_up-waiting :
          (t : ℕ → Bool) (os : List Observation) (db : MemoryDb)
          → waiting_at agent t (rolled_up os db).observations
            ≡ count
                (λ o.
                  is_uncompacted_chat agent o
                  && (not (has_id (ids os) o.id) && t o.created_at_epoch))
                db.observations
      unfolding mark_compacted insert
      rolled_up-waiting t os db =
          let input = compaction_input w agent started os in
          let test : Observation → Bool = λ o.
            is_uncompacted_chat agent o && (not (has_id (ids os) o.id) && t o.created_at_epoch) in
          let marked =
            keep_if-mark agent t (ids os) db.next_id
              (db.observations ++ (row_of digest iso db.next_id now input ∷ [])) in
          let parts =
            count-append test db.observations (row_of digest iso db.next_id now input ∷ []) in
          let none : count test (row_of digest iso db.next_id now input ∷ []) ≡ 0 = ground arith in
          omega arith

      module _ (cfg : CompactionConfig) (db : MemoryDb) where
        abbrev pub after : MemoryDb
        after = (run_chat_compaction w digest iso order cfg agent started now false false db).1

        pruned-waiting :
            (t : ℕ → Bool) (d : MemoryDb)
            → IsValid d
            → waiting_at agent t (prune_after w digest iso order cfg agent false d).1.observations
              ≡ waiting_at agent t d.observations
        unfolding prune_after
        pruned-waiting t d v =
            if_both
              (λ (r : ℕ × MemoryDb).
                waiting_at agent t r.1.observations ≡ waiting_at agent t d.observations)
              cfg.delete_compacted_low_value _ _
              (λ _. prune-waiting agent t cfg.min_importance_to_keep cfg.keep_recent_raw d v)
              (λ _. refl)

        pruned-IsValid :
            (d : MemoryDb)
            → IsValid d
            → IsValid (prune_after w digest iso order cfg agent false d).1
        unfolding prune_after
        pruned-IsValid d v =
            if_both (λ (r : ℕ × MemoryDb). IsValid r.1) cfg.delete_compacted_low_value _ _
              (λ _. prune-IsValid order agent cfg.min_importance_to_keep cfg.keep_recent_raw d v)
              (λ _. v)

        abbrev batch : List Observation
        batch = plan order cfg agent db

        -- What holds without a batch and behind one holds behind a pass.
        after-both :
            (P : MemoryDb → Type 0)
            → (eqb (length batch) 0 ≡ true → P db)
            → P (prune_after w digest iso order cfg agent false (rolled_up batch db)).1
            → P after
        unfolding run_chat_compaction roll_up mark_compacted insert
        after-both P h k =
            if_both (λ (r : Result String CompactionResult × MemoryDb). P r.1)
              (eqb (length batch) 0) _ _ h (λ _. k)

        -- A pass keeps the ids of the table distinct.
        pub after-IsValid : IsValid db → IsValid after
        after-IsValid v =
            after-both IsValid (λ _. v) (pruned-IsValid _ (rolled_up-IsValid batch db v))

        -- What waits behind a pass: the messages behind the first of the table's order.
        pub after-waiting :
            (t : ℕ → Bool)
            → cfg.chat_memory_enabled ≡ true
            → cfg.enabled ≡ true
            → IsValid db
            → waiting_at agent t after.observations
              ≡ count
                  (λ o. t o.created_at_epoch)
                  (drop (rolled cfg (waiting agent db)) (oldest_first order laws agent db))
        after-waiting t on also v =
            let left = left-plan order laws agent db cfg t on also v in
            after-both
              (λ (d : MemoryDb).
                waiting_at agent t d.observations
                ≡ count (λ o. t o.created_at_epoch)
                    (drop (rolled cfg (waiting agent db)) (oldest_first order laws agent db)))
              (λ h.
                ap
                  (λ os.
                    count
                      (λ o.
                        is_uncompacted_chat agent o
                        && (not (has_id (ids os) o.id) && t o.created_at_epoch))
                      db.observations)
                  (sym (length-zero batch h))
                ∙ left)
              (pruned-waiting t _ (rolled_up-IsValid batch db v)
                ∙ rolled_up-waiting t batch db
                ∙ left)
