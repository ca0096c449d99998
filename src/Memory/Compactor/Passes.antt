-- ===== src/Memory/Compactor/Passes.antt =====
-- What passes of the compaction leave uncompacted.
use claw_mem.Prelude.{
  count-keep_if, count_mono, count, eqb, length, take, drop, keep_if, length-take, ℕ, zero, suc,
  ◌-◌, ◌≤◌, String, ◌≡◌, refl, sym, ap, ◌∙◌, Bool, not, ◌&&◌, List, [], ◌∷◌, map, arith, leb,
  min_of, if_both, true,
}
use claw_mem.Memory.Types.{Observation}
use claw_mem.Memory.Sql.{Sorter, IsSorter}
use claw_mem.Memory.Observations.{
  MemoryDb, ids, has_id, mark, is_uncompacted_chat, get_uncompacted_chat,
}
use claw_mem.Memory.Observations.Rows.{IsValid, Unique, Unique-count, count-Unique, keep_if-drop}
use claw_mem.Memory.Compactor.{CompactionConfig, compactable_of, pull_limit, plan}

-- The rows that are left to compact, once those of `marked` are.
pub keep_if-mark :
    (agent : String) (t : ℕ → Bool) (marked : List ℕ) (into : ℕ) (os : List Observation)
    → count (λ o. is_uncompacted_chat agent o && t o.created_at_epoch) (map (mark marked into) os)
      ≡ count
          (λ o. is_uncompacted_chat agent o && (not (has_id marked o.id) && t o.created_at_epoch))
          os
keep_if-mark agent t marked into [] = refl
keep_if-mark agent t marked into (o ∷ os) = ground (arith, keep_if-mark agent t marked into os)

length-compactable_of :
    (keep : ℕ) (batch : List Observation) → length (compactable_of keep batch) ≡ length batch - keep
length-compactable_of keep batch = ground (arith, length-take (length batch - keep) batch)

take-take : (n m : ℕ) (os : List Observation) → n ≤ m → take n (take m os) ≡ take n os
take-take zero m os h = refl
take-take (suc n) zero os h = ground arith
take-take (suc n) (suc m) [] h = refl
take-take (suc n) (suc m) (o ∷ os) h = ap (◌∷◌ o) (take-take n m os (omega arith))

length-count : (os : List Observation) → count (λ o. true) os ≡ length os
length-count [] = refl
length-count (o ∷ os) = ap suc (length-count os)

-- The chat rows of the agent that no compaction has rolled up, and how many of them a pass rolls up.
abbrev pub waiting : String → MemoryDb → ℕ
waiting agent db = count (is_uncompacted_chat agent) db.observations

abbrev pub rolled : CompactionConfig → ℕ → ℕ
rolled cfg n = min_of (pull_limit cfg) n - cfg.keep_recent_raw

module _ (order : Sorter) (laws : IsSorter order) where
  module _ (agent : String) (db : MemoryDb) where
    abbrev pub oldest_first : List Observation
    oldest_first =
        order.ascending (λ o. o.created_at_epoch)
          (keep_if (is_uncompacted_chat agent) db.observations)

    Unique-oldest_first : IsValid db → Unique (ids oldest_first)
    Unique-oldest_first v = count-Unique oldest_first (λ i. omega (
      arith,
      laws.count_ascending (λ o. o.created_at_epoch) (λ o. eqb o.id i)
          (keep_if (is_uncompacted_chat agent) db.observations),
      count-keep_if (is_uncompacted_chat agent) (λ o. eqb o.id i) db.observations,
      count_mono (λ o. is_uncompacted_chat agent o && eqb o.id i) (λ o. eqb o.id i) db.observations
          (λ o h. ground arith),
      Unique-count db.observations v.unique i,
    ))

    -- Rolling up the first `n` leaves the others.
    left_over :
        (t : ℕ → Bool) (n : ℕ)
        → IsValid db
        → count
            (λ o.
              is_uncompacted_chat agent o
              && (not (has_id (ids (take n oldest_first)) o.id) && t o.created_at_epoch))
            db.observations
          ≡ count (λ o. t o.created_at_epoch) (drop n oldest_first)
    left_over t n v =
        let marked = ids (take n oldest_first) in
        let others : Observation → Bool = λ o. not (has_id marked o.id) && t o.created_at_epoch in
        sym (count-keep_if (is_uncompacted_chat agent) others db.observations)
        ∙ sym (
            laws.count_ascending (λ o. o.created_at_epoch) others
              (keep_if (is_uncompacted_chat agent) db.observations))
        ∙ sym
            (count-keep_if (λ o. not (has_id marked o.id)) (λ o. t o.created_at_epoch) oldest_first)
        ∙ ap (count (λ o. t o.created_at_epoch))
            (keep_if-drop n oldest_first (Unique-oldest_first v))

    pub length-oldest_first : length oldest_first ≡ waiting agent db
    length-oldest_first = omega (
      arith,
      length-count oldest_first,
      laws.count_ascending (λ o. o.created_at_epoch) (λ o. true)
          (keep_if (is_uncompacted_chat agent) db.observations),
      length-count (keep_if (is_uncompacted_chat agent) db.observations),
    )

    length-pulled : (n : ℕ) → length (take n oldest_first) ≡ min_of n (waiting agent db)
    length-pulled n = ground (arith, length-take n oldest_first, length-oldest_first)

    -- A pass rolls up the first `rolled` of the rows that wait.
    plan-take :
        (cfg : CompactionConfig)
        → cfg.chat_memory_enabled ≡ true
        → cfg.enabled ≡ true
        → plan order cfg agent db ≡ take (rolled cfg (waiting agent db)) oldest_first
    unfolding plan get_uncompacted_chat
    plan-take cfg on also =
        rw (on, also)
          (if_both
            (λ (os : List Observation). os ≡ take (rolled cfg (waiting agent db)) oldest_first)
            (leb (length (take (pull_limit cfg) oldest_first)) cfg.keep_recent_raw) _ _
            (λ h.
              let short : 0 ≡ rolled cfg (waiting agent db) =
                ground (arith, length-pulled (pull_limit cfg)) in
              ap (λ k. take k oldest_first) short)
            (λ h.
              take-take _ (pull_limit cfg) oldest_first
                (omega (arith, length-take (pull_limit cfg) oldest_first))
              ∙ ap (λ k. take (k - cfg.keep_recent_raw) oldest_first)
                  (length-pulled (pull_limit cfg))))

    pub length-plan :
        (cfg : CompactionConfig)
        → cfg.chat_memory_enabled ≡ true
        → cfg.enabled ≡ true
        → length (plan order cfg agent db) ≡ rolled cfg (waiting agent db)
    length-plan cfg on also = rw (plan-take cfg on also) (
        ground
          (arith, length-take (rolled cfg (waiting agent db)) oldest_first, length-oldest_first))

    -- What waits once the rows of a plan are marked.
    pub left-plan :
        (cfg : CompactionConfig) (t : ℕ → Bool)
        → cfg.chat_memory_enabled ≡ true
        → cfg.enabled ≡ true
        → IsValid db
        → count
            (λ o.
              is_uncompacted_chat agent o
              && (not (has_id (ids (plan order cfg agent db)) o.id) && t o.created_at_epoch))
            db.observations
          ≡ count (λ o. t o.created_at_epoch) (drop (rolled cfg (waiting agent db)) oldest_first)
    left-plan cfg t on also v = rw (plan-take cfg on also) (left_over t _ v)
