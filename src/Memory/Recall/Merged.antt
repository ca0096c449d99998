-- ===== src/Memory/Recall/Merged.antt =====
-- What is recalled: rows of the agent that wait for no compaction, none twice, and how many.
use claw_mem.Prelude.{
  leb, eqb, length, keep_if, All, length-append, All-append, if_both, ℕ, ◌+◌, ◌≤◌, ◌<◌, String, ◌≡◌,
  refl, ◌⊎◌, inl, inr, Bool, true, false, ◌&&◌, ◌||◌, List, [], ◌∷◌, ◌++◌, arith, ◌==◌,
  count-keep_if, count_mono, count-take-drop, ltb, max_of, take, length-take, All-take, Result, ok,
  err, Option, none, some, All-map,
}
use claw_mem.Memory.Types.{Observation}
use claw_mem.Memory.Observations.{ids, has_id, MemoryDb, get_recent}
use claw_mem.Memory.Observations.Rows.{Unique, count-Unique, Unique-count, IsValid}
use claw_mem.Memory.Recall.{
  hits_of, recall_options, recent, hybrid, merge_hits, merge_recent, Sorter, SearchOptions,
  recall_observations, SearchResult, RecallMode, units,
}
use claw_mem.Memory.Sql.{IsSorter}
use claw_mem.Memory.Sql.Laws.{All-descending}
use claw_mem.Memory.Search.{search_observations}
use claw_mem.Memory.Search.Words.{search_observations-IsAsked}

-- No id twice, every row of the agent and not compacted, at most `n` of them.
pub record IsRecall (agent : String) (n : ℕ) (os : List Observation) : Type 0 where
  pub distinct : Unique (ids os)
  pub own : All (λ o. (o.agent_id == agent) && eqb o.compacted 0 ≡ true) os
  pub few : length os ≤ n

absent-append :
    (o : Observation) (os : List Observation) (i : ℕ)
    → has_id (ids os) i ≡ false
    → eqb o.id i ≡ false
    → has_id (ids (os ++ (o ∷ []))) i ≡ false
absent-append o [] i h k = rw k refl
absent-append o (q ∷ os) i h k = ground (arith, absent-append o os i)

append-Unique :
    (o : Observation) (os : List Observation)
    → has_id (ids os) o.id ≡ false
    → Unique (ids os)
    → Unique (ids (os ++ (o ∷ [])))
append-Unique o [] h u = (refl, tt)
append-Unique o (q ∷ os) h (a, u) =
    (absent-append o os q.id a (ground arith), append-Unique o os (ground arith) u)

module _ (agent : String) where
  abbrev is_own : Observation → Bool
  is_own o = (o.agent_id == agent) && eqb o.compacted 0

  append-IsRecall :
      (n : ℕ) (o : Observation) (os : List Observation)
      → IsRecall agent n os
      → is_own o ≡ true
      → has_id (ids os) o.id ≡ false
      → length os < n
      → IsRecall agent n (os ++ (o ∷ []))
  append-IsRecall n o os v own new room = record {
    distinct = append-Unique o os new v.distinct;
    own = All-append _ os _ v.own (own, tt);
    few = omega (arith, length-append os (o ∷ []));
  }

  merge_hits-IsRecall :
      (n : ℕ) (merged hits : List Observation)
      → IsRecall agent n merged
      → All (λ o. is_own o ≡ true) hits
      → length merged + length hits ≤ n
      → IsRecall agent n (merge_hits merged hits)
  unfolding merge_hits
  merge_hits-IsRecall n merged [] v h k = v
  merge_hits-IsRecall n merged (o ∷ hits) v (h, hs) k =
      if_both (λ (os : List Observation). IsRecall agent n os) (has_id (ids merged) o.id) _ _
        (λ _. merge_hits-IsRecall n merged hits v hs (omega (arith, k)))
        (λ new.
          merge_hits-IsRecall n (merged ++ (o ∷ [])) hits
            (append-IsRecall n o merged v h new (omega (arith, k))) hs
            (omega (arith, length-append merged (o ∷ []), k)))

  merge_recent-IsRecall :
      (max n : ℕ) (merged rows : List Observation)
      → IsRecall agent n merged
      → All (λ o. is_own o ≡ true) rows
      → (max ≤ n)
      → length merged < max ⊎ length merged < n
      → IsRecall agent n (merge_recent max merged rows)
  unfolding merge_recent
  merge_recent-IsRecall max n merged [] v h m k = v
  merge_recent-IsRecall max n merged (o ∷ rows) v (h, hs) m k =
      if_both (λ (os : List Observation). IsRecall agent n os) (has_id (ids merged) o.id) _ _
        (λ _. merge_recent-IsRecall max n merged rows v hs m k)
        (λ new.
          let longer =
            append-IsRecall n o merged v h new
              (elim k [ inl below ↦ omega (arith, below, m) | inr room ↦ room ]) in
          if_both (λ (os : List Observation). IsRecall agent n os)
            (leb max (length (merged ++ (o ∷ [])))) _ _ (λ _. longer)
            (λ more.
              merge_recent-IsRecall max n (merged ++ (o ∷ [])) rows longer hs m
                (inl (ground arith))))

  own_rows :
      (os : List Observation)
      → All
          (λ o. is_own o ≡ true)
          (keep_if (λ o. (o.agent_id == agent) && (false || eqb o.compacted 0)) os)
  own_rows [] = tt
  own_rows (o ∷ os) =
      if_both (λ (xs : List Observation). All (λ q. is_own q ≡ true) xs)
        ((o.agent_id == agent) && eqb o.compacted 0) _ _ (λ h. (h, own_rows os)) (λ _. own_rows os)

Unique-take : (n : ℕ) (os : List Observation) → Unique (ids os) → Unique (ids (take n os))
Unique-take n os u =
    count-Unique (take n os)
      (λ i. omega (arith, count-take-drop (λ o. eqb o.id i) n os, Unique-count os u i))

-- A search, unless the database throws.
abbrev pub search_with :
    Sorter
    → (List ℕ → Observation → Bool)
    → (List ℕ → List Observation → Result String (List Observation))
    → Option String
    → SearchOptions
    → MemoryDb
    → Result String SearchResult
search_with order is_like matched none o db = ok (search_observations order is_like matched o db)
search_with order is_like matched (some e) o db = err e

module _ (order : Sorter) (laws : IsSorter order) where
  get_recent-IsRecall :
      (agent : String) (max : ℕ) (db : MemoryDb)
      → IsValid db
      → IsRecall agent max (get_recent order agent max false db)
  unfolding get_recent
  get_recent-IsRecall agent max db v =
      let key : Observation → ℕ = λ o. o.created_at_epoch in
      let test : Observation → Bool = λ o. (o.agent_id == agent) && (false || eqb o.compacted 0) in
      let rows = keep_if test db.observations in
      record {
        distinct = Unique-take max _ (
            count-Unique (order.descending key rows) (λ i. omega (
              arith,
              laws.count_descending key (λ o. eqb o.id i) rows,
              count-keep_if test (λ o. eqb o.id i) db.observations,
              count_mono (λ o. test o && eqb o.id i) (λ o. eqb o.id i) db.observations
                  (λ o h. ground arith),
              Unique-count db.observations v.unique i,
            )));
        own =
            All-take _ max _
              (All-descending order laws key (is_own agent) rows (own_rows agent db.observations));
        few = omega (arith, length-take max (order.descending key rows));
      }

  weaken :
      (agent : String) (m n : ℕ) (os : List Observation)
      → m ≤ n
      → IsRecall agent m os
      → IsRecall agent n os
  weaken agent m n os h v = record {
    distinct = v.distinct;
    own = v.own;
    few = omega (arith, h, v.few);
  }

  hits-own :
      (is_like : List ℕ → Observation → Bool)
      (matched : List ℕ → List Observation → Result String (List Observation))
      (thrown : Option String) (agent : String) (query : List ℕ) (search_limit : ℕ) (db : MemoryDb)
      → (agent == "") ≡ false
      → All
          (λ o. is_own agent o ≡ true)
          (hits_of
            (search_with order is_like matched thrown (recall_options agent query search_limit) db))
        × (length (
              hits_of (
                search_with order is_like matched thrown
                  (recall_options agent query search_limit)
                  db))
            ≤ search_limit)
  hits-own is_like matched none agent query search_limit db named =
      let (asked, few, _) =
        search_observations-IsAsked order laws is_like matched
          (recall_options agent query search_limit) db in
      (All-map _ _ _ (λ o h. ground (arith, h, named)) asked, few)
  hits-own is_like matched (some e) agent query search_limit db named = (tt, omega arith)

  -- Where ids differ and the agent has a name: recall returns rows of the agent that are not compacted,
  -- none twice, and no more than the larger of `max` and one more than the limit of the search,
  -- whether the search answers or throws.
  pub recall_observations-IsRecall :
      (is_like : List ℕ → Observation → Bool)
      (matched : List ℕ → List Observation → Result String (List Observation))
      (thrown : Option String) (agent : String) (query : List ℕ) (mode : RecallMode)
      (search_limit max : ℕ) (db : MemoryDb)
      → IsValid db
      → (agent == "") ≡ false
      → IsRecall agent (max_of max (search_limit + 1)) (
          recall_observations order
            (search_with order is_like matched thrown)
            agent
            query
            mode
            search_limit
            max
            db)
  unfolding recall_observations
  recall_observations-IsRecall is_like matched thrown agent query recent search_limit max db v
        named =
      weaken agent max _ _ (ground arith) (get_recent-IsRecall agent max db v)
  recall_observations-IsRecall is_like matched thrown agent query hybrid search_limit max db v
        named =
      let tail = get_recent-IsRecall agent max db v in
      if_both (λ (os : List Observation). IsRecall agent (max_of max (search_limit + 1)) os)
        (ltb (units query) 2) _ _ (λ _. weaken agent max _ _ (ground arith) tail)
        (λ _.
          let n = max_of max (search_limit + 1) in
          let (hits_own, hits_few) =
            hits-own is_like matched thrown agent query search_limit db named in
          let hits = hits_of (
            search_with order is_like matched thrown (recall_options agent query search_limit)
              db) in
          let empty : (m : ℕ) → IsRecall agent m [] =
            λ m. record { distinct = tt; own = tt; few = omega arith } in
          let few =
            merge_hits-IsRecall agent search_limit [] hits (empty search_limit) hits_own
              (omega (arith, hits_few)) in
          merge_recent-IsRecall agent max n (merge_hits [] hits)
            (get_recent order agent max false db) (weaken agent search_limit n _ (ground arith) few)
            tail.own (ground arith) (inr (ground (arith, few.few))))
