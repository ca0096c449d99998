-- ===== src/Memory/Archives/Kept.antt =====
-- What the prune of the backup archives keeps.
use claw_mem.Prelude.{
  count_mono, count, ltb, eqb, length, take, keep_if, All, if_both, ℕ, zero, suc, ◌≤◌, ◌≡◌, refl,
  sym, ◌∙◌, Bool, false, not, List, [], ◌∷◌, arith, keep_if-keep_if, All-every, count-keep_if,
  keep_if-same, String, ap, subst, ◌&&◌, count-All, true, eq_iff, count-none, All-map, All-both,
  count-split, count-take-drop, leb, drop, ◌<◌,
}
use claw_mem.Memory.Sql.{Sorter, IsSorter}
use claw_mem.Memory.Sql.Laws.{take-Descends}
use claw_mem.Memory.Archives.{
  BackupArchive, Archives, PruneOptions, is_asked, is_of, row_number, partition, is_expired, prune,
}
use claw_mem.Memory.Archives.Rows.{Distinct, is_in, picked, numbered, All-negated}

-- Old enough, and of an agent that the prune asks for.
abbrev pub is_eligible : PruneOptions → BackupArchive → Bool
is_eligible opts r = is_asked opts.agent r && ltb r.created_at_epoch opts.cutoff_epoch

-- The rows of an agent of a second, and of that second or later.
abbrev pub is_at : String → ℕ → BackupArchive → Bool
is_at agent e r = is_of agent r && eqb r.created_at_epoch e

abbrev pub is_since : String → ℕ → BackupArchive → Bool
is_since agent e r = is_of agent r && leb e r.created_at_epoch

-- What a prune may leave of a table: at least so many rows of every agent; where a row of an agent is
-- gone, so many of the agent that are as new or newer; and all that are not eligible, in their order.
pub record Keeps (opts : PruneOptions) (before after : List BackupArchive) : Type 0 where
  pub enough :
      (agent : String)
      → length (take opts.keep_latest (keep_if (is_of agent) before)) ≤ count (is_of agent) after
  pub newest :
      (agent : String) (e : ℕ)
      → count (is_at agent e) after < count (is_at agent e) before
      → opts.keep_latest ≤ count (is_since agent e) after
  pub others :
      keep_if (λ r. not (is_eligible opts r)) after ≡ keep_if (λ r. not (is_eligible opts r)) before

-- Each of the first `n` is numbered up to `n`.
numbered-All :
    (n : ℕ) (xs : List BackupArchive) → All (λ r. ltb n (row_number r.id xs) ≡ false) (take n xs)
numbered-All zero xs = tt
numbered-All (suc n) [] = tt
numbered-All (suc n) (x ∷ xs) =
    (ground arith, All-map _ _ (take n xs) (λ r h. ground arith) (numbered-All n xs))

all_counted :
    (p : BackupArchive → Bool) (n : ℕ) (xs : List BackupArchive)
    → length (take n (keep_if p xs)) ≤ count p xs
all_counted p zero xs = omega arith
all_counted p (suc n) [] = omega arith
all_counted p (suc n) (x ∷ xs) = ground (arith, all_counted p n xs, all_counted p (suc n) xs)

module _ (order : Sorter) (laws : IsSorter order) (opts : PruneOptions) where
  length-take_mono :
      (n : ℕ) (xs ys : List BackupArchive)
      → length xs ≡ length ys
      → length (take n xs) ≡ length (take n ys)
  length-take_mono zero xs ys h = refl
  length-take_mono (suc n) [] [] h = refl
  length-take_mono (suc n) [] (y ∷ ys) h = omega arith
  length-take_mono (suc n) (x ∷ xs) [] h = omega arith
  length-take_mono (suc n) (x ∷ xs) (y ∷ ys) h = ap suc (length-take_mono n xs ys (omega arith))

  length-partition :
      (agent : String) (rows : List BackupArchive)
      → length (partition order agent rows) ≡ length (keep_if (is_of agent) rows)
  length-partition agent rows =
      sym (count-All (λ r. true) (partition order agent rows) (All-every _ _ (λ r. refl)))
      ∙ laws.count_descending (λ r. r.created_at_epoch) (λ r. true) (keep_if (is_of agent) rows)
      ∙ count-All (λ r. true) (keep_if (is_of agent) rows) (All-every _ _ (λ r. refl))

  stays :
      (agent : String) (rows : List BackupArchive) (r : BackupArchive)
      → is_of agent r && not (ltb opts.keep_latest (row_number r.id (partition order agent rows)))
        ≡ true
      → not (is_expired order opts rows r) && is_of agent r ≡ true
  stays agent rows r h =
      let same : r.agent_id ≡ agent = (eq_iff r.agent_id agent).0 (ground arith) in
      let moved =
        subst
          (λ a.
            is_of agent r && not (ltb opts.keep_latest (row_number r.id (partition order a rows)))
            ≡ true)
          (sym same) h in
      ground arith

  -- An expired row of an agent is numbered behind those that are kept.
  late :
      (agent : String) (rows : List BackupArchive) (r : BackupArchive) (e : ℕ)
      → is_at agent e r && is_expired order opts rows r ≡ true
      → is_of agent r
          && (eqb r.created_at_epoch e
              && ltb opts.keep_latest (row_number r.id (partition order agent rows)))
        ≡ true
  late agent rows r e h =
      let same : r.agent_id ≡ agent = (eq_iff r.agent_id agent).0 (ground arith) in
      let number : ltb opts.keep_latest (row_number r.id (partition order r.agent_id rows)) ≡ true =
        ground arith in
      let moved =
        subst (λ a. ltb opts.keep_latest (row_number r.id (partition order a rows)) ≡ true) same
          number in
      ground arith

  enough :
      (agent : String) (rows : List BackupArchive)
      → length (take opts.keep_latest (keep_if (is_of agent) rows))
        ≤ count (λ r. not (is_expired order opts rows r) && is_of agent r) rows
  enough agent rows =
      let p : BackupArchive → Bool =
        λ r. not (ltb opts.keep_latest (row_number r.id (partition order agent rows))) in
      let first = numbered opts.keep_latest (partition order agent rows) in
      let whole = laws.count_descending (λ r. r.created_at_epoch) p (keep_if (is_of agent) rows) in
      let own = count-keep_if (is_of agent) p rows in
      let size =
        length-take_mono opts.keep_latest (partition order agent rows) (keep_if (is_of agent) rows)
          (length-partition agent rows) in
      let more =
        count_mono (λ r. is_of agent r && p r)
          (λ r. not (is_expired order opts rows r) && is_of agent r) rows
          (λ r h. stays agent rows r h) in
      omega arith

  -- An expired row of a second stands behind the first rows of its agent.
  behind :
      (agent : String) (rows : List BackupArchive) (e : ℕ)
      → count (λ r. is_at agent e r && is_expired order opts rows r) rows
        ≤ count
            (λ r.
              eqb r.created_at_epoch e
              && ltb opts.keep_latest (row_number r.id (partition order agent rows)))
            (drop opts.keep_latest (partition order agent rows))
  behind agent rows e =
      let ranked = partition order agent rows in
      let test : BackupArchive → Bool =
        λ r. eqb r.created_at_epoch e && ltb opts.keep_latest (row_number r.id ranked) in
      let whole =
        laws.count_descending (λ r. r.created_at_epoch) test (keep_if (is_of agent) rows) in
      let own = count-keep_if (is_of agent) test rows in
      let fewer =
        count_mono (λ r. is_at agent e r && is_expired order opts rows r)
          (λ r. is_of agent r && test r) rows (λ r h. late agent rows r e h) in
      let parts = count-take-drop test opts.keep_latest ranked in
      let front : count test (take opts.keep_latest ranked) ≡ 0 =
        count-none test (take opts.keep_latest ranked)
          (All-map _ _ _ (λ r h. ground arith) (numbered-All opts.keep_latest ranked)) in
      omega arith

  -- Where one expires, the first rows of its agent are as many as are to be kept, none older.
  ahead :
      (agent : String) (rows : List BackupArchive) (e : ℕ)
      → 1 ≤ count (λ r. is_at agent e r && is_expired order opts rows r) rows
      → opts.keep_latest
        ≤ count (λ r. not (is_expired order opts rows r) && is_since agent e r) rows
  ahead agent rows e h =
      let ranked = partition order agent rows in
      let kept : BackupArchive → Bool =
        λ r. leb e r.created_at_epoch && not (ltb opts.keep_latest (row_number r.id ranked)) in
      let front = take opts.keep_latest ranked in
      let (since, full) =
        take-Descends (λ r. r.created_at_epoch)
          (λ r. eqb r.created_at_epoch e && ltb opts.keep_latest (row_number r.id ranked)) e
          opts.keep_latest ranked (laws.descends _ _) (λ r k. ground arith)
          (omega (arith, behind agent rows e, h)) in
      let all = count-All kept front (
        All-map _ _ front (λ r k. ground (arith, k.0, k.1))
          (All-both _ _ front since (numbered-All opts.keep_latest ranked))) in
      let parts = count-take-drop kept opts.keep_latest ranked in
      let whole =
        laws.count_descending (λ r. r.created_at_epoch) kept (keep_if (is_of agent) rows) in
      let own = count-keep_if (is_of agent) kept rows in
      let more =
        count_mono (λ r. is_of agent r && kept r)
          (λ r. not (is_expired order opts rows r) && is_since agent e r) rows
          (λ r k. let s = stays agent rows r (ground arith) in ground arith) in
      omega arith

  unpruned : (rows : List BackupArchive) → Keeps opts rows rows
  unpruned rows = record {
    enough = λ agent. all_counted (is_of agent) opts.keep_latest rows;
    newest = λ agent e h. absurd (omega (arith, h));
    others = refl;
  }

  pruned-newest :
      (rows : List BackupArchive) (agent : String) (e : ℕ)
      → count (is_at agent e) (keep_if (λ r. not (is_expired order opts rows r)) rows)
        < count (is_at agent e) rows
      → opts.keep_latest
        ≤ count (is_since agent e) (keep_if (λ r. not (is_expired order opts rows r)) rows)
  pruned-newest rows agent e h =
      let kept = count-keep_if (λ r. not (is_expired order opts rows r)) (is_at agent e) rows in
      let swapped =
        count_mono (λ r. is_at agent e r && not (is_expired order opts rows r))
          (λ r. not (is_expired order opts rows r) && is_at agent e r) rows (λ r k. ground arith) in
      let split = count-split (is_at agent e) (is_expired order opts rows) rows in
      rw (count-keep_if (λ r. not (is_expired order opts rows r)) (is_since agent e) rows)
        (ahead agent rows e (omega arith))

  pruned :
      (rows : List BackupArchive)
      → Keeps opts rows (keep_if (λ r. not (is_expired order opts rows r)) rows)
  pruned rows = record {
    enough = λ agent.
        rw (count-keep_if (λ r. not (is_expired order opts rows r)) (is_of agent) rows)
          (enough agent rows);
    newest = pruned-newest rows;
    others =
        rw
          (keep_if-keep_if (λ r. not (is_expired order opts rows r)) (λ r. not (is_eligible opts r))
            rows)
          (keep_if-same _ _ rows (All-every _ _ (λ r. ground arith)));
  }

  -- Where ids differ: a prune leaves of every agent at least `keep_latest` rows, or all where there are
  -- fewer; where it deletes a row, at least `keep_latest` rows of its agent are left that are of the same
  -- second or later; and it leaves every row that is not before the cutoff or not of the agent asked for.
  pub prune-Keeps :
      (db : Archives) → Distinct db.rows → Keeps opts db.rows (prune order opts db).1.rows
  unfolding prune
  prune-Keeps db u =
      let same = keep_if-same _ _ db.rows (
        All-negated (is_in (keep_if (is_expired order opts db.rows) db.rows))
          (is_expired order opts db.rows) db.rows
          (picked (is_expired order opts db.rows) db.rows u)) in
      if_both (λ (out : (List BackupArchive × ℕ) × Archives). Keeps opts db.rows out.1.rows) _ _ _
        (λ h. unpruned db.rows) (λ h. subst (Keeps opts db.rows) (sym same) (pruned db.rows))
