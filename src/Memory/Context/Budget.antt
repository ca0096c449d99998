-- ===== src/Memory/Context/Budget.antt =====
-- What is packed into the context: as much from the front as the budget takes.
use claw_mem.Prelude.{
  if◌then◌else◌, ◌∙◌, ltb, length, take, if_both, ℕ, suc, ◌+◌, ◌≤◌, ◌<◌, String, ◌≡◌, refl, ap, ◌⊎◌,
  inl, inr, List, [], ◌∷◌, arith, eqb, zero, sym, ◌&&◌,
}
use claw_mem.Memory.Types.{Observation}
use claw_mem.Memory.Context.{
  SessionSummary, MemoryContext, summary_tokens, obs_tokens, pack, packed, build_context,
}

module _ {A : Type 0} (tokens : A → ℕ) where
  abbrev pub total : List A → ℕ
  total [] = 0
  total (x ∷ xs) = tokens x + total xs

  -- The first `n` fit into what the budget leaves behind `used`, and one more does not.
  pub record IsLongest (budget used n : ℕ) (xs : List A) : Type 0 where
    pub fits : used + total (take n xs) ≤ budget
    pub longest : (n ≡ length xs) ⊎ (budget < used + total (take (suc n) xs))

  pub record IsPacked (budget used : ℕ) (xs : List A) (r : List A × ℕ) : Type 0 where
    pub front : r.0 ≡ take (length r.0) xs
    pub sum : r.1 ≡ used + total (take (length r.0) xs)
    pub most : IsLongest budget used (length r.0) xs

  cons-IsPacked :
      (budget used : ℕ) (x : A) (xs : List A) (r : List A × ℕ)
      → IsPacked budget (used + tokens x) xs r
      → IsPacked budget used (x ∷ xs) (x ∷ r.0, r.1)
  cons-IsPacked budget used x xs r v = record {
    front = ap (◌∷◌ x) v.front;
    sum = omega (arith, v.sum);
    most = record {
      fits = omega (arith, v.most.fits);
      longest = elim v.most.longest [
        | inl all ↦ inl (ap suc all)
        | inr over ↦ inr (omega (arith, over))
      ];
    };
  }

  pub pack-IsPacked :
      (budget used : ℕ) (xs : List A)
      → used ≤ budget
      → IsPacked budget used xs (pack tokens budget used xs)
  unfolding pack
  pack-IsPacked budget used [] h = record {
    front = refl;
    sum = omega arith;
    most = record { fits = omega (arith, h); longest = inl refl };
  }
  pack-IsPacked budget used (x ∷ xs) h =
      if_both (λ (r : List A × ℕ). IsPacked budget used (x ∷ xs) r) (ltb budget (used + tokens x)) _
        _
        (λ over. record {
          front = refl;
          sum = omega arith;
          most = record { fits = omega (arith, h); longest = inr (ground arith) };
        })
        (λ fit.
          cons-IsPacked budget used x xs _
            (pack-IsPacked budget (used + tokens x) xs (ground arith)))

nothing : {A : Type 0} (tokens : A → ℕ) (xs : List A) (n : ℕ) → 0 ≡ n → total tokens (take n xs) ≡ 0
nothing tokens xs zero h = refl
nothing tokens xs (suc n) h = omega arith

-- The context is the text of the summaries and observations that it counts, taken from the front, or
-- empty where it counts none. It says truly how many tokens their estimates come to. The summaries are
-- taken while they fit the budget, and then the observations while they fit what is left.
pub record IsContext (format : List SessionSummary → List Observation → ℕ → String)
    (summaries : List SessionSummary) (observations : List Observation) (budget : ℕ)
    (c : MemoryContext) : Type 0 where
  pub text : c.markdown ≡ (
      if eqb c.summary_count 0 && eqb c.observation_count 0
      then ""
      else format
          (take c.summary_count summaries)
          (take c.observation_count observations)
          c.tokens_used)
  pub tokens :
      c.tokens_used
      ≡ total summary_tokens (take c.summary_count summaries)
        + total obs_tokens (take c.observation_count observations)
  pub of_summaries : IsLongest summary_tokens budget 0 c.summary_count summaries
  pub of_observations :
      IsLongest obs_tokens budget
        (total summary_tokens (take c.summary_count summaries))
        c.observation_count
        observations
  pub within : c.tokens_used ≤ budget

module _ (format : List SessionSummary → List Observation → ℕ → String)
    (summaries : List SessionSummary) (observations : List Observation) (budget : ℕ) where
  pack-IsContext :
      (p : List SessionSummary × ℕ) (q : List Observation × ℕ) (c : MemoryContext)
      → IsPacked summary_tokens budget 0 summaries p
      → IsPacked obs_tokens budget p.1 observations q
      → c.summary_count ≡ length p.0
      → c.observation_count ≡ length q.0
      → c.tokens_used ≡ q.1
      → c.markdown ≡ (
          if eqb c.summary_count 0 && eqb c.observation_count 0
          then ""
          else format
              (take c.summary_count summaries)
              (take c.observation_count observations)
              c.tokens_used)
      → IsContext format summaries observations budget c
  pack-IsContext p q c first second a b t m =
      let used : p.1 ≡ total summary_tokens (take c.summary_count summaries) =
        rw a (omega (arith, first.sum)) in
      record {
        text = m;
        tokens = rw b (omega (arith, second.sum, used, t));
        of_summaries = rw a first.most;
        of_observations = rw (sym used, b) second.most;
        within = omega (arith, t, second.sum, second.most.fits);
      }

  -- Every context is as `IsContext` says, whatever the rows, the budget and the formatter.
  pub build_context-IsContext :
      IsContext format summaries observations budget
        (build_context format summaries observations budget)
  unfolding build_context packed
  build_context-IsContext =
      let p = pack summary_tokens budget 0 summaries in
      let q = pack obs_tokens budget p.1 observations in
      let first = pack-IsPacked summary_tokens budget 0 summaries (omega arith) in
      let second =
        pack-IsPacked obs_tokens budget p.1 observations
          (omega (arith, first.sum, first.most.fits)) in
      if_both (λ (c : MemoryContext). IsContext format summaries observations budget c)
        (eqb (length p.0) 0 && eqb (length q.0) 0) _ _
        (λ none.
          let no_summary : 0 ≡ length p.0 = ground arith in
          let no_observation : 0 ≡ length q.0 = ground arith in
          pack-IsContext p q _ first second no_summary no_observation
            (omega (
              arith,
              second.sum,
              first.sum,
              nothing summary_tokens summaries _ no_summary,
              nothing obs_tokens observations _ no_observation,
            ))
            refl)
        (λ some_packed. pack-IsContext p q _ first second refl refl refl (
          rw some_packed (
            ap (λ ss. format ss q.0 q.1) first.front
            ∙ ap (λ os. format (take (length p.0) summaries) os q.1) second.front)))
