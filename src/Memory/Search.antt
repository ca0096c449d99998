-- ===== src/Memory/Search.antt =====
-- packages/claw-mem/src/search/search.ts: `SearchEngine`. The full-text index, with its ranks, and
-- `LIKE` are the database's own: what they match is a parameter.
pub mod Words
use claw_mem.Prelude.{
  if◌then◌else◌, leb, eqb, get_or, length, take, keep_if, Result, ok, or_else, ℕ, String, Bool,
  true, not, ◌&&◌, ◌||◌, Option, none, some, List, [], ◌∷◌, ◌++◌, ◌==◌, ◌>>=◌,
}
use claw_mem.Memory.Types.{Observation}
use claw_mem.Memory.Sql.{Sorter}
use claw_mem.Memory.Observations.{MemoryDb}

pub record SearchOptions : Type 0 where
  pub query : List ℕ
  pub agent_id : Option String
  pub observation_type : Option String
  pub limit : Option ℕ
  pub include_compacted : Bool

pub data Source : Type 0 where
  fts like : Source

pub record SearchResult : Type 0 where
  pub source : Source
  pub results : List Observation
  pub total_count : ℕ

-- `\s`.
abbrev pub is_space : ℕ → Bool
is_space c =
    (leb 9 c && leb c 13)
    || (eqb c 32
        || (eqb c 0xA0
            || (eqb c 0x1680
                || ((leb 0x2000 c && leb c 0x200A)
                    || (eqb c 0x2028
                        || (eqb c 0x2029
                            || (eqb c 0x202F
                                || (eqb c 0x205F || (eqb c 0x3000 || eqb c 0xFEFF)))))))))

abbrev pub is_quote : ℕ → Bool
is_quote c = eqb c 39 || eqb c 34

-- `.split(/\s+/).filter(Boolean)`: the word that is being read, and the words behind it.
unfoldable pub split_words : List ℕ → List ℕ → List (List ℕ)
split_words [] [] = []
split_words (c ∷ word) [] = (c ∷ word) ∷ []
split_words word (c ∷ cs) =
    let go_on = split_words (word ++ (c ∷ [])) cs in
    let after = split_words [] cs in
    if is_space c then (if eqb (length word) 0 then after else word ∷ after) else go_on

-- `.map((w) => `"${w}"`).join(" OR ")`.
abbrev pub quoted : List ℕ → List ℕ
quoted w = 34 ∷ (w ++ (34 ∷ []))

unfoldable pub join_or : List (List ℕ) → List ℕ
join_or [] = []
join_or (w ∷ []) = quoted w
join_or (w ∷ v ∷ ws) = quoted w ++ (32 ∷ 79 ∷ 82 ∷ 32 ∷ join_or (v ∷ ws))

abbrev pub search_words : List ℕ → List (List ℕ)
search_words query = split_words [] (keep_if (λ c. not (is_quote c)) query)

unfoldable pub sanitize_fts_query : List ℕ → List ℕ
unfolding split_words join_or
sanitize_fts_query query = join_or (search_words query)

-- `if (x) sql += " AND … = ?"`: an absent or empty text asks for nothing.
abbrev pub asks : Option String → String → Bool
asks none s = true
asks (some t) s = (t == "") || (s == t)

abbrev pub passes_filters : SearchOptions → Observation → Bool
passes_filters o r =
    asks o.agent_id r.agent_id
    && (asks o.observation_type r.observation_type && (o.include_compacted || eqb r.compacted 0))

abbrev pub limit_of : SearchOptions → ℕ
limit_of o = get_or o.limit 10

module _ (matched : List ℕ → List Observation → Result String (List Observation)) where
  unfoldable pub search_fts : SearchOptions → MemoryDb → Result String SearchResult
  unfolding sanitize_fts_query
  search_fts o db = do
    rows ← matched (sanitize_fts_query o.query) db.observations
    let found : List Observation = take (limit_of o) (keep_if (passes_filters o) rows)
    ok (record { source = fts; results = found; total_count = length found })

module _ (order : Sorter) (is_like : List ℕ → Observation → Bool) where
  unfoldable pub search_like : SearchOptions → MemoryDb → SearchResult
  search_like o db =
      let found = take (limit_of o) (
        order.descending (λ r. r.created_at_epoch)
          (keep_if (λ r. is_like o.query r && passes_filters o r) db.observations)) in
      record { source = like; results = found; total_count = length found }

  unfoldable pub search_observations :
      (List ℕ → List Observation → Result String (List Observation))
      → SearchOptions
      → MemoryDb
      → SearchResult
  unfolding search_fts search_like
  search_observations matched o db = or_else (search_fts matched o db) (search_like o db)
