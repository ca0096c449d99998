-- ===== src/Memory/Search/Words.antt =====
-- The words of a search, and the rows that it finds.
use claw_mem.Prelude.{
  All-map, length, keep_if, All, if_both, ℕ, ◌≤◌, ◌≡◌, Bool, true, false, not, ◌&&◌, List, [], ◌∷◌,
  arith, if◌then◌else◌, eqb, All-append, refl, sym, ap, ◌∙◌, Option, none, some, ◌++◌, append-nil,
  append_assoc, Result-cases, length-take, All-take, Result, String, inl, inr,
}
use claw_mem.Memory.Search.{
  is_space, is_quote, split_words, search_words, quoted, join_or, sanitize_fts_query, SearchOptions,
  Observation, Sorter, passes_filters, search_observations, search_fts, search_like, MemoryDb,
  limit_of,
}
use claw_mem.Memory.Sql.{IsSorter}
use claw_mem.Memory.Sql.Laws.{All-descending}

-- A reader of the index's queries: phrases in quotes, with ` OR ` between them.
pub data Reading : Type 0 where
  in_phrase : List ℕ → Reading
  expecting : List ℕ → Reading
  between : Reading

abbrev phrase_then : List ℕ → Option (List (List ℕ)) → Option (List (List ℕ))
phrase_then w none = none
phrase_then w (some ws) = some (w ∷ ws)

abbrev pub read : Reading → List ℕ → Option (List (List ℕ))
read (in_phrase w) [] = none
read (in_phrase w) (c ∷ cs) =
    let closed = read between cs in
    let longer = read (in_phrase (w ++ (c ∷ []))) cs in
    if eqb c 34 then phrase_then w closed else longer
read (expecting es) [] = none
read (expecting []) (c ∷ cs) = none
read (expecting (e ∷ es)) (c ∷ cs) =
    let opened = read (in_phrase []) cs in
    let further = read (expecting es) cs in
    if not (eqb c e) then none else if eqb (length es) 0 then opened else further
read between [] = some []
read between (c ∷ cs) =
    let further = read (expecting (79 ∷ 82 ∷ 32 ∷ 34 ∷ [])) cs in if eqb c 32 then further else none

-- The empty query has no phrase.
abbrev pub read_query : List ℕ → Option (List (List ℕ))
read_query [] = some []
read_query (c ∷ cs) = read (expecting (34 ∷ [])) (c ∷ cs)

-- A character that a word of the index's query may have.
abbrev pub is_plain : ℕ → Bool
is_plain c = not (is_space c) && not (is_quote c)

abbrev pub IsWord : List ℕ → Type 0
IsWord w = (1 ≤ length w) × All (λ c. is_plain c ≡ true) w

split_words-IsWord :
    (word cs : List ℕ)
    → All (λ c. is_plain c ≡ true) word
    → All (λ c. is_quote c ≡ false) cs
    → All IsWord (split_words word cs)
unfolding split_words
split_words-IsWord [] [] h k = tt
split_words-IsWord (c ∷ word) [] h k = ((omega arith, h), tt)
split_words-IsWord word (c ∷ cs) h (q, k) =
    if_both (λ (ws : List (List ℕ)). All IsWord ws) (is_space c) _ _
      (λ _.
        if_both (λ (ws : List (List ℕ)). All IsWord ws) (eqb (length word) 0) _ _
          (λ _. split_words-IsWord [] cs tt k)
          (λ some_read. ((ground arith, h), split_words-IsWord [] cs tt k)))
      (λ other.
        split_words-IsWord (word ++ (c ∷ [])) cs
          (All-append _ word _ h (ground (arith, other, q), tt)) k)

keep_if-All : (p : ℕ → Bool) (cs : List ℕ) → All (λ c. p c ≡ true) (keep_if p cs)
keep_if-All p [] = tt
keep_if-All p (c ∷ cs) =
    if_both (λ (xs : List ℕ). All (λ c. p c ≡ true) xs) (p c) _ _ (λ h. (h, keep_if-All p cs))
      (λ _. keep_if-All p cs)

-- The words that the index is asked for are not empty and have no quote and no space, whatever the
-- text of the search: no text breaks out of the quotes around a word.
pub search_words-IsWord : (query : List ℕ) → All IsWord (search_words query)
search_words-IsWord query =
    split_words-IsWord [] _ tt
      (All-map _ _ _ (λ c h. ground arith) (keep_if-All (λ c. not (is_quote c)) query))

read-phrase :
    (w v rest : List ℕ)
    → All (λ c. is_plain c ≡ true) v
    → read (in_phrase w) (v ++ (34 ∷ rest)) ≡ phrase_then (w ++ v) (read between rest)
read-phrase w [] rest h = rw (append-nil w) refl
read-phrase w (c ∷ v) rest (h, hs) =
    let plain : eqb c 34 ≡ false = ground arith in
    rw plain (
      read-phrase (w ++ (c ∷ [])) v rest hs
      ∙ ap (λ (u : List ℕ). phrase_then u (read between rest)) (append_assoc w (c ∷ []) v))

read-quoted :
    (w rest : List ℕ)
    → IsWord w
    → read (expecting (34 ∷ [])) (quoted w ++ rest) ≡ phrase_then w (read between rest)
read-quoted w rest h =
    ap (read (in_phrase [])) (append_assoc w (34 ∷ []) rest) ∙ read-phrase [] w rest h.1

read-join_or :
    (w : List ℕ) (ws : List (List ℕ))
    → All IsWord (w ∷ ws)
    → read (expecting (34 ∷ [])) (join_or (w ∷ ws)) ≡ some (w ∷ ws)
unfolding join_or
read-join_or w [] h =
    ap (read (expecting (34 ∷ []))) (sym (append-nil (quoted w))) ∙ read-quoted w [] h.0
read-join_or w (v ∷ ws) h = read-quoted w _ h.0 ∙ ap (phrase_then w) (read-join_or v ws h.1)

read-words : (ws : List (List ℕ)) → All IsWord ws → read_query (join_or ws) ≡ some ws
unfolding join_or
read-words [] h = refl
read-words (w ∷ []) h = read-join_or w [] h
read-words (w ∷ v ∷ ws) h = read-join_or w (v ∷ ws) h

-- What the sanitized query asks for is exactly the words of the text, whatever the text is: a reader
-- of phrases in quotes, with `OR` between them, gets these words back.
pub read-sanitize_fts_query :
    (query : List ℕ) → read_query (sanitize_fts_query query) ≡ some (search_words query)
unfolding sanitize_fts_query
read-sanitize_fts_query query = read-words (search_words query) (search_words-IsWord query)

-- The row is one that the search asks for.
abbrev pub IsAsked : SearchOptions → Observation → Type 0
IsAsked o r = passes_filters o r ≡ true

filtered :
    (p q : Observation → Bool) (rs : List Observation)
    → ((r : Observation) → p r ≡ true → q r ≡ true)
    → All (λ r. q r ≡ true) (keep_if p rs)
filtered p q [] k = tt
filtered p q (r ∷ rs) k =
    if_both (λ (xs : List Observation). All (λ r. q r ≡ true) xs) (p r) _ _
      (λ h. (k r h, filtered p q rs k)) (λ _. filtered p q rs k)

module _ (order : Sorter) (laws : IsSorter order) where
  -- Every row that a search returns, from the index or from the fallback, is of the agent and the
  -- type that were asked for and not compacted unless that was asked for; they are no more than the
  -- limit; and the count is theirs.
  pub search_observations-IsAsked :
      (is_like : List ℕ → Observation → Bool)
      (matched : List ℕ → List Observation → Result String (List Observation)) (o : SearchOptions)
      (db : MemoryDb)
      → All (IsAsked o) (search_observations order is_like matched o db).results
        × (length (search_observations order is_like matched o db).results ≤ limit_of o)
        × ((search_observations order is_like matched o db).total_count
            ≡ length (search_observations order is_like matched o db).results)
  unfolding search_observations search_fts search_like
  search_observations-IsAsked is_like matched o db =
      elim (Result-cases (matched (sanitize_fts_query o.query) db.observations)) [
        | inl (rows, e) ↦ rw e (
          All-take _ (limit_of o) _ (filtered _ _ rows (λ r h. h)),
          omega (arith, length-take (limit_of o) (keep_if (passes_filters o) rows)),
          refl,
        )
        | inr (thrown, e) ↦ rw e (
          All-take _ (limit_of o) _ (
              All-descending order laws _ (passes_filters o) _
                (filtered _ _ db.observations (λ r h. ground arith))),
          omega (
            arith,
            length-take (limit_of o) (
                order.descending (λ r. r.created_at_epoch)
                  (keep_if (λ r. is_like o.query r && passes_filters o r) db.observations)),
          ),
          refl,
        )
      ]
