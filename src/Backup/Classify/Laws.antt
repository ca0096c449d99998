-- ===== src/Backup/Classify/Laws.antt =====
-- Which paths are classified, whatever stands in the parts that a user chooses.
use claw_mem.Prelude.{
  eqb, Bool-cases, All, includes, ℕ, String, ◌≡◌, ap, ◌≢◌, inl, inr, Bool, true, false, some, List,
  [], ◌∷◌, ◌++◌, arith, eq_iff, sym, subst, drop, length, refl, append-nil, ◌-◌, ◌+◌, ◌∙◌,
  length-append, append_assoc, ◌⊎◌,
}
use mathlib.Core.Option.{some-injective}
use claw_mem.Backup.Types.{config}
use claw_mem.Backup.Pattern.{Piece, lit, many, any_char, codes, test, dot}
use claw_mem.Backup.Pattern.Matching.{
  Matches, end, by_lit, by_opt, by_skip, by_many, by_plus, InClass, test-Matches,
}
use claw_mem.Backup.Classify.{
  Rule, Class, file_rules, skip_file_relative_paths, first_match, classify_file, none,
}

head_is : ℕ → List ℕ → Bool
head_is c [] = false
head_is c (d ∷ s) = eqb c d

-- The path is not the one path that is denied by its whole name.
not_state :
    (path : String) (c : ℕ) (s : List ℕ)
    → codes path ≡ c ∷ s
    → eqb c b'.' ≡ false
    → includes skip_file_relative_paths path ≡ false
unfolding skip_file_relative_paths head_is
not_state path c s e n = ground (
  arith,
  eq_iff ".coc-backup/state.json" path,
  λ (same : ◌≡◌ {A = String} ".coc-backup/state.json" path).
      ap (λ (p : String). head_is b'.' (codes p)) same,
  ap (head_is b'.') e,
)

InClass-any : (s : List ℕ) → InClass any_char s
InClass-any [] = tt
InClass-any (c ∷ s) = (refl, InClass-any s)

test-any : (s : List ℕ) → test (many any_char ∷ []) s ≡ true
test-any s = (test-Matches _ s).1 (by_many s [] (sym (append-nil s)) (InClass-any s) (end refl))

test-dots_any : (s : List ℕ) → test (many dot ∷ many any_char ∷ []) s ≡ true
test-dots_any s = (test-Matches _ s).1 (by_many [] s refl tt ((test-Matches _ s).0 (test-any s)))

-- Every path under credentials/ is classified as configuration that is encrypted.
pub classify-credentials :
    (path : String) (s : List ℕ)
    → codes path ≡ codes "credentials/" ++ s
    → classify_file path ≡ some (record { category = config; encrypt = true })
unfolding classify_file file_rules test
classify-credentials path s e =
    rw (not_state path _ _ e refl, e) (rw (test-dots_any s, first_match))

class_of_rule {ℓ} :
    (P : Class → Type ℓ) (rules : List Rule) (s : List ℕ) (c : Class)
    → All (λ r. P r.class) rules
    → first_match rules s ≡ some c
    → P c
unfolding first_match
class_of_rule P [] s c h e = cc
class_of_rule P (r ∷ rules) s c h e = elim (Bool-cases (test r.pattern_of s)) [
  | inl hit ↦ subst P (some-injective _ _ (rw (hit, first_match) at e)) h.0
  | inr miss ↦ class_of_rule P rules s c h.1 (rw (miss, first_match) at e)
]

-- The last `n` characters.
last_chars : ℕ → List ℕ → List ℕ
last_chars n s = drop (length s - n) s

drop-append : (a l : List ℕ) → drop (length a) (a ++ l) ≡ l
drop-append [] l = refl
drop-append (c ∷ a) l = drop-append a l

add-sub : (m n : ℕ) → m + n - n ≡ m
add-sub m n = omega arith

last_chars-append : (a l : List ℕ) → last_chars (length l) (a ++ l) ≡ l
unfolding last_chars
last_chars-append a l = rw (length-append a l, add-sub (length a) (length l)) (drop-append a l)

-- The text ends in `l`.
abbrev Ends : List ℕ → List ℕ → Type 0
Ends l s = (a : List ℕ) × (s ≡ a ++ l)

-- The expression ends in a literal that ends in `l`.
abbrev EndsIn : List ℕ → List Piece → Type 0
EndsIn l [] = ⊥
EndsIn l (lit k ∷ []) = Ends l k
EndsIn l (p ∷ ps) = EndsIn l ps

Ends-append : (l a r s : List ℕ) → s ≡ a ++ r → Ends l r → Ends l s
Ends-append l a r s e (b, f) = (a ++ b, e ∙ (ap (◌++◌ a) f ∙ sym (append_assoc a b l)))

Ends-cons : (l : List ℕ) (c : ℕ) (r : List ℕ) → Ends l r → Ends l (c ∷ r)
Ends-cons l c r (b, f) = (c ∷ b, ap (◌∷◌ c) f)

Matches-Ends : {ps : List Piece} {s : List ℕ} (l : List ℕ) → Matches ps s → EndsIn l ps → Ends l s
Matches-Ends l (end e) h = absurd h
Matches-Ends l (by_lit {l = k} {ps = []} r e (end e')) h = (h.0, e ∙ rw (e', append-nil k) h.1)
Matches-Ends l (by_lit {l = k} {ps = p ∷ ps} r e m) h = Ends-append l k r _ e (Matches-Ends l m h)
Matches-Ends l (by_opt {l = k} {ps = ps} r e m) h = Ends-append l k r _ e (Matches-Ends l m h)
Matches-Ends l (by_skip m) h = Matches-Ends l m h
Matches-Ends l (by_many {ps = ps} w r e i m) h = Ends-append l w r _ e (Matches-Ends l m h)
Matches-Ends l (by_plus {ps = ps} c w r e j i m) h =
    Ends-append l (c ∷ w) r _ e (Matches-Ends l m h)

-- A text that ends in one literal is not matched by an expression that ends in another as long.
test-Ends_ne :
    (ps : List Piece) (s k l : List ℕ)
    → EndsIn k ps
    → Ends l s
    → length k ≡ length l
    → k ≢ l
    → test ps s ≡ false
test-Ends_ne ps s k l h (a, e) n d = elim (Bool-cases (test ps s)) [
  | inr miss ↦ miss
  | inl hit ↦ absurd (d (same (Matches-Ends k ((test-Matches ps s).0 hit) h)))
]
  where
    same : Ends k s → k ≡ l
    same (b, f) =
        sym (last_chars-append b k)
        ∙ (ap (last_chars (length k)) (sym f ∙ e)
            ∙ (ap (λ m. last_chars m (a ++ l)) n ∙ last_chars-append a l))

ne_of_head : (c : ℕ) (k l : List ℕ) → head_is c k ≡ true → head_is c l ≡ false → k ≢ l
ne_of_head c k l h n e = cc (sym h ∙ (ap (head_is c) e ∙ n))

-- Both expressions of the chat table end otherwise than the two files of an agent's directory.
not_chat :
    (s : List ℕ)
    → Ends (codes "s.json") s
    → test (many dot ∷ lit (codes "/sessions/") ∷ many dot ∷ lit (codes ".jsonl") ∷ []) s ≡ false
unfolding head_is
not_chat s e =
    test-Ends_ne _ s (codes ".jsonl") (codes "s.json") ([], refl) e refl
      (ne_of_head b'.' _ _ refl refl)

not_sessions :
    (s l : List ℕ)
    → Ends l s
    → length l ≡ 8
    → head_is b'o' l ≡ false
    → test (many dot ∷ lit (codes "/sessions/sessions.json") ∷ []) s ≡ false
unfolding head_is
not_sessions s l e n d =
    test-Ends_ne _ s (codes "ons.json") l (codes "/sessions/sessi", refl) e (sym n)
      (ne_of_head b'o' _ l refl d)

-- The path of a file in the directory of an agent's own settings.
abbrev pub agent_path : List ℕ → List ℕ → List ℕ
agent_path id file = codes "agents/" ++ (id ++ (codes "/agent/" ++ file))

agents_rules :
    (path : String) (s : List ℕ)
    → codes path ≡ codes "agents/" ++ s
    → test (many dot ∷ lit (codes "/sessions/") ∷ many dot ∷ lit (codes ".jsonl") ∷ []) s ≡ false
    → test (many dot ∷ lit (codes "/sessions/sessions.json") ∷ []) s ≡ false
    → classify_file path ≡ none
unfolding classify_file file_rules test
agents_rules path s e a b = rw (not_state path _ _ e refl, e) (rw (a, b, first_match))

-- An agent's models.json and auth-profiles.json belong to no class, whatever the agent's identifier.
pub classify-agent_private :
    (path : String) (id file : List ℕ)
    → codes path ≡ agent_path id file
    → (file ≡ codes "models.json") ⊎ (file ≡ codes "auth-profiles.json")
    → classify_file path ≡ none
unfolding head_is
classify-agent_private path id file e (inl f) =
    agents_rules path _ (rw f at e)
      (not_chat _ (id ++ codes "/agent/model", sym (append_assoc id _ _)))
      (not_sessions _ (codes "els.json") (id ++ codes "/agent/mod", sym (append_assoc id _ _)) refl
        refl)
classify-agent_private path id file e (inr f) =
    agents_rules path _ (rw f at e)
      (not_chat _ (id ++ codes "/agent/auth-profile", sym (append_assoc id _ _)))
      (not_sessions _ (codes "les.json")
        (id ++ codes "/agent/auth-profi", sym (append_assoc id _ _)) refl refl)
