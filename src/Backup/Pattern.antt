-- ===== src/Backup/Pattern.antt =====
-- The regular expressions of packages/soul/src/backup/change-detector.ts, as lists of pieces, and
-- their matcher over the characters of a path. Both ends are anchored: an expression without `^`
-- begins with `many any_char`, and one without `$` ends with it.
pub mod Matching
use Prim.Native.Char.{code}
use claw_mem.Prelude.{
  eqb, ℕ, ◌*◌, String, Bool, true, false, not, ◌&&◌, ◌||◌, Option, none, some, List, [], ◌∷◌,
}

-- The characters of a text.
abbrev pub codes : String → List ℕ
codes String.[] = []
codes (String.◌∷◌ c s) = code c ∷ codes s

pub data Piece : Type 0 where
  -- A literal, and `(literal)?`.
  lit opt : List ℕ → Piece
  -- `[class]*` and `[class]+`.
  many plus : (ℕ → Bool) → Piece

-- `.`: all but the line terminators.
abbrev pub dot : ℕ → Bool
dot c = not (eqb c 10 || (eqb c 13 || (eqb c 0x2028 || eqb c 0x2029)))

abbrev pub any_char : ℕ → Bool
any_char c = true

-- What is left of the text behind a literal.
unfoldable pub strip : List ℕ → List ℕ → Option (List ℕ)
strip [] s = some s
strip (c ∷ l) [] = none
strip (c ∷ l) (d ∷ s) = elim (eqb c d) [ true ↦ strip l s | false ↦ none ]

abbrev pub after : Option (List ℕ) → (List ℕ → Bool) → Bool
after none k = false
after (some s) k = k s

-- Any number of characters of the class, and then what `k` accepts.
pub repeat : (ℕ → Bool) → (List ℕ → Bool) → List ℕ → Bool
repeat p k [] = k []
repeat p k (c ∷ s) = k (c ∷ s) || (p c && repeat p k s)

abbrev pub once : (ℕ → Bool) → (List ℕ → Bool) → List ℕ → Bool
once p k [] = false
once p k (c ∷ s) = p c && k s

abbrev pub is_end : List ℕ → Bool
is_end [] = true
is_end (c ∷ s) = false

-- `re.test(s)`.
unfoldable pub test : List Piece → List ℕ → Bool
unfolding strip repeat
test [] s = is_end s
test (lit l ∷ ps) s = after (strip l s) (test ps)
test (opt l ∷ ps) s = after (strip l s) (test ps) || test ps s
test (many p ∷ ps) s = repeat p (test ps) s
test (plus p ∷ ps) s = once p (repeat p (test ps)) s
