-- ===== src/Backup/Pattern/Matching.antt =====
-- What the expressions mean, as a relation, and that the matcher decides it.
use claw_mem.Prelude.{
  Option-cases, All, ℕ, ◌≡◌, refl, ap, ◌↔◌, ◌⊎◌, inl, inr, Bool, true, ◌||◌, some, List, [], ◌∷◌,
  ◌++◌, arith,
}
use claw_mem.Backup.Pattern.{Piece, lit, opt, many, plus, strip, after, repeat, test}

-- All characters of the text are in the class.
abbrev pub InClass : (ℕ → Bool) → List ℕ → Type 0
InClass p = All (λ c. p c ≡ true)

-- The text is split as the pieces say.
pub data Matches : List Piece → List ℕ → Type 0 where
  end : {s : List ℕ} → s ≡ [] → Matches [] s
  by_lit :
      {l : List ℕ} {ps : List Piece} {s : List ℕ} (r : List ℕ)
      → s ≡ l ++ r
      → Matches ps r
      → Matches (lit l ∷ ps) s
  by_opt :
      {l : List ℕ} {ps : List Piece} {s : List ℕ} (r : List ℕ)
      → s ≡ l ++ r
      → Matches ps r
      → Matches (opt l ∷ ps) s
  by_skip : {l : List ℕ} {ps : List Piece} {s : List ℕ} → Matches ps s → Matches (opt l ∷ ps) s
  by_many :
      {p : ℕ → Bool} {ps : List Piece} {s : List ℕ} (w r : List ℕ)
      → s ≡ w ++ r
      → InClass p w
      → Matches ps r
      → Matches (many p ∷ ps) s
  by_plus :
      {p : ℕ → Bool} {ps : List Piece} {s : List ℕ} (c : ℕ) (w r : List ℕ)
      → s ≡ c ∷ (w ++ r)
      → p c ≡ true
      → InClass p w
      → Matches ps r
      → Matches (plus p ∷ ps) s

strip-append : (l r : List ℕ) → strip l (l ++ r) ≡ some r
unfolding strip
strip-append [] r = refl
strip-append (c ∷ l) r = ground (arith, strip-append l r)

pub strip-eq_some : (l s r : List ℕ) → strip l s ≡ some r → s ≡ l ++ r
unfolding strip
strip-eq_some [] s r h = cc
strip-eq_some (c ∷ l) [] r h = cc
strip-eq_some (c ∷ l) (d ∷ s) r h = ground (arith, strip-eq_some l s r)

module _ (p : ℕ → Bool) (k : List ℕ → Bool) where
  -- The text is characters of the class and then what `k` accepts.
  abbrev Split : List ℕ → Type 0
  Split s = (w : List ℕ) × (r : List ℕ) × (s ≡ w ++ r) × InClass p w × (k r ≡ true)

  longer : (c : ℕ) (s : List ℕ) → p c ≡ true → Split s → Split (c ∷ s)
  longer c s h (w, r, e, i, a) = (c ∷ w, r, ap (◌∷◌ c) e, (h, i), a)

  repeat_step :
      (c : ℕ) (s : List ℕ)
      → repeat p k (c ∷ s) ≡ true
      → (k (c ∷ s) ≡ true) ⊎ ((p c ≡ true) × (repeat p k s ≡ true))
  unfolding repeat
  repeat_step c s h = ground arith

  repeat_sound : (s : List ℕ) → repeat p k s ≡ true → Split s
  unfolding repeat
  repeat_sound [] h = ([], [], refl, tt, h)
  repeat_sound (c ∷ s) h = elim (repeat_step c s h) [
    | inl now ↦ ([], c ∷ s, refl, tt, now)
    | inr more ↦ longer c s more.0 (repeat_sound s more.1)
  ]

  repeat_complete : (w r : List ℕ) → InClass p w → k r ≡ true → repeat p k (w ++ r) ≡ true
  unfolding repeat
  repeat_complete [] [] i h = h
  repeat_complete [] (c ∷ r) i h = ground arith
  repeat_complete (c ∷ w) r i h = ground (arith, repeat_complete w r i.1 h)

after_sound :
    (l s : List ℕ) (k : List ℕ → Bool)
    → after (strip l s) k ≡ true
    → (r : List ℕ) × (s ≡ l ++ r) × (k r ≡ true)
after_sound l s k h = elim (Option-cases (strip l s)) [
  | inl e ↦ cc (rw (e, after) at h)
  | inr (r, e) ↦ (r, strip-eq_some l s r e, rw (e, after) at h)
]

or_cases : (a b : Bool) → (a || b) ≡ true → (a ≡ true) ⊎ (b ≡ true)
or_cases a b h = ground arith

opt_sound :
    (l s : List ℕ) (ps : List Piece)
    → test (opt l ∷ ps) s ≡ true
    → ((r : List ℕ) × (s ≡ l ++ r) × (test ps r ≡ true)) ⊎ (test ps s ≡ true)
unfolding test
opt_sound l s ps h = elim (or_cases _ _ h) [
  | inl a ↦ inl (after_sound l s (test ps) a)
  | inr b ↦ inr b
]

test_complete : {ps : List Piece} {s : List ℕ} → Matches ps s → test ps s ≡ true
unfolding test
test_complete (end e) = rw e
test_complete (by_lit {l = l} r e m) = rw (e, strip-append l r) (test_complete m)
test_complete (by_opt {l = l} r e m) = rw (e, strip-append l r) (ground (arith, test_complete m))
test_complete (by_skip m) = ground (arith, test_complete m)
test_complete (by_many {p = p} {ps = ps} w r e i m) =
    rw e (repeat_complete p (test ps) w r i (test_complete m))
test_complete (by_plus {p = p} {ps = ps} c w r e h i m) =
    rw e (ground (arith, repeat_complete p (test ps) w r i (test_complete m)))

test_sound : (ps : List Piece) (s : List ℕ) → test ps s ≡ true → Matches ps s
unfolding test
test_sound [] [] h = end refl
test_sound [] (c ∷ s) h = cc
test_sound (lit l ∷ ps) s h =
    let (r, e, a) = after_sound l s (test ps) h in by_lit r e (test_sound ps r a)
test_sound (opt l ∷ ps) s h = elim (opt_sound l s ps h) [
  | inl (r, e, a) ↦ by_opt r e (test_sound ps r a)
  | inr b ↦ by_skip (test_sound ps s b)
]
test_sound (many p ∷ ps) s h =
    let (w, r, e, i, a) = repeat_sound p (test ps) s h in by_many w r e i (test_sound ps r a)
test_sound (plus p ∷ ps) [] h = cc
test_sound (plus p ∷ ps) (c ∷ s) h =
    let split : (p c ≡ true) × (repeat p (test ps) s ≡ true) = ground arith in
    let (w, r, e, i, a) = repeat_sound p (test ps) s split.1 in
    by_plus c w r (ap (◌∷◌ c) e) split.0 i (test_sound ps r a)

-- The matcher accepts a text exactly when the text can be split as the expression says.
pub test-Matches : (ps : List Piece) (s : List ℕ) → (test ps s ≡ true) ↔ Matches ps s
test-Matches ps s = (test_sound ps s, test_complete)
