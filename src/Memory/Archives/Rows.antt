-- ===== src/Memory/Archives/Rows.antt =====
-- Tables of backup archives whose ids differ, and the numbers of their rows.
use claw_mem.Prelude.{
  count_mono, count, ltb, eqb, length, take, keep_if, any_of, All, if_both, ℕ, zero, suc, ◌≤◌, ◌≡◌,
  refl, sym, ◌∙◌, Bool, false, not, List, [], ◌∷◌, arith, ap,
}
use claw_mem.Memory.Archives.{BackupArchive, row_number}

-- The ids of the table differ.
abbrev pub Distinct : List BackupArchive → Type 0
Distinct [] = Unit
Distinct (x ∷ xs) = (any_of (λ (y : BackupArchive). eqb y.id x.id) xs ≡ false) × Distinct xs

abbrev pub is_in : List BackupArchive → BackupArchive → Bool
is_in cs r = any_of (λ (c : BackupArchive). eqb c.id r.id) cs

absent :
    (f : BackupArchive → Bool) (x : BackupArchive) (xs : List BackupArchive)
    → is_in xs x ≡ false
    → is_in (keep_if f xs) x ≡ false
absent f x [] h = refl
absent f x (y ∷ ys) h = ground (arith, absent f x ys)

others :
    (f : BackupArchive → Bool) (x : BackupArchive) (cs xs : List BackupArchive)
    → is_in xs x ≡ false
    → All (λ r. is_in cs r ≡ f r) xs
    → All (λ r. is_in (x ∷ cs) r ≡ f r) xs
others f x cs [] a h = tt
others f x cs (y ∷ ys) a (h, hs) = (ground arith, others f x cs ys (ground arith) hs)

pub picked :
    (f : BackupArchive → Bool) (xs : List BackupArchive)
    → Distinct xs
    → All (λ r. is_in (keep_if f xs) r ≡ f r) xs
picked f [] u = tt
picked f (x ∷ xs) (a, u) =
    if_both (λ (cs : List BackupArchive). All (λ r. is_in cs r ≡ f r) (x ∷ xs)) (f x)
      (x ∷ keep_if f xs) (keep_if f xs)
      (λ h. (ground arith, others f x (keep_if f xs) xs a (picked f xs u)))
      (λ h. (absent f x xs a ∙ sym h, picked f xs u))

-- The first `n` of a list are numbered up to `n`.
pub numbered :
    (n : ℕ) (xs : List BackupArchive)
    → length (take n xs) ≤ count (λ r. not (ltb n (row_number r.id xs))) xs
numbered zero xs = omega arith
numbered (suc n) [] = omega arith
numbered (suc n) (x ∷ xs) =
    let rest = numbered n xs in
    let more =
      count_mono (λ r. not (ltb n (row_number r.id xs)))
        (λ r. not (ltb (suc n) (row_number r.id (x ∷ xs)))) xs (λ r h. ground arith) in
    ground arith

pub All-negated :
    (p q : BackupArchive → Bool) (xs : List BackupArchive)
    → All (λ r. p r ≡ q r) xs
    → All (λ r. not (p r) ≡ not (q r)) xs
All-negated p q [] h = tt
All-negated p q (x ∷ xs) (h, hs) = (ap not h, All-negated p q xs hs)
