-- ===== src/Task.antt =====
-- Asynchronous methods that change an object and may throw: what was written before a throw stays
-- written. A method runs to its end with nothing in between; where the program's own interleaving
-- matters, a module says so.
use claw_mem.Prelude.{Result, ok, err, String}

abbrev pub Task {ℓ} : Type ℓ → Type ℓ → Type ℓ
Task S A = S → Result String A × S

module _ {ℓ} {S A B : Type ℓ} where
  abbrev pub and_then : Result String A → (A → Task S B) → Task S B
  and_then (ok a) f s = f a s
  and_then (err e) f s = (err e, s)

  infixl 5 ◌>>=◌ ◌>>◌
  abbrev pub ◌>>=◌ : Task S A → (A → Task S B) → Task S B
  ◌>>=◌ m f s = and_then (m s).0 f (m s).1

  abbrev pub ◌>>◌ : Task S A → Task S B → Task S B
  m >> n = m >>= λ _. n

module _ {ℓ} {S A : Type ℓ} where
  abbrev pub pure : A → Task S A
  pure a s = (ok a, s)

  -- `throw e`.
  abbrev pub throw : String → Task S A
  throw e s = (err e, s)

  -- `await f()` of something that changes nothing here.
  abbrev pub await : Result String A → Task S A
  await r s = (r, s)

  abbrev pub gets : (S → A) → Task S A
  gets f s = (ok (f s), s)

module _ {S : Type 0} where
  abbrev pub modify : (S → S) → Task S Unit
  modify f s = (ok tt, f s)
