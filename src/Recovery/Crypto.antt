-- ===== src/Recovery/Crypto.antt =====
-- packages/soul/src/crypto.ts: the layout of encrypted files. Bytes are numbers; scrypt, SHA-256 and
-- AES-256-GCM are parameters, and so are the random bytes that a call draws.
use claw_mem.Prelude.{
  if◌then◌else◌, ltb, length, take, drop, length-append, Result, ok, err, ℕ, zero, suc, ◌+◌, String,
  ◌≡◌, refl, ap, ◌∙◌, Bool, false, Option, none, some, List, [], ◌∷◌, ◌++◌, arith, subst, sym,
}

abbrev pub Bytes : Type 0
Bytes = List ℕ

-- What the program uses of `node:crypto`: keys from a secret and a salt, and the cipher, which gives the
-- ciphertext and its tag, and opens a ciphertext unless its tag is wrong.
pub record Crypto : Type 0 where
  pub seed_of : String → Bytes
  pub secret_bytes : String → Bytes
  pub scrypt : Bytes → Bytes → Bytes
  pub seal : Bytes → Bytes → Bytes → Bytes × Bytes
  pub unseal : Bytes → Bytes → Bytes → Bytes → Option Bytes

abbrev pub salt_length : ℕ
salt_length = 32

abbrev pub iv_length : ℕ
iv_length = 12

abbrev pub tag_length : ℕ
tag_length = 16

module _ (c : Crypto) where
  abbrev pub derive_encryption_key : String → Bytes → Bytes
  derive_encryption_key private_key salt = c.scrypt (c.seed_of private_key) salt

  abbrev pub derive_key_from_password : String → Bytes → Bytes
  derive_key_from_password password salt = c.scrypt (c.secret_bytes password) salt

  abbrev pub key_for : Bool → String → Bytes → Bytes
  key_for is_password secret salt =
      if is_password
      then derive_key_from_password secret salt
      else derive_encryption_key secret salt

  unfoldable pub encrypt : Bytes → Bytes → Bytes → String → Bool → Bytes
  encrypt salt iv plaintext secret is_password =
      let (encrypted, tag) = c.seal (key_for is_password secret salt) iv plaintext in
      salt ++ (iv ++ (tag ++ encrypted))

  unfoldable pub decrypt : Bytes → String → Bool → Result String Bytes
  decrypt sealed secret is_password =
      let salt = take salt_length sealed in
      let iv = take iv_length (drop salt_length sealed) in
      let tag = take tag_length (drop (salt_length + iv_length) sealed) in
      let ciphertext = drop (salt_length + iv_length + tag_length) sealed in
      if ltb (length sealed) (salt_length + iv_length + tag_length)
      then err "Encrypted data too short"
      else elim (c.unseal (key_for is_password secret salt) iv tag ciphertext) [
        | none ↦ err "Unsupported state or unable to authenticate data"
        | some plaintext ↦ ok plaintext
      ]

-- What AES-GCM does: it opens what it sealed, and a tag has 16 bytes.
pub record IsGcm (c : Crypto) : Type 0 where
  pub unseal_seal :
      (key iv plaintext : Bytes)
      → c.unseal key iv (c.seal key iv plaintext).1 (c.seal key iv plaintext).0 ≡ some plaintext
  pub tag_bytes : (key iv plaintext : Bytes) → length (c.seal key iv plaintext).1 ≡ tag_length

take-length : (xs ys : Bytes) → take (length xs) (xs ++ ys) ≡ xs
take-length [] ys = refl
take-length (x ∷ xs) ys = ap (◌∷◌ x) (take-length xs ys)

drop-length : (xs ys : Bytes) → drop (length xs) (xs ++ ys) ≡ ys
drop-length [] ys = refl
drop-length (x ∷ xs) ys = drop-length xs ys

abbrev no_bytes : Bytes
no_bytes = []

drop_none : (n : ℕ) → drop n no_bytes ≡ no_bytes
drop_none zero = refl
drop_none (suc n) = refl

drop-add : (n m : ℕ) (xs : Bytes) → drop (n + m) xs ≡ drop m (drop n xs)
drop-add zero m xs = ap (λ k. drop k xs) (omega arith)
drop-add (suc n) m [] = drop_none (suc n + m) ∙ sym (drop_none m)
drop-add (suc n) m (x ∷ xs) =
    let sum : suc n + m ≡ suc (n + m) = omega arith in
    ap (λ k. drop k (x ∷ xs)) sum ∙ drop-add n m xs

take-front : (xs ys : Bytes) (n : ℕ) → length xs ≡ n → take n (xs ++ ys) ≡ xs
take-front xs ys n h = subst (λ k. take k (xs ++ ys) ≡ xs) h (take-length xs ys)

drop-front : (xs ys : Bytes) (n m : ℕ) → length xs ≡ n → drop (n + m) (xs ++ ys) ≡ drop m ys
drop-front xs ys n m h =
    drop-add n m (xs ++ ys)
    ∙ ap (drop m) (subst (λ k. drop k (xs ++ ys) ≡ ys) h (drop-length xs ys))

not_shorter : (n m : ℕ) → n ≡ 60 + m → ltb n 60 ≡ false
not_shorter n m h = ground arith

-- Where the salt has 32 bytes and the vector 12: what was encrypted is decrypted to itself with the
-- same secret, used in the same way.
pub decrypt-encrypt :
    (c : Crypto) (salt iv plaintext : Bytes) (secret : String) (is_password : Bool)
    → IsGcm c
    → length salt ≡ salt_length
    → length iv ≡ iv_length
    → decrypt c (encrypt c salt iv plaintext secret is_password) secret is_password ≡ ok plaintext
unfolding encrypt decrypt
decrypt-encrypt c salt iv plaintext secret is_password g s v =
    let key = key_for c is_password secret salt in
    let encrypted = (c.seal key iv plaintext).0 in
    let tag = (c.seal key iv plaintext).1 in
    let t = g.tag_bytes key iv plaintext in
    let sealed = salt ++ (iv ++ (tag ++ encrypted)) in
    let salt_back : take 32 sealed ≡ salt = take-front salt _ 32 s in
    let iv_back : take 12 (drop 32 sealed) ≡ iv =
      ap (take 12) (drop-front salt _ 32 0 s) ∙ take-front iv _ 12 v in
    let tag_back : take 16 (drop 44 sealed) ≡ tag =
      ap (take 16) (drop-front salt _ 32 12 s ∙ drop-front iv _ 12 0 v) ∙ take-front tag _ 16 t in
    let rest_back : drop 60 sealed ≡ encrypted =
      drop-front salt _ 32 28 s ∙ drop-front iv _ 12 16 v ∙ drop-front tag _ 16 0 t in
    let size : length sealed ≡ 60 + length encrypted = omega (
      arith,
      s,
      v,
      t,
      length-append salt (iv ++ (tag ++ encrypted)),
      length-append iv (tag ++ encrypted),
      length-append tag encrypted,
    ) in
    let long : ltb (length sealed) 60 ≡ false = not_shorter (length sealed) _ size in
    rw (long, salt_back, iv_back, tag_back, rest_back, g.unseal_seal key iv plaintext) refl
