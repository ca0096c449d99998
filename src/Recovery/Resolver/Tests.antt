-- ===== src/Recovery/Resolver/Tests.antt =====
-- Ciphers and the resolver of CIDs at concrete inputs.
use claw_mem.Prelude.{ok, err, ℕ, zero, suc, String, ◌≡◌, refl, true, false, none, some, [], ◌∷◌}
use claw_mem.Recovery.Crypto.{Bytes, Crypto, IsGcm, encrypt, decrypt, decrypt-encrypt}
use claw_mem.Recovery.Resolver.{Layers, resolve, resolve_remote, cache_locally, register}
use claw_mem.JsMap
use claw_mem.Recovery.Resolver.Found.{resolve-hash, resolve-register_lost}

-- A cipher that changes nothing, with a tag of zeros.
abbrev zeros : ℕ → Bytes
zeros zero = []
zeros (suc n) = 0 ∷ zeros n

abbrev plain : Crypto
plain = record {
  seed_of = λ s. [];
  secret_bytes = λ s. [];
  scrypt = λ seed salt. salt;
  seal = λ key iv text. (text, zeros 16);
  unseal = λ key iv tag text. some text;
}

plain-IsGcm : IsGcm plain
plain-IsGcm = record { unseal_seal = λ key iv text. refl; tag_bytes = λ key iv text. refl }

decrypt-encrypt_example :
    decrypt plain (encrypt plain (zeros 32) (zeros 12) (7 ∷ 8 ∷ []) "secret" true) "secret" true
    ≡ ok (7 ∷ 8 ∷ [])
decrypt-encrypt_example =
    decrypt-encrypt plain (zeros 32) (zeros 12) (7 ∷ 8 ∷ []) "secret" true plain-IsGcm refl refl

-- A hash that is the text itself, and layers of which the index has a corrupt entry.
abbrev same_text : String → String
same_text s = s

abbrev layers : Layers
layers = record {
  index = some (("cid", record { cid_hash = "cid"; cid = "other"; registered_at = 0 }) ∷ []);
  mfs = some (("cid", "cid") ∷ []);
  registry = none;
  index_writable = true;
  mfs_writable = true;
  registry_answers = false;
}

resolved_remotely : (resolve same_text 5 "cid" layers).0 ≡ ok (some "cid")
unfolding resolve resolve_remote cache_locally JsMap.get
resolved_remotely = refl

resolve-hash_example : same_text "cid" ≡ "cid"
resolve-hash_example = resolve-hash same_text 5 "cid" "cid" layers resolved_remotely

-- A cache that cannot be written makes the call fail though the CID was found in IPFS.
found_but_thrown :
    (resolve same_text 5 "cid" (record layers { index_writable = false })).0
    ≡ err "the index cannot be written"
unfolding resolve resolve_remote cache_locally JsMap.get
found_but_thrown = refl

registered : (register same_text 5 "new" "new" layers).0 ≡ ok tt
unfolding register
registered = refl

resolve-register_lost_example :
    (resolve same_text 9 "new"
      (record (register same_text 5 "new" "new" layers).1 { index = none })).0
    ≡ ok (some "new")
resolve-register_lost_example =
    resolve-register_lost same_text 5 "new" "new" layers 9 registered refl refl
