-- ===== src/Vault/Cipher.antt =====
-- internal/vault/cipher.go: AES-256-GCM with the nonce in front, and the errors of the vault.
use sshush.Prelude.{
  inl, inr, ◌⊎◌, refl, ℕ, ◌≡◌, Bool, true, false, not, Option, none, some, ◌++◌, Bytes, length,
  take, drop, ltb, ◌==◌, codes, replicate, take-append, drop-append, length-append, arith,
}
use sshush.External.{External, CryptoLaws}
use sshush.Kdf.{key_len}

abbrev pub gcm_iv_size : ℕ
gcm_iv_size = 12

abbrev pub canary_plaintext : Bytes
canary_plaintext = codes "SSHUSH_VALID"

-- The sentinels; `failed` is every other error, which matches none of them.
pub data Failure : Type 0 where
  bad_key_length no_randomness short_ciphertext decrypt_failed : Failure
  confirm_unsupported constraint_unsupported certificate_unsupported : Failure
  create_signer nil_private_key marshal_key parse_key bad_seed_length : Failure
  save_store unsupported_flags unsupported_algorithm sign_failed : Failure
  passphrase_rejected : Failure

pub data VaultError : Type 0 where
  not_implemented locked wrong_passphrase key_not_found no_recovery : VaultError
  agent_locked agent_not_locked : VaultError
  failed : Failure → VaultError

pub data Result {ℓ} (A : Type ℓ) : Type ℓ where
  ok : A → Result A
  err : VaultError → Result A

pub Result-cases {ℓ} :
    {A : Type ℓ} (r : Result A) → ((a : A) × (r ≡ ok a)) ⊎ ((e : VaultError) × (r ≡ err e))
Result-cases (ok a) = inl (a, refl)
Result-cases (err e) = inr (e, refl)

-- `if err != nil { return err }`
abbrev pub or_err {ℓ} : {A : Type ℓ} → Option A → VaultError → Result A
or_err none e = err e
or_err (some a) e = ok a

infixl 5 ◌>>=◌
abbrev pub ◌>>=◌ {ℓ κ} : {A : Type ℓ} {B : Type κ} → Result A → (A → Result B) → Result B
err failure >>= next = err failure
ok value >>= next = next value

-- `if !test { return err }`
abbrev pub require : Bool → VaultError → Result (Unit {0})
require false e = err e
require true e = ok tt

infixl 5 ◌>>◌
abbrev pub ◌>>◌ {ℓ} : {B : Type ℓ} → Result (Unit {0}) → Result B → Result B
first >> second = first >>= λ u. second

-- The nonce is what io.ReadFull read from rand.Reader, and `none` where that failed.
unfoldable pub encrypt_blob : External → Option Bytes → Bytes → Bytes → Result Bytes
encrypt_blob x nonce master_key plain = do
  require (length master_key == key_len) (failed bad_key_length)
  iv ← or_err nonce (failed no_randomness)
  ok (iv ++ x.gcm_seal master_key iv plain)

unfoldable pub decrypt_blob : External → Bytes → Bytes → Result Bytes
decrypt_blob x master_key ciphertext = do
  require (length master_key == key_len) (failed bad_key_length)
  require (not (ltb (length ciphertext) gcm_iv_size)) (failed short_ciphertext)
  or_err (x.gcm_open master_key (take gcm_iv_size ciphertext) (drop gcm_iv_size ciphertext))
      (failed decrypt_failed)

-- The bytes that are left where a secret stood.
unfoldable pub wipe : Bytes → Bytes
wipe b = replicate (length b) 0

split_nonce :
    (iv ct : Bytes)
    → length iv ≡ gcm_iv_size
    → (take gcm_iv_size (iv ++ ct) ≡ iv) × (drop gcm_iv_size (iv ++ ct) ≡ ct)
split_nonce iv ct h = (rw (← h) (take-append iv ct), rw (← h) (drop-append iv ct))

-- Decryption under the same key gives back what was encrypted.
pub decrypt-encrypt_blob :
    (x : External) (iv key plain : Bytes) {blob : Bytes}
    → CryptoLaws x
    → length iv ≡ gcm_iv_size
    → encrypt_blob x (some iv) key plain ≡ ok blob
    → decrypt_blob x key blob ≡ ok plain
unfolding encrypt_blob decrypt_blob
decrypt-encrypt_blob x iv key plain {blob} laws h e = ground (
  arith,
  split_nonce iv (x.gcm_seal key iv plain) h,
  length-append {0} iv (x.gcm_seal key iv plain),
  laws.open-seal key iv plain,
)

-- Encryption succeeds with a key of 32 bytes and a nonce.
pub encrypt_blob-eq-ok :
    (x : External) (iv key plain : Bytes)
    → length key ≡ key_len
    → encrypt_blob x (some iv) key plain ≡ ok (iv ++ x.gcm_seal key iv plain)
unfolding encrypt_blob
encrypt_blob-eq-ok x iv key plain h = ground arith
