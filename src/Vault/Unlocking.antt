-- ===== src/Vault/Unlocking.antt =====
-- Which secrets open a vault: internal/vault/init.go, recovery.go and verify.go against Unlock and
-- UnlockWithRecovery of internal/vault/agent.go.
use sshush.Prelude.{
  ◌≡◌, refl, false, Option, none, some, [], ◌∷◌, Bytes, length, is_empty, bytes_eq_refl, arith, inl,
  inr, Option-cases,
}
use sshush.External.{External, CryptoLaws, Unicode}
use sshush.Kdf.{derive_key, generate_salt, constant_time_compare}
use sshush.Vault.Types.{VaultMetadata, VaultStore}
use sshush.Vault.Store.{get_metadata, set_metadata, save}
use sshush.Vault.Cipher.{
  ok, Result-cases, encrypt_blob, decrypt_blob, decrypt-encrypt_blob, gcm_iv_size, canary_plaintext,
}
use sshush.Vault.Verify.{master_key_from_passphrase, prove_key}
use sshush.Vault.State.{World, VaultAgent, new_vault_agent}
use sshush.Vault.Lock.{lock, unlock, unlock_with_recovery, recovered_key, held}
use sshush.Vault.Init.{saved, init_vault, new_metadata, enable_recovery, recovery_metadata}

-- Unlocking and locking again gives back the agent as it was, its session sets included.
pub lock-unlock :
    (x : External) (passphrase ignored : Bytes) (a : VaultAgent)
    → a.master_key ≡ none
    → (unlock x passphrase a).1 ≡ ok tt
    → lock ignored (unlock x passphrase a).0 ≡ (a, ok tt)
unfolding lock unlock
lock-unlock x passphrase ignored a h e =
    elim (Result-cases (master_key_from_passphrase x (get_metadata a.store) passphrase)) [
      | inl (k, p) ↦ ground arith
      | inr (f, p) ↦ absurd (ground arith)
    ]

-- The canary of a key opens under that key.
canary-proves :
    (x : External) (iv key : Bytes) {blob : Bytes}
    → CryptoLaws x
    → length iv ≡ gcm_iv_size
    → encrypt_blob x (some iv) key canary_plaintext ≡ ok blob
    → prove_key key (decrypt_blob x key blob) ≡ ok key
unfolding constant_time_compare
canary-proves x iv key {blob} laws hiv e =
    rw
      (
        decrypt-encrypt_blob x iv key canary_plaintext {blob = blob} laws hiv e,
        bytes_eq_refl canary_plaintext,
      )
      refl

-- A ciphertext is not empty.
encrypt_blob-nonempty :
    (x : External) (iv key plain : Bytes) {blob : Bytes}
    → length iv ≡ gcm_iv_size
    → encrypt_blob x (some iv) key plain ≡ ok blob
    → is_empty blob ≡ false
unfolding encrypt_blob
encrypt_blob-nonempty x [] key plain hiv e = absurd (omega arith)
encrypt_blob-nonempty x (b ∷ iv) key plain {blob} hiv e = ground arith

-- Metadata as Init makes it is opened by its passphrase, and the master key is the derived key.
metadata-opens :
    (x : External) (u : Unicode) (w : World) (salt iv passphrase : Bytes) {m : VaultMetadata}
    → CryptoLaws x
    → is_empty salt ≡ false
    → w.random ≡ some iv
    → length iv ≡ gcm_iv_size
    → new_metadata x u w (some salt) passphrase ≡ ok m
    → master_key_from_passphrase x (some m) passphrase ≡ ok (derive_key x passphrase salt)
unfolding new_metadata master_key_from_passphrase generate_salt
metadata-opens x u w salt iv passphrase {m} laws hs hr hiv e =
    elim (Result-cases (encrypt_blob x (some iv) (derive_key x passphrase salt) canary_plaintext)) [
      | inl (blob, p) ↦ ground (
        arith,
        canary-proves x iv (derive_key x passphrase salt) {blob = blob} laws hiv p,
        encrypt_blob-nonempty x iv (derive_key x passphrase salt) canary_plaintext {blob = blob} hiv
            p,
      )
      | inr (f, p) ↦ absurd (ground arith)
    ]

saved-metadata :
    (w : World) (m : VaultMetadata) (s : VaultStore)
    → (saved (save w.io (set_metadata m s))).0.metadata ≡ some m
unfolding set_metadata save
saved-metadata w m s = ground arith

-- A vault that Init has created is unlocked by the passphrase that it was given, and the master key
-- is the one derived from that passphrase and the drawn salt. The salt is not empty and the nonce
-- has 12 bytes.
pub unlock-init_vault :
    (x : External) (u : Unicode) (w : World) (salt iv passphrase : Bytes) (s : VaultStore)
    → CryptoLaws x
    → is_empty salt ≡ false
    → w.random ≡ some iv
    → length iv ≡ gcm_iv_size
    → (init_vault x u w (some salt) passphrase s).1 ≡ ok tt
    → unlock x passphrase (new_vault_agent (init_vault x u w (some salt) passphrase s).0) ≡ (
      record (new_vault_agent (init_vault x u w (some salt) passphrase s).0) {
        master_key = some (derive_key x passphrase salt);
      },
      ok tt,
    )
unfolding init_vault unlock new_vault_agent get_metadata
unlock-init_vault x u w salt iv passphrase s laws hs hr hiv e =
    elim (Result-cases (new_metadata x u w (some salt) passphrase)) [
      | inl (m, p) ↦
          rw
            (
              p,
              saved-metadata w m s,
              metadata-opens x u w salt iv passphrase {m = m} laws hs hr hiv p,
            )
            refl
      | inr (f, p) ↦ absurd (ground arith)
    ]

metadata-recovers :
    (x : External) (w : World) (salt iv master_key mnemonic : Bytes) (meta : Option VaultMetadata)
    {m : VaultMetadata}
    → CryptoLaws x
    → is_empty salt ≡ false
    → w.random ≡ some iv
    → length iv ≡ gcm_iv_size
    → recovery_metadata x w (some salt) master_key mnemonic meta ≡ ok m
    → recovered_key x mnemonic (some m) ≡ ok master_key
unfolding recovery_metadata recovered_key generate_salt
metadata-recovers x w salt iv master_key mnemonic meta {m} laws hs hr hiv e =
    elim (Result-cases (encrypt_blob x (some iv) (derive_key x mnemonic salt) master_key)) [
      | inl (blob, p) ↦ elim (Option-cases meta) [
        | inl n ↦ absurd (ground arith)
        | inr (old, q) ↦ ground (
          arith,
          decrypt-encrypt_blob x iv (derive_key x mnemonic salt) master_key {blob = blob} laws hiv
              p,
          encrypt_blob-nonempty x iv (derive_key x mnemonic salt) master_key {blob = blob} hiv p,
        )
      ]
      | inr (f, p) ↦ absurd (ground arith)
    ]

-- Where EnableRecovery has succeeded, the recovery phrase unlocks with the master key that was
-- wrapped, locked or not; a wrapped key of no bytes would leave the agent locked. The salt is not
-- empty and the nonce has 12 bytes.
pub unlock_with_recovery-enable_recovery :
    (x : External) (w : World) (salt iv master_key mnemonic : Bytes) (a : VaultAgent)
    → CryptoLaws x
    → is_empty salt ≡ false
    → w.random ≡ some iv
    → length iv ≡ gcm_iv_size
    → (enable_recovery x w (some salt) master_key mnemonic a.store).1 ≡ ok tt
    → unlock_with_recovery x mnemonic
        (record a { store = (enable_recovery x w (some salt) master_key mnemonic a.store).0 })
      ≡ (
        record a {
          store = (enable_recovery x w (some salt) master_key mnemonic a.store).0;
          master_key = held master_key;
        },
        ok tt,
      )
unfolding enable_recovery unlock_with_recovery get_metadata
unlock_with_recovery-enable_recovery x w salt iv master_key mnemonic a laws hs hr hiv e =
    elim (Result-cases (recovery_metadata x w (some salt) master_key mnemonic a.store.metadata)) [
      | inl (m, p) ↦
          rw (p, saved-metadata w m a.store)
            (rw
              (metadata-recovers x w salt iv master_key mnemonic a.store.metadata {m = m} laws hs hr
                hiv p)
              refl)
      | inr (f, p) ↦ absurd (ground arith)
    ]
