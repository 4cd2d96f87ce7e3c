-- ===== src/Vault/Init.antt =====
-- internal/vault/init.go and internal/vault/recovery.go: creating a vault, and enabling recovery.
use sshush.Prelude.{Option, none, some, [], Bytes, is_empty, if◌then◌else◌}
use sshush.External.{External, Unicode}
use sshush.Kdf.{derive_key, generate_salt}
use sshush.Vault.Types.{VaultMetadata, VaultStore}
use sshush.Vault.Store.{StoreError, save, get_metadata, set_metadata}
use sshush.Vault.Cipher.{
  Result, ok, err, failed, no_randomness, save_store, passphrase_rejected, wrong_passphrase,
  encrypt_blob, canary_plaintext, or_err, ◌>>=◌, ◌>>◌,
}
use sshush.Vault.Policy.{PolicyError, default_passphrase_policy, validate_new}
use sshush.Vault.State.{World}

abbrev pub saved : VaultStore × Option StoreError → VaultStore × Result (Unit {0})
saved (s, none) = (s, ok tt)
saved (s, some e) = (s, err (failed save_store))

abbrev accept : Option PolicyError → Result (Unit {0})
accept none = ok tt
accept (some e) = err (failed passphrase_rejected)

-- The metadata of a new vault. `salt` is what GenerateSalt read, and the canary takes its nonce
-- from the World.
unfoldable pub new_metadata :
    External → Unicode → World → Option Bytes → Bytes → Result VaultMetadata
new_metadata x u w salt passphrase = do
  accept (validate_new u default_passphrase_policy passphrase)
  salt' ← or_err (generate_salt salt) (failed no_randomness)
  canary ← encrypt_blob x w.random (derive_key x passphrase salt') canary_plaintext
  ok (record {
    salt = salt';
    canary = canary;
    recovery_salt = [];
    wrapped_master_key = [];
    created_at = w.timestamp;
  })

abbrev store_metadata : World → VaultStore → Result VaultMetadata → VaultStore × Result (Unit {0})
store_metadata w s (err e) = (s, err e)
store_metadata w s (ok m) = saved (save w.io (set_metadata m s))

unfoldable pub init_vault :
    External → Unicode → World → Option Bytes → Bytes → VaultStore → VaultStore × Result (Unit {0})
init_vault x u w salt passphrase s = store_metadata w s (new_metadata x u w salt passphrase)

-- The metadata with the wrapped master key; without metadata the error is that of a passphrase.
unfoldable pub recovery_metadata :
    External → World → Option Bytes → Bytes → Bytes → Option VaultMetadata → Result VaultMetadata
recovery_metadata x w salt master_key mnemonic meta = do
  recovery_salt' ← or_err (generate_salt salt) (failed no_randomness)
  wrapped ← encrypt_blob x w.random (derive_key x mnemonic recovery_salt') master_key
  m ← or_err meta wrong_passphrase
  ok (record m { recovery_salt = recovery_salt'; wrapped_master_key = wrapped })

unfoldable pub enable_recovery :
    External → World → Option Bytes → Bytes → Bytes → VaultStore → VaultStore × Result (Unit {0})
enable_recovery x w salt master_key mnemonic s =
    store_metadata w s (recovery_metadata x w salt master_key mnemonic (get_metadata s))

-- `meta == nil || len(meta.Salt) == 0`
stored_salt : Option VaultMetadata → Option Bytes
stored_salt none = none
stored_salt (some m) = if is_empty m.salt then none else some m.salt

unfoldable pub enable_recovery_with_passphrase :
    External → World → Option Bytes → Bytes → Bytes → VaultStore → VaultStore × Result (Unit {0})
unfolding stored_salt
enable_recovery_with_passphrase x w salt passphrase mnemonic s =
    elim (stored_salt (get_metadata s)) [
      | none ↦ (s, err wrong_passphrase)
      | some vault_salt ↦ enable_recovery x w salt (derive_key x passphrase vault_salt) mnemonic s
    ]
