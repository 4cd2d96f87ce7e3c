-- ===== src/Vault/Verify.antt =====
-- internal/vault/verify.go: proving a passphrase against the canary.
use sshush.Prelude.{Bool, true, false, ◌||◌, Option, none, some, Bytes, if◌then◌else◌, is_empty}
use sshush.External.{External}
use sshush.Kdf.{derive_key, constant_time_compare}
use sshush.Vault.Types.{VaultMetadata, VaultStore}
use sshush.Vault.Store.{get_metadata}
use sshush.Vault.Cipher.{Result, ok, err, wrong_passphrase, decrypt_blob, canary_plaintext}

-- A failed decryption and a wrong canary are the same error.
abbrev pub prove_key : Bytes → Result Bytes → Result Bytes
prove_key master_key (err e) = err wrong_passphrase
prove_key master_key (ok plain) =
    if constant_time_compare plain canary_plaintext then ok master_key else err wrong_passphrase

unfoldable pub master_key_from_passphrase : External → Option VaultMetadata → Bytes → Result Bytes
master_key_from_passphrase x none passphrase = err wrong_passphrase
master_key_from_passphrase x (some meta) passphrase =
    if is_empty meta.salt || is_empty meta.canary
    then err wrong_passphrase
    else (let master_key = derive_key x passphrase meta.salt in
        prove_key master_key (decrypt_blob x master_key meta.canary))

abbrev pub is_ok : {A : Type 0} → Result A → Bool
is_ok (ok a) = true
is_ok (err e) = false

-- Nothing is unlocked and nothing changes.
unfoldable pub verify_passphrase : External → VaultStore → Bytes → Bool
verify_passphrase x store passphrase =
    is_ok (master_key_from_passphrase x (get_metadata store) passphrase)
