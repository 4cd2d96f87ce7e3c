-- ===== src/Vault/Sign.antt =====
-- internal/vault/agent.go: signerForKey, Sign and SignWithFlags.
use sshush.Prelude.{ℕ, Bool, not, List, Bytes, ◌==◌, if◌then◌else◌, codes, ◌&&◌}
use sshush.Prelude.KeySet.{contains}
use sshush.External.{External, PrivateKey, PublicKey}
use sshush.Vault.Store.{get_identity}
use sshush.Vault.Cipher.{
  Result, ok, err, failed, locked, key_not_found, create_signer, unsupported_flags,
  unsupported_algorithm, sign_failed, or_err, require, decrypt_blob, ◌>>=◌, ◌>>◌, not_implemented,
}
use sshush.Vault.Keys.{unmarshal_private_key, fingerprint}
use sshush.Vault.Agent.{purge_expired}
use sshush.Vault.State.{World, VaultAgent}

-- The identity must be autoload or added in this session. That the session hides it is not asked.
abbrev may_sign : Bytes → VaultAgent → Bytes × Bool → Result Bytes
may_sign fp a (encrypted, autoload) =
    if not autoload && not (contains fp a.session_autoload0)
    then err key_not_found
    else ok encrypted

-- The private key behind the signer that signerForKey returns.
unfoldable pub signer_for_key : External → PublicKey → VaultAgent → Result PrivateKey
signer_for_key x key a = do
  master_key ← or_err a.master_key locked
  let fp = fingerprint x key
  found ← or_err (get_identity fp a.store) key_not_found
  encrypted ← may_sign fp a found
  plain ← decrypt_blob x master_key encrypted
  priv ← unmarshal_private_key x plain key.key_type
  public ← or_err (x.signer_public_key priv) (failed create_signer)
  ok priv

-- Sign and SignWithFlags drop expired identities first.
unfoldable pub sign : External → World → PublicKey → Bytes → VaultAgent → VaultAgent × Result Bytes
sign x w key message a =
    let (b, r) = purge_expired w a in
    (b, (do r; priv ← signer_for_key x key b; or_err (x.sign priv message) (failed sign_failed)))

abbrev flag_rsa_sha256 : ℕ
flag_rsa_sha256 = 2

abbrev flag_rsa_sha512 : ℕ
flag_rsa_sha512 = 4

-- The algorithm of a request's flags.
algorithm_for : ℕ → Result Bytes
algorithm_for flags =
    if flags == flag_rsa_sha256
    then ok (codes "rsa-sha2-256")
    else if flags == flag_rsa_sha512
    then ok (codes "rsa-sha2-512")
    else err (failed unsupported_flags)

sign_with_algorithm : External → PublicKey → Bytes → ℕ → VaultAgent → Result Bytes
sign_with_algorithm x key message flags a = do
  priv ← signer_for_key x key a
  algorithm ← algorithm_for flags
  require (x.is_algorithm_signer priv) (failed unsupported_algorithm)
  or_err (x.sign_with_algorithm priv message algorithm) (failed sign_failed)

unfoldable pub sign_with_flags :
    External → World → PublicKey → Bytes → ℕ → VaultAgent → VaultAgent × Result Bytes
unfolding sign_with_algorithm algorithm_for
sign_with_flags x w key message flags a =
    let (b, r) = purge_expired w a in
    if flags == 0
    then sign x w key message a
    else (b, (do r; sign_with_algorithm x key message flags b))

-- Decrypted keys are not kept.
unfoldable pub signers : VaultAgent → Result (List PrivateKey)
signers a = err not_implemented
