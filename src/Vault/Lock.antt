-- ===== src/Vault/Lock.antt =====
-- internal/vault/agent.go: Lock, Unlock and UnlockWithRecovery.
use sshush.Prelude.{◌||◌, Option, none, some, Bytes, if◌then◌else◌}
use sshush.External.{External}
use sshush.Kdf.{derive_key}
use sshush.Vault.Types.{VaultMetadata}
use sshush.Vault.Store.{get_metadata}
use sshush.Vault.Cipher.{
  Result, ok, err, wrong_passphrase, no_recovery, agent_locked, agent_not_locked, decrypt_blob,
  ◌>>=◌,
}
use sshush.Vault.Verify.{master_key_from_passphrase}
use sshush.Prelude.{is_empty}
use sshush.Vault.State.{VaultAgent, Step}

-- The passphrase is not used.
unfoldable pub lock : Bytes → VaultAgent → Step
lock passphrase a = elim a.master_key [
  | none ↦ (a, err agent_locked)
  | some k ↦ (record a { master_key = none }, ok tt)
]

-- `meta == nil || len(meta.RecoverySalt) == 0 || len(meta.WrappedMasterKey) == 0`
abbrev pub recovery_parts : Option VaultMetadata → Result (Bytes × Bytes)
recovery_parts none = err no_recovery
recovery_parts (some m) =
    if is_empty m.recovery_salt || is_empty m.wrapped_master_key
    then err no_recovery
    else ok (m.recovery_salt, m.wrapped_master_key)

-- A failure to unwrap is a wrong phrase, whatever the reason.
abbrev pub as_wrong_passphrase : Result Bytes → Result Bytes
as_wrong_passphrase (ok k) = ok k
as_wrong_passphrase (err e) = err wrong_passphrase

unfoldable pub recovered_key : External → Bytes → Option VaultMetadata → Result Bytes
recovered_key x mnemonic meta = do
  (salt, wrapped) ← recovery_parts meta
  as_wrong_passphrase (decrypt_blob x (derive_key x mnemonic salt) wrapped)

abbrev pub with_key : VaultAgent → Result Bytes → Step
with_key a (ok k) = (record a { master_key = some k }, ok tt)
with_key a (err e) = (a, err e)

-- A masterKey of no bytes is nil in Go, which is how a locked agent is told.
abbrev pub held : Bytes → Option Bytes
held k = if is_empty k then none else some k

abbrev pub with_recovered : VaultAgent → Result Bytes → Step
with_recovered a (ok k) = (record a { master_key = held k }, ok tt)
with_recovered a (err e) = (a, err e)

unfoldable pub unlock_with_recovery : External → Bytes → VaultAgent → Step
unlock_with_recovery x mnemonic a =
    with_recovered a (recovered_key x mnemonic (get_metadata a.store))

unfoldable pub unlock : External → Bytes → VaultAgent → Step
unlock x passphrase a = elim a.master_key [
  | some k ↦ (a, err agent_not_locked)
  | none ↦ with_key a (master_key_from_passphrase x (get_metadata a.store) passphrase)
]
