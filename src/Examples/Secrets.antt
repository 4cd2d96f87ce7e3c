-- ===== src/Examples/Secrets.antt =====
-- What opens a vault, and what a key comes back as.
use sshush.Prelude.{
  ℕ, ◌≡◌, ◌↔◌, refl, ap, true, false, none, some, List, [], ◌∷◌, ◌++◌, Bytes, codes, is_empty,
}
use sshush.External.{IsEd25519Key}
use sshush.Kdf.{derive_key}
use sshush.Vault.Types.{VaultStore}
use sshush.Vault.Store.{save, set_metadata, get_metadata}
use sshush.Vault.Cipher.{ok, encrypt_blob}
use sshush.Vault.State.{VaultAgent, Step, new_vault_agent}
use sshush.Vault.Lock.{held, lock, unlock, unlock_with_recovery}
use sshush.Vault.Init.{init_vault, enable_recovery}
use sshush.Vault.Unlocking.{unlock-init_vault, unlock_with_recovery-enable_recovery, lock-unlock}
use sshush.Examples.Toy.{toy, toy_crypto, ascii, world, nonce, master, seed, key, store}

seals : encrypt_blob toy (some nonce) master seed ≡ ok (nonce ++ master ++ seed)
unfolding encrypt_blob
seals = refl

pub made : IsEd25519Key toy key
made = (seed, refl, refl)

abbrev salt : Bytes
salt = codes "sixteen of salt!"

abbrev passphrase : Bytes
passphrase = codes "long enough"

abbrev mnemonic : Bytes
mnemonic = codes "zoo zoo"

abbrev vault : VaultStore
vault = (init_vault toy ascii world (some salt) passphrase store).0

initialises : (init_vault toy ascii world (some salt) passphrase store).1 ≡ ok tt
unfolding init_vault sshush.Vault.Init.new_metadata sshush.Vault.Policy.validate_new
    sshush.Prelude.Text.trim_space sshush.Prelude.Utf8.runes
    sshush.Vault.Policy.default_passphrase_policy sshush.Kdf.generate_salt encrypt_blob derive_key
    save
initialises = refl

unlock-init_vault_example :
    unlock toy passphrase (new_vault_agent vault)
    ≡ (record (new_vault_agent vault) { master_key = some (derive_key toy passphrase salt) }, ok tt)
unlock-init_vault_example =
    unlock-init_vault toy ascii world salt nonce passphrase store toy_crypto refl refl refl
      initialises

abbrev locked_vault : VaultAgent
locked_vault = new_vault_agent vault

recovers : (enable_recovery toy world (some salt) master mnemonic locked_vault.store).1 ≡ ok tt
unfolding init_vault new_vault_agent enable_recovery sshush.Vault.Init.recovery_metadata
    sshush.Kdf.generate_salt encrypt_blob derive_key get_metadata sshush.Vault.Init.new_metadata
    sshush.Vault.Policy.validate_new sshush.Prelude.Text.trim_space sshush.Prelude.Utf8.runes
    sshush.Vault.Policy.default_passphrase_policy save set_metadata
recovers = refl

unlock_with_recovery-enable_recovery_example :
    unlock_with_recovery toy mnemonic (record locked_vault {
      store = (enable_recovery toy world (some salt) master mnemonic locked_vault.store).0;
    })
    ≡ (
      record locked_vault {
        store = (enable_recovery toy world (some salt) master mnemonic locked_vault.store).0;
        master_key = held master;
      },
      ok tt,
    )
unlock_with_recovery-enable_recovery_example =
    unlock_with_recovery-enable_recovery toy world salt nonce master mnemonic locked_vault
      toy_crypto refl refl refl recovers

unlocks : (unlock toy passphrase locked_vault).1 ≡ ok tt
unlocks =
    ap (λ (t : Step). t.1)
      (unlock-init_vault toy ascii world salt nonce passphrase store toy_crypto refl refl refl
        initialises)

is_locked : locked_vault.master_key ≡ none
unfolding new_vault_agent
is_locked = refl

lock-unlock_example : lock [] (unlock toy passphrase locked_vault).0 ≡ (locked_vault, ok tt)
lock-unlock_example = lock-unlock toy passphrase [] locked_vault is_locked unlocks
