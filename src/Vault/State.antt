-- ===== src/Vault/State.antt =====
-- internal/vault/agent.go: the state of the agent, and saving it. Each method holds the mutex, so
-- that it is one step on the state; what it takes from outside (the clock, randomness, the outcome
-- of each system call) is its World.
use sshush.Prelude.{ℕ, Option, none, some, [], Bytes}
use sshush.Prelude.KeySet.{KeySet}
use sshush.Vault.Types.{VaultStore}
use sshush.Vault.Store.{Io, StoreError, save}
use sshush.Vault.Cipher.{Result, ok, err, failed, save_store}

pub record World : Type 0 where
  pub now : ℕ
  -- time.Now() in the format of AddedAt.
  pub timestamp : Bytes
  -- What a read of rand.Reader gives; `none` where it fails.
  pub random : Option Bytes
  pub io : Io

pub record VaultAgent : Type 0 where
  pub store : VaultStore
  -- `none` when locked.
  pub master_key : Option Bytes
  pub session_autoload0 : KeySet
  pub session_unloaded : KeySet

unfoldable pub new_vault_agent : VaultStore → VaultAgent
new_vault_agent store = record {
  store = store;
  master_key = none;
  session_autoload0 = [];
  session_unloaded = [];
}

-- What a method leaves behind and returns.
abbrev pub Step : Type 0
Step = VaultAgent × Result (Unit {0})

abbrev pub after_save : (VaultAgent → VaultAgent) → VaultAgent → Option StoreError → Step
after_save finish a none = (finish a, ok tt)
after_save finish a (some e) = (a, err (failed save_store))

-- `if err := a.store.Save(); err != nil { return … }`, and what the method does after it.
unfoldable pub save_then : World → (VaultAgent → VaultAgent) → VaultAgent → Step
save_then w finish a =
    let (saved, e) = save w.io a.store in after_save finish (record a { store = saved }) e
