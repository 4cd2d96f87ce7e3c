-- ===== src/VaultOps/Init.antt =====
-- internal/vaultops/init.go: creating a vault where none is, with its recovery phrase.
use sshush.Prelude.{
  Bool, true, false, Option, none, some, List, [], ◌∷◌, ◌++◌, Bytes, codes, is_empty, if◌then◌else◌,
}
use sshush.Prelude.FilePath.{dir, join_path}
use sshush.Prelude.Outcome.{ok, err, panic}
use sshush.External.{Unicode}
use sshush.Paths.{Stat, no_entry, is_directory, is_other, expand_home_directory, display_path}
use sshush.Vault.Cipher
use sshush.Vault.Cipher.{VaultError}
use sshush.Vault.State.{World}
use sshush.Vault.Types.{VaultStore}
use sshush.Vault.Store.{OpenResult, opened, open_failed}
use sshush.Vault.Init.{init_vault, enable_recovery_with_passphrase}
use sshush.VaultOps.Errors.{
  nil, other, op_error, no_vault_path, vault_exists, vault_unreadable, local_io,
}
use sshush.VaultOps.Conn.{Site, Env, Result, resolve_vault_path}

pub record InitOptions : Type 0 where
  pub recovery : Bool
  pub recovery_file : Bytes

pub record InitResult : Type 0 where
  pub vault_path : Bytes
  pub mnemonic : Bytes
  pub recovery_file : Bytes
  pub extra_file : Bytes

-- What the calls of Init are given: the randomness, the time and the I/O of the two saves, the new
-- mnemonic, and which files can be written. `text` is the text of an error.
pub record Supplies : Type 0 where
  pub unicode : Unicode
  pub init_world : World
  pub init_salt : Option Bytes
  pub recovery_world : World
  pub recovery_salt : Option Bytes
  pub new_mnemonic : Option Bytes
  pub can_write : Bytes → Bool
  pub text : VaultError → Bytes
  pub mnemonic_text : Bytes
  pub write_text : Bytes → Bytes

-- What Init leaves behind: the store, and the files it wrote, the last one first.
pub record Created : Type 0 where
  pub store : Option VaultStore
  pub written : List (Bytes × Bytes)

abbrev pub InitRun : Type 0
InitRun = Created × (InitResult × Result (Unit {0}))

abbrev nothing : Created
nothing = record { store = none; written = [] }

abbrev no_result : InitResult
no_result = record { vault_path = []; mnemonic = []; recovery_file = []; extra_file = [] }

abbrev pub only_path : Bytes → InitResult
only_path path = record { vault_path = path; mnemonic = []; recovery_file = []; extra_file = [] }

abbrev in_the_way : Stat → Bool
in_the_way no_entry = false
in_the_way is_directory = false
in_the_way is_other = true

module _ {S : Type 0} (w : Site S) where
  -- The path is returned with the error too.
  unfoldable pub init_target : Env S → Bytes × Result (Unit {0})
  unfolding resolve_vault_path display_path
  init_target env =
      let path = resolve_vault_path w env.vault_path in
      if is_empty path
      then (
        [],
        err (
            op_error no_vault_path (codes "vault path required")
              (codes "Set [vault].vault_path in config, or pass --vault-path.") nil),
      )
      else if in_the_way (w.host.stat path)
      then (
        path,
        err (
            op_error vault_exists (codes "vault already exists at " ++ display_path w.host path) []
              nil),
      )
      else (path, ok tt)

  module _ (y : Supplies) where
    abbrev io_error : Bytes → Bytes → Result (Unit {0})
    io_error what text = err (op_error local_io (what ++ text) [] (other text))

    abbrev with_extra : VaultStore → Bytes → Bytes → Bytes → Bytes → InitRun
    with_extra store path phrase recovery_txt recovery_file =
        let extra = expand_home_directory w.host recovery_file in
        let first : Bytes × Bytes = (recovery_txt, phrase ++ codes "\n") in
        let res : InitResult = record {
          vault_path = path;
          mnemonic = phrase;
          recovery_file = recovery_txt;
          extra_file = [];
        } in
        if is_empty recovery_file
        then (record { store = some store; written = first ∷ [] }, (res, ok tt))
        else if y.can_write extra
        then (
          record { store = some store; written = (extra, phrase ++ codes "\n") ∷ first ∷ [] },
          (
            record {
              vault_path = path;
              mnemonic = phrase;
              recovery_file = recovery_txt;
              extra_file = extra;
            },
            ok tt,
          ),
        )
        else (
          record { store = some store; written = first ∷ [] },
          (res, io_error (codes "write recovery file: ") (y.write_text extra)),
        )

    abbrev write_phrase : VaultStore → Bytes → Bytes → InitOptions → InitRun
    write_phrase store path phrase opts =
        let recovery_txt = join_path (dir path) (codes "recovery.txt") in
        if y.can_write recovery_txt
        then with_extra store path phrase recovery_txt opts.recovery_file
        else (
          record { store = some store; written = [] },
          (only_path path, io_error (codes "write recovery.txt: ") (y.write_text recovery_txt)),
        )

    abbrev after_enable :
        Bytes → Bytes → InitOptions → VaultStore × Cipher.Result (Unit {0}) → InitRun
    after_enable path phrase opts (store, Cipher.ok u) = write_phrase store path phrase opts
    after_enable path phrase opts (store, Cipher.err e) = (
      record { store = some store; written = [] },
      (only_path path, io_error (codes "enable recovery: ") (y.text e)),
    )

    abbrev with_mnemonic : Bytes → Bytes → InitOptions → VaultStore → Option Bytes → InitRun
    with_mnemonic path passphrase opts store none = (
      record { store = some store; written = [] },
      (only_path path, io_error (codes "generate recovery phrase: ") y.mnemonic_text),
    )
    with_mnemonic path passphrase opts store (some phrase) = after_enable path phrase opts (
        enable_recovery_with_passphrase w.external y.recovery_world y.recovery_salt passphrase
          phrase store)

    abbrev after_init :
        Bytes → Bytes → InitOptions → VaultStore × Cipher.Result (Unit {0}) → InitRun
    after_init path passphrase opts (store, Cipher.err e) = (
      record { store = some store; written = [] },
      (no_result, io_error (codes "init vault: ") (y.text e)),
    )
    after_init path passphrase opts (store, Cipher.ok u) =
        let enabled = with_mnemonic path passphrase opts store y.new_mnemonic in
        if opts.recovery
        then enabled
        else (record { store = some store; written = [] }, (only_path path, ok tt))

    abbrev init_opened : Bytes → Bytes → InitOptions → OpenResult → InitRun
    init_opened path passphrase opts (open_failed e) = (
      nothing,
      (
        no_result,
        err (
            op_error vault_unreadable (codes "create vault: " ++ w.open_vault_text path) []
              (other (w.open_vault_text path))),
      ),
    )
    init_opened path passphrase opts (opened store) =
        after_init path passphrase opts
          (init_vault w.external y.unicode y.init_world y.init_salt passphrase store)

    abbrev init_at : Bytes → InitOptions → S → Bytes × Result (Unit {0}) → InitRun
    init_at passphrase opts s (path, err e) = (nothing, (no_result, err e))
    init_at passphrase opts s (path, panic) = (nothing, (no_result, panic))
    init_at passphrase opts s (path, ok u) = init_opened path passphrase opts (w.open_vault path s)

    unfoldable pub init : Env S → Bytes → InitOptions → S → InitRun
    unfolding init_target init_vault enable_recovery_with_passphrase join_path dir
        expand_home_directory
    init env passphrase opts s = init_at passphrase opts s (init_target env)
