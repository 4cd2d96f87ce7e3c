-- ===== src/VaultOps/Conn.antt =====
-- internal/vaultops/conn.go and env.go: what an operation needs, and the connection that it opens.
-- What is around the program is a state S: the agent behind the socket, the vault files and the user
-- who is asked for a passphrase.
use sshush.Prelude.{
  Bool, true, false, not, ◌||◌, ◌&&◌, Option, none, some, [], ◌++◌, Bytes, codes, is_empty,
  if◌then◌else◌,
}
use sshush.Prelude.Outcome.{Outcome, ok, err, panic}
use sshush.External.{External}
use sshush.Op
use sshush.Paths.{Host, expand_home_directory, resolve_to_file, display_path}
use sshush.KeyFiles.{KeyReader}
use sshush.Session.{Client, Backend}
use sshush.Vault.Types.{VaultStore}
use sshush.Vault.Store.{OpenResult, opened, open_failed, get_metadata}
use sshush.VaultOps.Errors.{
  Failure, nil, other, op_error, no_vault_path, vault_not_initialized, vault_unreadable,
}

-- What an operation works with besides its Env.
pub record Site (S : Type 0) : Type 0 where
  pub external : External
  pub reader : KeyReader
  pub host : Host
  -- vault.Open of a path
  pub open_vault : Bytes → S → OpenResult
  pub open_vault_text : Bytes → Bytes
  -- net.Dial of the socket, with the text of its error, and the agent's client on what answers
  pub dial : Bytes → S → Bool
  pub dial_text : Bytes → Bytes
  pub client : Client S
  -- the text of an error of Session.Op that is no sentinel
  pub op_text : Op.OpError → Bytes
  -- the texts of the errors of os.ReadFile at a path and of ssh.ParsePublicKey
  pub read_text : Bytes → Bytes
  pub parse_text : Bytes → Bytes

pub record Env (S : Type 0) : Type 0 where
  pub vault_path : Bytes
  pub socket_path : Bytes
  pub agent_vault_path : Bytes
  -- nil, or the prompt with what the user answers
  pub ask_passphrase : Option (Bytes → S → S × Option Bytes)

-- The bits of `need`.
pub record Need : Type 0 where
  pub need_vault_path : Bool
  pub need_store : Bool
  pub need_agent : Bool
  pub agent_if_running : Bool
  pub may_unlock : Bool

pub record Conn : Type 0 where
  pub verb : Bytes
  pub vault_path : Bytes
  pub store : Option VaultStore
  pub initialized : Bool
  -- whether there is a session
  pub session : Bool
  pub backend : Backend

abbrev pub no_backend : Backend
no_backend = record { is_vault = false; vault_locked = false; speaks_ops = false }

abbrev pub Result : Type 0 → Type 0
Result = Outcome Failure

abbrev is_initialized : VaultStore → Bool
is_initialized s = elim (get_metadata s) [ none ↦ false | some m ↦ true ]

module _ {S : Type 0} (w : Site S) where
  unfoldable pub resolve_vault_path : Bytes → Bytes
  unfolding expand_home_directory resolve_to_file
  resolve_vault_path path =
      if is_empty path then [] else resolve_to_file w.host (expand_home_directory w.host path)

  unfoldable pub not_initialized_error : Bytes → Failure
  unfolding display_path
  not_initialized_error path =
      op_error vault_not_initialized
        (codes "vault not found or not initialized at " ++ display_path w.host path) [] nil

  -- The parts of open before the agent: the path that is needed, the store, and the vault in it.
  abbrev pub with_store : Bytes → Bytes → OpenResult → Result Conn
  with_store verb path (open_failed e) = err (
      op_error vault_unreadable (codes "open vault: " ++ w.open_vault_text path) []
        (other (w.open_vault_text path)))
  with_store verb path (opened s) = ok (record {
    verb = verb;
    vault_path = path;
    store = some s;
    initialized = is_initialized s;
    session = false;
    backend = no_backend;
  })

  abbrev pub without_store : Bytes → Conn
  without_store verb = record {
    verb = verb;
    vault_path = [];
    store = none;
    initialized = false;
    session = false;
    backend = no_backend;
  }

  abbrev pub check_initialized : Need → Result Conn → Result Conn
  check_initialized n (ok c) =
      if n.need_store && not c.initialized then err (not_initialized_error c.vault_path) else ok c
  check_initialized n (err e) = err e
  check_initialized n panic = panic

  -- Where the vault path is resolved.
  abbrev pub open_at : Bytes → Need → Bytes → S → Result Conn
  open_at verb n path s =
      if (n.need_vault_path || n.need_store) && is_empty path
      then err (
          op_error no_vault_path (codes "vault path required")
            (codes "Set [vault].vault_path in config, or pass --vault-path.") nil)
      else check_initialized n (
          if is_empty path
          then ok (without_store verb)
          else with_store verb path (w.open_vault path s))

  unfoldable pub open_file : Env S → Bytes → Need → S → Result Conn
  unfolding resolve_vault_path not_initialized_error
  open_file env verb n s = open_at verb n (resolve_vault_path env.vault_path) s
