-- ===== src/VaultOps/Attach.antt =====
-- internal/vaultops/conn.go: the session that an operation asks for, the transparent unlock, and what
-- is asked of the agent and of the store over the connection.
use sshush.Prelude.{
  Bool, true, false, not, ◌||◌, ◌&&◌, Option, none, some, ◌++◌, Bytes, codes, is_empty, bytes_eq,
  if◌then◌else◌,
}
use sshush.Prelude.Outcome.{ok, err, panic}
use sshush.Op
use sshush.Session
use sshush.Session.{Backend}
use sshush.VaultOps.Errors.{Failure, nil, other, wrapped, op_error, no_agent, gate_error, of_op}
use sshush.VaultOps.Conn.{Site, Env, Need, Conn, Result, resolve_vault_path, open_file}

abbrev pub with_session : Backend → Conn → Conn
with_session b c = record {
  verb = c.verb;
  vault_path = c.vault_path;
  store = c.store;
  initialized = c.initialized;
  session = true;
  backend = b;
}

abbrev unlocked : Backend → Backend
unlocked b = record { is_vault = b.is_vault; vault_locked = false; speaks_ops = b.speaks_ops }

module _ {S : Type 0} (w : Site S) where
  -- An error of Unlock is swallowed.
  abbrev after_unlock : Conn → S × Op.Op (Unit {0}) → S × Result Conn
  after_unlock c (s, ok u) = (s, ok (with_session (unlocked c.backend) c))
  after_unlock c (s, err e) = (s, ok c)
  after_unlock c (s, panic) = (s, panic)

  abbrev unlock_with : Conn → S × Option Bytes → S × Result Conn
  unlock_with c (s, none) = (s, ok c)
  unlock_with c (s, some passphrase) = after_unlock c (Session.unlock w.client passphrase s)

  -- Whether the agent serves the vault that the operation is about.
  abbrev pub serves_this_vault : Env S → Conn → Bool
  serves_this_vault env c =
      let agent_vault = resolve_vault_path w env.agent_vault_path in
      not (is_empty agent_vault || is_empty c.vault_path || not (bytes_eq c.vault_path agent_vault))

  abbrev ask_and_unlock : Env S → Conn → Option (Bytes → S → S × Option Bytes) → S → S × Result Conn
  ask_and_unlock env c none s = (s, ok c)
  ask_and_unlock env c (some ask) s =
      let unlocks = unlock_with c (ask (codes "Passphrase: ") s) in
      if serves_this_vault env c && c.backend.is_vault && c.backend.vault_locked
      then unlocks
      else (s, ok c)

  -- On a conn that has a session.
  unfoldable pub unlock_if_locked : Env S → Conn → S → S × Result Conn
  unlock_if_locked env c s = ask_and_unlock env c env.ask_passphrase s

  abbrev dial_error : Bytes → Failure
  dial_error path =
      if is_empty path
      then other (codes "agent: dial socket: no socket path")
      else wrapped (codes "agent: dial socket " ++ path ++ codes ": ") (other (w.dial_text path))

  abbrev no_agent_error : Bytes → Failure → Failure
  no_agent_error verb e =
      op_error no_agent (codes "vault " ++ verb ++ codes " requires a running vault agent")
        (codes "Start it with 'sshush start'.") e

  abbrev pub maybe_unlock : Env S → Need → Conn → S → S × Result Conn
  maybe_unlock env n c s =
      let unlocks = unlock_if_locked env c s in if n.may_unlock then unlocks else (s, ok c)

  -- With what Backend came back with.
  abbrev pub gated : Env S → Need → Conn → S × Op.Op Backend → S × Result Conn
  gated env n c (s, ok b) =
      let attached = maybe_unlock env n (with_session b c) s in
      if n.need_agent && not b.is_vault
      then (s, err (gate_error c.verb b.speaks_ops nil))
      else attached
  gated env n c (s, err e) =
      let attached = maybe_unlock env n (with_session c.backend c) s in
      if n.need_agent
      then (s, err (gate_error c.verb c.backend.speaks_ops (of_op w.op_text e)))
      else attached
  gated env n c (s, panic) = (s, panic)

  unfoldable pub attach_agent : Env S → Need → Conn → S → S × Result Conn
  unfolding unlock_if_locked gate_error of_op Session.backend
  attach_agent env n c s =
      let gate = gated env n c (Session.backend w.client s) in
      if not (n.need_agent || n.agent_if_running)
      then (s, ok c)
      else if is_empty env.socket_path || not (w.dial env.socket_path s)
      then (
        s,
        if n.need_agent then err (no_agent_error c.verb (dial_error env.socket_path)) else ok c,
      )
      else gate

  abbrev pub attach_to : Env S → Need → S → Result Conn → S × Result Conn
  attach_to env n s (ok c) = attach_agent env n c s
  attach_to env n s (err e) = (s, err e)
  attach_to env n s panic = (s, panic)

  unfoldable pub open_conn : Env S → Bytes → Need → S → S × Result Conn
  unfolding open_file attach_agent
  open_conn env verb n s = attach_to env n s (open_file w env verb n s)

  -- RequireVaultAgent
  abbrev forget_conn : S × Result Conn → S × Result (Unit {0})
  forget_conn (s, ok c) = (s, ok tt)
  forget_conn (s, err e) = (s, err e)
  forget_conn (s, panic) = (s, panic)

  unfoldable pub require_vault_agent : Env S → Bytes → S → S × Result (Unit {0})
  unfolding open_conn
  require_vault_agent env verb s = forget_conn (
      open_conn env verb
        (record {
          need_vault_path = false;
          need_store = false;
          need_agent = true;
          agent_if_running = false;
          may_unlock = false;
        })
        s)
