-- ===== src/VaultOps/Settings.antt =====
-- internal/vaultops/lock.go and session.go: locking and unlocking, and the verbs that change what the
-- agent serves.
use sshush.Prelude.{Bool, List, [], Bytes, codes}
use sshush.Prelude.Outcome.{ok, err, panic}
use sshush.Op
use sshush.Session
use sshush.VaultOps.Errors.{describe, of_op}
use sshush.VaultOps.Conn.{Site, Env, Conn, Result}
use sshush.VaultOps.Attach.{open_conn}
use sshush.VaultOps.Selectors.{resolve_fingerprint}
use sshush.VaultOps.Loop.{Report, until_failure}
use sshush.VaultOps.Verbs.{needs_agent, needs_agent_unlocked}

module _ {S : Type 0} (w : Site S) where
  -- The error of an operation, described; `a` where there is none.
  abbrev pub described_op : {A : Type 0} → Bytes → Bytes → A → S × Op.Op (Unit {0}) → S × Result A
  described_op verb selector a (s, ok u) = (s, ok a)
  described_op verb selector a (s, err e) = (s, err (describe (of_op w.op_text e) verb selector))
  described_op verb selector a (s, panic) = (s, panic)

  abbrev pub with_conn : {A : Type 0} → (Conn → S → S × Result A) → S × Result Conn → S × Result A
  with_conn f (s, ok c) = f c s
  with_conn f (s, err e) = (s, err e)
  with_conn f (s, panic) = (s, panic)

  unfoldable pub lock : Env S → S → S × Result (Unit {0})
  unfolding open_conn describe of_op
  lock env s =
      with_conn (λ c t. described_op (codes "lock") [] tt (Session.lock w.client [] t))
        (open_conn w env (codes "lock") needs_agent s)

  unfoldable pub unlock_passphrase : Env S → Bytes → S → S × Result (Unit {0})
  unfolding open_conn describe of_op
  unlock_passphrase env passphrase s =
      with_conn (λ c t. described_op (codes "unlock") [] tt (Session.unlock w.client passphrase t))
        (open_conn w env (codes "unlock") needs_agent s)

  unfoldable pub unlock_recovery : Env S → Bytes → S → S × Result (Unit {0})
  unfolding open_conn describe of_op
  unlock_recovery env mnemonic s =
      with_conn
        (λ c t.
          described_op (codes "unlock-recovery") [] tt
            (Session.unlock_with_recovery_phrase w.client mnemonic t))
        (open_conn w env (codes "unlock-recovery") needs_agent s)

  -- An operation of the agent on what a selector resolves to.
  abbrev on_fingerprint :
      Bytes → (Bytes → S → S × Op.Op (Unit {0})) → Bytes → Result Bytes → S → S × Result Bytes
  on_fingerprint verb op selector (ok fp) s = described_op verb selector fp (op fp s)
  on_fingerprint verb op selector (err e) s = (s, err (describe e verb selector))
  on_fingerprint verb op selector panic s = (s, panic)

  unfoldable pub on_selector :
      Bytes → (Bytes → S → S × Op.Op (Unit {0})) → Conn → Bytes → S → S × Result Bytes
  unfolding describe of_op resolve_fingerprint
  on_selector verb op c selector s =
      on_fingerprint verb op selector (resolve_fingerprint w c selector) s

  abbrev with_loop :
      (Conn → S → S × Report (List Bytes)) → S × Result Conn → S × Report (List Bytes)
  with_loop loop (s, ok c) = loop c s
  with_loop loop (s, err e) = (s, ([], err e))
  with_loop loop (s, panic) = (s, ([], panic))

  unfoldable pub session_load : Env S → List Bytes → S → S × Report (List Bytes)
  unfolding open_conn until_failure on_selector
  session_load env selectors s =
      with_loop
        (λ c.
          until_failure (on_selector (codes "load") (Session.session_load w.client) c) selectors)
        (open_conn w env (codes "load") needs_agent_unlocked s)

  -- The On of the result is the argument.
  unfoldable pub set_autoload : Env S → List Bytes → Bool → S → S × Report (List Bytes)
  unfolding open_conn until_failure on_selector
  set_autoload env selectors on s =
      with_loop
        (λ c.
          until_failure
            (on_selector (codes "autoload") (λ fp. Session.set_autoload w.client fp on) c)
            selectors)
        (open_conn w env (codes "autoload") needs_agent_unlocked s)
