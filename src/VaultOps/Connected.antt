-- ===== src/VaultOps/Connected.antt =====
-- internal/vaultops/lock.go against internal/vault/agent.go: the verbs that lock and unlock, on an
-- agent of the vault that answers on the socket.
use sshush.Prelude.{
  ◌≡◌, refl, ap, true, false, not, Option, some, [], Bytes, codes, is_empty, arith,
}
use sshush.Prelude.Text.{join, fields, trim_space}
use sshush.Prelude.Outcome.{Outcome, ok, err, panic}
use sshush.External.{External}
use sshush.Vault.Cipher
use sshush.Vault.Cipher.{VaultError}
use sshush.Vault.Lock
use sshush.Vault.State.{World, VaultAgent, Step}
use sshush.Vault.Store.Lookup.{is_some}
use sshush.Session.{Backend}
use sshush.Session.VaultClient.{
  IsConnected, reported, reported_error, unlock-connected, lock-connected,
  unlock_with_recovery_phrase-connected, backend-connected,
}
use sshush.VaultOps.Errors.{
  Code, vault_locked, identity_not_found, no_recovery, wrong_passphrase, not_locked, agent_failed,
  code_of, describe, of_op, is_error, as_op_error,
}
use sshush.VaultOps.Conn.{Site, Env, Conn, Result, open_file}
use sshush.VaultOps.Attach.{open_conn, attach_agent, with_session}
use sshush.VaultOps.Verbs.{needs_agent}
use sshush.VaultOps.Settings.{described_op, lock, unlock_passphrase, unlock_recovery}

-- The code that the user is told for an error of the vault.
unfoldable pub code_for : VaultError → Code
code_for VaultError.locked = vault_locked
code_for VaultError.agent_locked = vault_locked
code_for VaultError.key_not_found = identity_not_found
code_for VaultError.no_recovery = no_recovery
code_for VaultError.wrong_passphrase = wrong_passphrase
code_for VaultError.agent_not_locked = not_locked
code_for VaultError.not_implemented = agent_failed
code_for (VaultError.failed f) = agent_failed

-- What a verb comes back with: no code where it succeeded, or the code of its error.
abbrev pub Verdict : Type 0
Verdict = Option VaultAgent × Option Code

unfoldable pub verdict_of :
    Option VaultAgent × Result (Unit {0}) → Option VaultAgent × Outcome Code (Unit {0})
verdict_of (s, ok u) = (s, ok u)
verdict_of (s, err e) = (s, err (code_of e))
verdict_of (s, panic) = (s, panic)

unfoldable pub expected : Step → Option VaultAgent × Outcome Code (Unit {0})
unfolding code_for
expected (a, Cipher.ok u) = (some a, ok u)
expected (a, Cipher.err e) = (some a, err (code_for e))

-- What Backend tells of the vault's agent.
abbrev pub backend_of_vault : VaultAgent → Backend
backend_of_vault a = record {
  is_vault = true;
  vault_locked = not (is_some a.master_key);
  speaks_ops = true;
}

module _ (x : External) (w : World) (site : Site (Option VaultAgent))
    (env : Env (Option VaultAgent)) where
  -- The agent answers on the socket.
  unfoldable pub Answers : VaultAgent → Type 0
  Answers a =
      IsConnected x w site.client
      × (is_empty env.socket_path ≡ false)
      × (site.dial env.socket_path (some a) ≡ true)

  open_conn-Answers :
      (verb : Bytes) (a : VaultAgent) (c : Conn)
      → Answers a
      → open_file site env verb needs_agent (some a) ≡ ok c
      → open_conn site env verb needs_agent (some a)
        ≡ (some a, ok (with_session (backend_of_vault a) c))
  unfolding open_conn attach_agent Answers
  open_conn-Answers verb a c (connected, path, dials) opens =
      rw (opens, path, dials, backend-connected x w site.client a connected) refl

  code-reported :
      (verb : Bytes) (e : VaultError)
      → code_of (describe (of_op site.op_text (reported_error e)) verb []) ≡ code_for e
  unfolding reported_error of_op code_for code_of describe is_error as_op_error
  code-reported verb VaultError.locked = refl
  code-reported verb VaultError.agent_locked = refl
  code-reported verb VaultError.key_not_found = refl
  code-reported verb VaultError.no_recovery = refl
  code-reported verb VaultError.wrong_passphrase = ground arith
  code-reported verb VaultError.agent_not_locked = refl
  code-reported verb VaultError.not_implemented = refl
  code-reported verb (VaultError.failed f) = refl

  verdict-reported :
      (verb : Bytes) (s : Step)
      → verdict_of (described_op site verb [] tt (reported s)) ≡ expected s
  unfolding verdict_of expected reported
  verdict-reported verb (a, Cipher.ok u) = refl
  verdict-reported verb (a, Cipher.err e) = ap (λ c. (some a, err c)) (code-reported verb e)

  -- What follows on an agent that answers, where nothing stands in the way of the connection.
  unfoldable pub IsReady : Bytes → VaultAgent → Type 0
  IsReady verb a = Answers a × ((c : Conn) × (open_file site env verb needs_agent (some a) ≡ ok c))

  -- On an agent of the vault that answers, and with a vault file that can be read or none configured,
  -- UnlockPassphrase of vaultops performs the agent's Unlock on the passphrase, and succeeds or reports
  -- the code of its error, CodeNotLocked where the agent was unlocked already among them.
  pub verdict_of-unlock_passphrase :
      (passphrase : Bytes) (a : VaultAgent)
      → IsReady (codes "unlock") a
      → verdict_of (unlock_passphrase site env passphrase (some a))
        ≡ expected (Lock.unlock x passphrase a)
  unfolding unlock_passphrase IsReady Answers
  verdict_of-unlock_passphrase passphrase a (answers, (c, opens)) =
      let e = open_conn-Answers (codes "unlock") a c answers opens in
      rw (e, unlock-connected x w site.client passphrase a answers.0)
        (verdict-reported (codes "unlock") (Lock.unlock x passphrase a))

  -- The same of Lock of vaultops and the agent's Lock.
  pub verdict_of-lock :
      (a : VaultAgent)
      → IsReady (codes "lock") a
      → verdict_of (lock site env (some a)) ≡ expected (Lock.lock [] a)
  unfolding lock IsReady Answers
  verdict_of-lock a (answers, (c, opens)) =
      let e = open_conn-Answers (codes "lock") a c answers opens in
      rw (e, lock-connected x w site.client a answers.0)
        (verdict-reported (codes "lock") (Lock.lock [] a))

  -- The same of UnlockRecovery of vaultops and the agent's UnlockWithRecovery, on the words of what the
  -- user typed with single spaces between them.
  pub verdict_of-unlock_recovery :
      (mnemonic : Bytes) (a : VaultAgent)
      → IsReady (codes "unlock-recovery") a
      → verdict_of (unlock_recovery site env mnemonic (some a))
        ≡ expected (Lock.unlock_with_recovery x (join (fields (trim_space mnemonic)) (codes " ")) a)
  unfolding unlock_recovery IsReady Answers
  verdict_of-unlock_recovery mnemonic a (answers, (c, opens)) =
      let e = open_conn-Answers (codes "unlock-recovery") a c answers opens in
      rw (e, unlock_with_recovery_phrase-connected x w site.client mnemonic a answers.0)
        (verdict-reported (codes "unlock-recovery")
          (Lock.unlock_with_recovery x (join (fields (trim_space mnemonic)) (codes " ")) a))
