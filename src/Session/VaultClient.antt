-- ===== src/Session/VaultClient.antt =====
-- internal/vault/session_ops.go and internal/agent/session.go against internal/vault/op.go: a
-- session that is connected to the vault's agent.
use sshush.Prelude.{
  inl, inr, Option-cases, ℕ, ◌≡◌, refl, ◌∙◌, Bool, true, not, Option, none, some, [], ◌∷◌, Bytes,
  codes, length, ◌<◌,
}
use sshush.Prelude.Outcome.{ok, err}
use sshush.Prelude.Text.{join, fields, trim_space}
use sshush.Prelude.BigEndian.{uint32_size}
use sshush.External.{External}
use sshush.Op.{
  OpError, vault_locked, identity_not_found, no_recovery, wrong_passphrase, not_locked,
  agent_internal, Op, extension_op, encode_op_request, encode_op_response, ok_response,
  error_for_status, decode_op_response, status_ok, op_unlock, op_lock, op_unlock_recovery,
  op_vault_locked,
}
use sshush.Op.RoundTrip.{decode-encode_op_request, decode-encode_op_response}
use sshush.Vault.Cipher.{Result, VaultError}
use sshush.Vault.Payload.{build_set_autoload, build_set_comment}
use sshush.Vault.Payload.RoundTrip.{parse-build_set_autoload, parse-build_set_comment}
use sshush.Vault.State.{World, VaultAgent, Step}
use sshush.Vault.Lock.{unlock, lock, unlock_with_recovery}
use sshush.Vault.Session.{set_identity_autoload, set_identity_comment}
use sshush.Vault.Serve.{
  Reply, answered, crashed, result_for, status_for_error, reply, with_parsed, dispatch, handle_op,
}
use sshush.Session
use sshush.Vault.Store.Lookup.{is_some}
use sshush.Session.{
  only_error, or_plain, Client, ExtensionReply, body, broken, session_op, Backend, backend,
  set_autoload, set_comment, backend_of, unlock_with_recovery_phrase,
}

-- How a reply of the agent's process reaches the client; `none` is the process that has ended.
unfoldable pub delivered : Reply → Option VaultAgent × ExtensionReply
delivered (answered a resp) = (some a, body resp)
delivered crashed = (none, broken)

-- A client whose sshush-op requests reach the vault's agent, as sshagent's client and ServeAgent
-- pass an extension's contents and its response through.
unfoldable pub IsConnected : External → World → Client (Option VaultAgent) → Type 0
IsConnected x w c =
    (contents : Bytes) (a : VaultAgent)
    → c.extension extension_op contents (some a) ≡ delivered (handle_op x w contents a)

-- The sentinel of package agent for an error of package vault.
unfoldable pub reported_error : VaultError → OpError
reported_error VaultError.locked = vault_locked
reported_error VaultError.agent_locked = vault_locked
reported_error VaultError.key_not_found = identity_not_found
reported_error VaultError.no_recovery = no_recovery
reported_error VaultError.wrong_passphrase = wrong_passphrase
reported_error VaultError.agent_not_locked = not_locked
reported_error VaultError.not_implemented = agent_internal
reported_error (VaultError.failed f) = agent_internal

-- What the session is told of a step of the agent.
unfoldable pub reported : Step → Option VaultAgent × Op (Unit {0})
reported (a, Result.ok u) = (some a, ok tt)
reported (a, Result.err e) = (some a, err (reported_error e))

decode-status :
    (e : VaultError)
    → decode_op_response (encode_op_response (status_for_error e) []) ≡ err (reported_error e)
unfolding status_for_error error_for_status reported_error
decode-status VaultError.locked = decode-encode_op_response _ []
decode-status VaultError.agent_locked = decode-encode_op_response _ []
decode-status VaultError.key_not_found = decode-encode_op_response _ []
decode-status VaultError.no_recovery = decode-encode_op_response _ []
decode-status VaultError.wrong_passphrase = decode-encode_op_response _ []
decode-status VaultError.agent_not_locked = decode-encode_op_response _ []
decode-status VaultError.not_implemented = decode-encode_op_response _ []
decode-status (VaultError.failed f) = decode-encode_op_response _ []

decode-ok : decode_op_response ok_response ≡ ok []
unfolding ok_response error_for_status
decode-ok = decode-encode_op_response _ []

-- The data that the client decodes from the response to a step.
sent_back : Result (Unit {0}) → Op Bytes
sent_back (Result.ok u) = ok []
sent_back (Result.err e) = err (reported_error e)

only_error-sent : (s : Step) → only_error (some s.0, sent_back s.1) ≡ reported s
unfolding reported sent_back
only_error-sent (a, Result.ok u) = refl
only_error-sent (a, Result.err e) = refl

-- No error that the vault reports makes the session fall back to the plain protocol.
or_plain-sent :
    (f : Option VaultAgent → Option VaultAgent × Bool) (s : Step)
    → or_plain f (some s.0, sent_back s.1) ≡ reported s
unfolding reported sent_back reported_error
or_plain-sent f (a, Result.ok u) = refl
or_plain-sent f (a, Result.err VaultError.locked) = refl
or_plain-sent f (a, Result.err VaultError.agent_locked) = refl
or_plain-sent f (a, Result.err VaultError.key_not_found) = refl
or_plain-sent f (a, Result.err VaultError.no_recovery) = refl
or_plain-sent f (a, Result.err VaultError.wrong_passphrase) = refl
or_plain-sent f (a, Result.err VaultError.agent_not_locked) = refl
or_plain-sent f (a, Result.err VaultError.not_implemented) = refl
or_plain-sent f (a, Result.err (VaultError.failed e)) = refl

module _ (x : External) (w : World) (c : Client (Option VaultAgent)) where
  dispatched :
      IsConnected x w c
      → (op : ℕ) (payload : Bytes) (a : VaultAgent)
      → c.extension extension_op (encode_op_request op payload) (some a)
        ≡ delivered (dispatch x w op payload a)
  unfolding handle_op IsConnected
  dispatched h op payload a =
      h (encode_op_request op payload) a ∙ rw (decode-encode_op_request op payload) refl

  -- What an operation that replies with a step sends back.
  op_reported :
      IsConnected x w c
      → (op : ℕ) (payload : Bytes) (a : VaultAgent) (s : Step) → dispatch x w op payload a ≡ reply s
      → session_op c op payload (some a) ≡ (some s.0, sent_back s.1)
  unfolding session_op reply result_for delivered sent_back
  op_reported h op payload a (b, Result.ok u) e = rw (dispatched h op payload a, e, decode-ok) refl
  op_reported h op payload a (b, Result.err f) e =
      rw (dispatched h op payload a, e, decode-status f) refl

  -- The session is told of just that step.
  step_reported :
      IsConnected x w c
      → (op : ℕ) (payload : Bytes) (a : VaultAgent) (s : Step) → dispatch x w op payload a ≡ reply s
      → only_error (session_op c op payload (some a)) ≡ reported s
  step_reported h op payload a s e = rw (op_reported h op payload a s e) (only_error-sent s)

  -- On a session connected to the vault's agent, SetAutoload performs setIdentityAutoload with
  -- just its arguments and returns the sentinel of its error. The fingerprint is shorter than 4 GiB.
  pub set_autoload-connected :
      (fp : Bytes) (on : Bool) (a : VaultAgent)
      → IsConnected x w c
      → length fp < uint32_size
      → set_autoload c fp on (some a) ≡ reported (set_identity_autoload w fp on a)
  unfolding set_autoload dispatch with_parsed
  set_autoload-connected fp on a h k =
      step_reported h _ (build_set_autoload fp on) a (set_identity_autoload w fp on a)
        (rw (parse-build_set_autoload fp on k) refl)

  -- The same of SetComment and setIdentityComment.
  pub set_comment-connected :
      (fp comment : Bytes) (a : VaultAgent)
      → IsConnected x w c
      → length fp < uint32_size
      → length comment < uint32_size
      → set_comment c fp comment (some a) ≡ reported (set_identity_comment w fp comment a)
  unfolding set_comment dispatch with_parsed
  set_comment-connected fp comment a h k l =
      step_reported h _ (build_set_comment fp comment) a (set_identity_comment w fp comment a)
        (rw (parse-build_set_comment fp comment k l) refl)

  -- Unlock performs the agent's Unlock, and never falls back to the plain protocol.
  pub unlock-connected :
      (passphrase : Bytes) (a : VaultAgent)
      → IsConnected x w c
      → Session.unlock c passphrase (some a) ≡ reported (unlock x passphrase a)
  unfolding Session.unlock dispatch
  unlock-connected passphrase a h =
      rw (op_reported h op_unlock passphrase a (unlock x passphrase a) refl)
        (or_plain-sent (c.unlock passphrase) (unlock x passphrase a))

  -- Lock performs the agent's Lock.
  pub lock-connected :
      (a : VaultAgent) → IsConnected x w c → Session.lock c [] (some a) ≡ reported (lock [] a)
  unfolding Session.lock dispatch
  lock-connected a h =
      rw (op_reported h op_lock [] a (lock [] a) refl) (or_plain-sent (c.lock []) (lock [] a))

  -- UnlockWithRecoveryPhrase performs UnlockWithRecovery with the words, single spaces between them.
  pub unlock_with_recovery_phrase-connected :
      (mnemonic : Bytes) (a : VaultAgent)
      → IsConnected x w c
      → unlock_with_recovery_phrase c mnemonic (some a)
        ≡ reported (unlock_with_recovery x (join (fields (trim_space mnemonic)) (codes " ")) a)
  unfolding unlock_with_recovery_phrase dispatch
  unlock_with_recovery_phrase-connected mnemonic a h =
      step_reported h op_unlock_recovery mnemonic a
        (unlock_with_recovery x (join (fields (trim_space mnemonic)) (codes " ")) a) refl

  -- Backend recognises the vault's agent, tells whether it is locked, and changes nothing.
  pub backend-connected :
      (a : VaultAgent)
      → IsConnected x w c
      → backend c (some a) ≡ (
        some a,
        ok (record {
          is_vault = true;
          vault_locked = not (is_some a.master_key);
          speaks_ops = true;
        }),
      )
  unfolding backend session_op backend_of dispatch delivered error_for_status
  backend-connected a h = elim (Option-cases a.master_key) [
    | inl none_held ↦
        rw (dispatched h op_vault_locked [] a, none_held)
          (rw (decode-encode_op_response status_ok (1 ∷ [])) refl)
    | inr (k, held) ↦
        rw (dispatched h op_vault_locked [] a, held)
          (rw (decode-encode_op_response status_ok (0 ∷ [])) refl)
  ]
