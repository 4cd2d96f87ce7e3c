-- ===== src/Vault/Serve.antt =====
-- internal/vault/op.go and Extension of internal/vault/agent.go: requests in, responses out.
use sshush.Prelude.{
  ℕ, Bool, false, Option, none, some, [], ◌∷◌, ◌++◌, Bytes, length, ◌==◌, bytes_eq, is_empty,
  if◌then◌else◌, codes,
}
use sshush.Prelude.Outcome.{Outcome, panic, ◌>>=◌}
use sshush.Prelude.BigEndian.{put_uint32}
use sshush.Prelude.Text.{trim_space, fields, join}
use sshush.External.{External}
use sshush.Openssh.{ParsedKey, ParseError, parse_private_key_blob}
use sshush.Op.{
  OpError, op_vault_locked, op_lock, op_unlock, op_unlock_recovery, op_session_load,
  op_session_unload, op_set_autoload, op_set_comment, op_add_key, status_ok, status_locked,
  status_not_found, status_no_recovery, status_bad_request, status_unsupported_op,
  status_wrong_passphrase, status_not_locked, status_internal, encode_op_response, ok_response,
  decode_op_request, extension_op,
}
use sshush.Vault.Payload.{
  Parsed, parse_set_autoload, parse_set_comment, split_add_key_opts, bad_pem,
}
use sshush.Vault.Cipher.{
  Result, ok, err, VaultError, failed, locked, wrong_passphrase, key_not_found, no_recovery,
  agent_locked, agent_not_locked, not_implemented,
}
use sshush.Vault.State.{World, VaultAgent, Step}
use sshush.Vault.Agent.{AddedKey, add_key_with_autoload}
use sshush.Vault.Lock.{lock, unlock, unlock_with_recovery}
use sshush.Vault.Session.{session_load, session_unload, set_identity_autoload, set_identity_comment}

-- The switch of statusForError on an error.
unfoldable pub status_for_error : VaultError → ℕ
status_for_error locked = status_locked
status_for_error agent_locked = status_locked
status_for_error key_not_found = status_not_found
status_for_error no_recovery = status_no_recovery
status_for_error wrong_passphrase = status_wrong_passphrase
status_for_error agent_not_locked = status_not_locked
status_for_error not_implemented = status_internal
status_for_error (failed f) = status_internal

unfoldable pub result_for : Result (Unit {0}) → Bytes
result_for (ok u) = ok_response
result_for (err e) = encode_op_response (status_for_error e) []

-- A request is answered, or the run-time panic ends the process.
pub data Reply : Type 0 where
  answered : VaultAgent → Bytes → Reply
  crashed : Reply

unfoldable pub reply : Step → Reply
reply (a, r) = answered a (result_for r)

unfoldable pub bad_request : VaultAgent → Reply
bad_request a = answered a (encode_op_response status_bad_request [])

-- An operation on parsed arguments: what does not parse is a bad request.
unfoldable pub with_parsed : {A : Type 0} → VaultAgent → Parsed A → (A → Step) → Reply
with_parsed a (Outcome.ok args) op = reply (op args)
with_parsed a (Outcome.err e) op = bad_request a
with_parsed a panic op = crashed

-- `if parsed, perr := …; perr == nil && parsed.Comment != "" { comment = parsed.Comment }`
abbrev comment_or_empty : Outcome ParseError ParsedKey → Bytes
comment_or_empty (Outcome.ok p) = p.comment
comment_or_empty (Outcome.err e) = []
comment_or_empty panic = []

unfoldable pub added_key_from_pem : External → Bytes → Parsed AddedKey
added_key_from_pem x pem = elim (x.parse_raw_private_key pem) [
  | none ↦ Outcome.err bad_pem
  | some key ↦ Outcome.ok (record {
    private_key = key;
    certificate = none;
    comment = comment_or_empty (parse_private_key_blob x pem);
    lifetime_secs = 0;
    confirm_before_use = false;
    constraint_extensions = [];
  })
]

unfoldable pub parse_add_key_opts : External → Bytes → Parsed (AddedKey × Bool × Bytes)
parse_add_key_opts x contents = do
  (pem, autoload, filepath) ← split_add_key_opts contents
  key ← added_key_from_pem x pem
  Outcome.ok (key, autoload, filepath)

-- The data of the vault-locked operation.
abbrev locked_byte : Option Bytes → ℕ
locked_byte none = 1
locked_byte (some k) = 0

unfoldable pub with_fingerprint : VaultAgent → Bytes → (Bytes → Step) → Reply
with_fingerprint a fp op = if is_empty fp then bad_request a else reply (op fp)

-- The switch of handleOp.
unfoldable pub dispatch : External → World → ℕ → Bytes → VaultAgent → Reply
dispatch x w op payload a =
    if op == op_vault_locked
    then answered a (encode_op_response status_ok (locked_byte a.master_key ∷ []))
    else if op == op_lock
    then reply (lock [] a)
    else if op == op_unlock
    then reply (unlock x payload a)
    else if op == op_unlock_recovery
    then reply (unlock_with_recovery x (join (fields (trim_space payload)) (codes " ")) a)
    else if op == op_session_load
    then with_fingerprint a (trim_space payload) (λ fp. session_load fp a)
    else if op == op_session_unload
    then with_fingerprint a (trim_space payload) (λ fp. session_unload fp a)
    else if op == op_set_autoload
    then with_parsed a (parse_set_autoload payload)
        (λ args. set_identity_autoload w args.0 args.1 a)
    else if op == op_set_comment
    then with_parsed a (parse_set_comment payload) (λ args. set_identity_comment w args.0 args.1 a)
    else if op == op_add_key
    then with_parsed a (parse_add_key_opts x payload)
        (λ args. add_key_with_autoload x w args.0 args.1 args.2 a)
    else answered a (encode_op_response status_unsupported_op [])

abbrev pub dispatch_decoded : External → World → VaultAgent → Outcome OpError (ℕ × Bytes) → Reply
dispatch_decoded x w a (Outcome.ok (op, payload)) = dispatch x w op payload a
dispatch_decoded x w a (Outcome.err e) = bad_request a
dispatch_decoded x w a panic = crashed

unfoldable pub handle_op : External → World → Bytes → VaultAgent → Reply
handle_op x w contents a = dispatch_decoded x w a (decode_op_request contents)

abbrev extension_query : Bytes
extension_query = codes "query"

-- ssh.Marshal of a structure of one string.
ssh_string : Bytes → Bytes
ssh_string s = put_uint32 (length s) ++ s

-- Extension: `none` is sshagent.ErrExtensionUnsupported.
unfoldable pub extension : External → World → Bytes → Bytes → VaultAgent → Option Reply
unfolding ssh_string
extension x w name contents a =
    if bytes_eq name extension_query
    then some (answered a (ssh_string extension_query ++ ssh_string extension_op))
    else if bytes_eq name extension_op
    then some (handle_op x w contents a)
    else none
