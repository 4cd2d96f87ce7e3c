-- ===== src/VaultOps/Errors.antt =====
-- internal/vaultops/errors.go, with the sentinels of agent/op.go, vault/resolve.go and
-- openssh/parse.go as the values of an error chain, which errors.Is and errors.As walk.
use sshush.Prelude.{
  ℕ, ◌==◌, Bool, true, false, ◌||◌, Option, none, some, [], ◌++◌, Bytes, codes, is_empty, bytes_eq,
  if◌then◌else◌,
}
use sshush.Op

pub data Code : Type 0 where
  unknown no_vault_path vault_not_initialized vault_exists vault_unreadable : Code
  no_agent not_vault_agent vault_locked identity_not_found ambiguous_selector : Code
  encrypted_key no_recovery wrong_passphrase not_locked agent_failed local_io : Code

-- The sentinels, and a number to tell them apart by.
pub data Sentinel : Type 0 where
  op_unsupported op_unknown agent_vault_locked agent_identity_not_found agent_no_recovery : Sentinel
  agent_wrong_passphrase agent_not_locked bad_request agent_internal : Sentinel
  vault_identity_not_found ambiguous_comment encrypted_private_key : Sentinel

abbrev pub number : Sentinel → ℕ
number op_unsupported = 0
number op_unknown = 1
number agent_vault_locked = 2
number agent_identity_not_found = 3
number agent_no_recovery = 4
number agent_wrong_passphrase = 5
number agent_not_locked = 6
number bad_request = 7
number agent_internal = 8
number vault_identity_not_found = 9
number ambiguous_comment = 10
number encrypted_private_key = 11

-- A Go error. `wrapped` is fmt.Errorf with its prefix and `%w`, `other` an error with no sentinel,
-- and `op_error` an OpError with its Code, Msg, Hint and Err, where `nil` is no error.
pub data Failure : Type 0 where
  nil : Failure
  sentinel : Sentinel → Failure
  other : Bytes → Failure
  wrapped : Bytes → Failure → Failure
  op_error : Code → Bytes → Bytes → Failure → Failure

abbrev sentinel_text : Sentinel → Bytes
sentinel_text op_unsupported = codes "agent: sshush-op extension unsupported"
sentinel_text op_unknown = codes "agent: operation not supported by this agent"
sentinel_text agent_vault_locked = codes "agent: vault is locked"
sentinel_text agent_identity_not_found = codes "agent: identity not found"
sentinel_text agent_no_recovery = codes "agent: vault has no recovery phrase"
sentinel_text agent_wrong_passphrase = codes "agent: incorrect passphrase"
sentinel_text agent_not_locked = codes "agent: not locked"
sentinel_text bad_request = codes "agent: malformed request"
sentinel_text agent_internal = codes "agent: operation failed"
sentinel_text vault_identity_not_found = codes "vault: no identity matches"
sentinel_text ambiguous_comment = codes "vault: multiple identities match that comment"
sentinel_text encrypted_private_key =
    codes
      "openssh: encrypted private key (passphrase-protected); sshush only supports unencrypted keys"

-- What Session.Op returns: a sentinel, or an error with a text of its own.
unfoldable pub of_op : (Op.OpError → Bytes) → Op.OpError → Failure
of_op text Op.op_unsupported = sentinel op_unsupported
of_op text Op.op_unknown = sentinel op_unknown
of_op text Op.vault_locked = sentinel agent_vault_locked
of_op text Op.identity_not_found = sentinel agent_identity_not_found
of_op text Op.no_recovery = sentinel agent_no_recovery
of_op text Op.wrong_passphrase = sentinel agent_wrong_passphrase
of_op text Op.not_locked = sentinel agent_not_locked
of_op text Op.bad_request = sentinel bad_request
of_op text Op.agent_internal = sentinel agent_internal
of_op text Op.short_message = other (text Op.short_message)
of_op text Op.bad_version = other (text Op.bad_version)
of_op text Op.extension_failure = other (text Op.extension_failure)

-- err.Error()
unfoldable pub error_text : Failure → Bytes
error_text nil = []
error_text (sentinel t) = sentinel_text t
error_text (other text) = text
error_text (wrapped prefix cause) = prefix ++ error_text cause
error_text (op_error code msg hint cause) = msg

-- errors.Is: some error of the chain is the target.
unfoldable pub is_error : Sentinel → Failure → Bool
is_error target nil = false
is_error target (sentinel t) = number t == number target
is_error target (other text) = false
is_error target (wrapped prefix cause) = is_error target cause
is_error target (op_error code msg hint cause) = is_error target cause

-- errors.As to an OpError: the first of the chain.
unfoldable pub as_op_error : Failure → Option Failure
as_op_error nil = none
as_op_error (sentinel t) = none
as_op_error (other text) = none
as_op_error (wrapped prefix cause) = as_op_error cause
as_op_error (op_error code msg hint cause) = some (op_error code msg hint cause)

abbrev code_field : Failure → Code
code_field (op_error code msg hint cause) = code
code_field e = unknown

abbrev hint_field : Failure → Bytes
hint_field (op_error code msg hint cause) = hint
hint_field e = []

abbrev of_first : {A : Type 0} → A → (Failure → A) → Option Failure → A
of_first a field none = a
of_first a field (some e) = field e

unfoldable pub code_of : Failure → Code
unfolding as_op_error
code_of e = of_first unknown code_field (as_op_error e)

unfoldable pub hint_of : Failure → Bytes
unfolding as_op_error
hint_of e = of_first [] hint_field (as_op_error e)

-- The part of gateError that depends on whether the agent speaks the protocol; `vault` is the verb's
-- message.
abbrev pub gate_hint : Bool → Bytes
gate_hint true = []
gate_hint false =
    codes
      "this agent does not speak sshush's protocol; if you upgraded sshush while the daemon was running, restart it with 'sshush reload'."

unfoldable pub gate_error : Bytes → Bool → Failure → Failure
gate_error verb speaks_ops cause =
    op_error not_vault_agent (codes "vault " ++ verb ++ codes " requires a running vault agent")
      (gate_hint speaks_ops) cause

abbrev not_found_message : Bytes → Bytes
not_found_message selector =
    if is_empty selector
    then codes "identity not found in vault"
    else codes "no vault identity matches " ++ selector

abbrev wrong_passphrase_error : Bytes → Failure → Failure
wrong_passphrase_error verb e =
    if bytes_eq verb (codes "unlock-recovery")
    then op_error wrong_passphrase (codes "unlock failed: wrong recovery phrase")
        (codes "Use exactly 24 words, single spaces.") e
    else op_error wrong_passphrase (codes "unlock failed: wrong passphrase") [] e

-- The switch of describe.
abbrev pub described : Bytes → Bytes → Failure → Failure
described verb selector e =
    if is_error agent_vault_locked e
    then op_error vault_locked (codes "vault is locked")
        (codes "Unlock it with 'sshush unlock' or 'sshush vault unlock-recovery'.") e
    else if is_error agent_identity_not_found e || is_error vault_identity_not_found e
    then op_error identity_not_found (not_found_message selector) [] e
    else if is_error ambiguous_comment e
    then op_error ambiguous_selector
        (codes "ambiguous comment: multiple vault identities share that comment")
        (codes "Use the fingerprint instead.") e
    else if is_error encrypted_private_key e
    then op_error encrypted_key (error_text e) [] e
    else if is_error agent_no_recovery e
    then op_error no_recovery
        (codes "this vault was created without a recovery phrase, so no phrase can unlock it") [] e
    else if is_error agent_wrong_passphrase e
    then wrong_passphrase_error verb e
    else if is_error agent_not_locked e
    then op_error not_locked (codes "vault is already unlocked") [] e
    else if is_error op_unsupported e
    then gate_error verb false e
    else if is_error op_unknown e
    then gate_error verb true e
    else op_error agent_failed (verb ++ codes " failed: " ++ error_text e) [] e

abbrev already_or : Option Failure → Failure → Failure
already_or none e = e
already_or (some already) e = already

unfoldable pub describe : Failure → Bytes → Bytes → Failure
unfolding as_op_error is_error error_text gate_error
describe nil verb selector = nil
describe (sentinel t) verb selector = described verb selector (sentinel t)
describe (other text) verb selector = described verb selector (other text)
describe (wrapped prefix cause) verb selector =
    already_or (as_op_error cause) (described verb selector (wrapped prefix cause))
describe (op_error code msg hint cause) verb selector = op_error code msg hint cause
