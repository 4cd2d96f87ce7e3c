-- ===== src/Op.antt =====
-- internal/agent/op.go: the sshush-op extension, the bodies of its requests and responses and the
-- statuses that carry the reason of a failure.
pub mod RoundTrip
use sshush.Prelude.{
  ℕ, Bool, true, false, Option, none, some, List, [], ◌∷◌, Bytes, codes, length, ltb, ◌==◌,
  if◌then◌else◌, not, drop,
}
use sshush.Prelude.Outcome.{Outcome, ok, err, panic, require, index, slice, ◌>>=◌, ◌>>◌}

-- The name of the extension.
abbrev pub extension_op : Bytes
extension_op = codes "sshush-op"

abbrev pub op_version : ℕ
op_version = 1

-- The operation codes of the wire format.
abbrev pub op_vault_locked : ℕ
op_vault_locked = 1

abbrev pub op_unlock : ℕ
op_unlock = 2

abbrev pub op_lock : ℕ
op_lock = 3

abbrev pub op_unlock_recovery : ℕ
op_unlock_recovery = 4

abbrev pub op_session_load : ℕ
op_session_load = 5

abbrev pub op_session_unload : ℕ
op_session_unload = 6

abbrev pub op_set_autoload : ℕ
op_set_autoload = 7

abbrev pub op_set_comment : ℕ
op_set_comment = 8

abbrev pub op_add_key : ℕ
op_add_key = 9

-- The reasons that callers match with errors.Is, and the failures of decoding, which match none.
pub data OpError : Type 0 where
  op_unsupported op_unknown : OpError
  vault_locked identity_not_found no_recovery wrong_passphrase : OpError
  not_locked bad_request agent_internal : OpError
  short_message bad_version extension_failure : OpError

abbrev pub Op : Type 0 → Type 0
Op = Outcome OpError

-- The status codes of the wire format.
abbrev pub status_ok : ℕ
status_ok = 0

abbrev pub status_locked : ℕ
status_locked = 1

abbrev pub status_not_found : ℕ
status_not_found = 2

abbrev pub status_no_recovery : ℕ
status_no_recovery = 3

abbrev pub status_bad_request : ℕ
status_bad_request = 4

abbrev pub status_unsupported_op : ℕ
status_unsupported_op = 5

abbrev pub status_wrong_passphrase : ℕ
status_wrong_passphrase = 6

abbrev pub status_not_locked : ℕ
status_not_locked = 7

abbrev pub status_internal : ℕ
status_internal = 8

unfoldable pub encode_op_request : ℕ → Bytes → Bytes
encode_op_request op payload = op_version ∷ op ∷ payload

unfoldable pub decode_op_request : Bytes → Op (ℕ × Bytes)
unfolding index
decode_op_request contents = do
  require (not (ltb (length contents) 2)) short_message
  version ← index contents 0
  require (version == op_version) bad_version
  op ← index contents 1
  payload ← slice contents 2 (length contents)
  ok (op, payload)

unfoldable pub encode_op_response : ℕ → Bytes → Bytes
encode_op_response status body = op_version ∷ status ∷ body

unfoldable pub ok_response : Bytes
unfolding encode_op_response
ok_response = encode_op_response status_ok []

-- The switch of `errorForStatus`; `none` is its nil.
unfoldable pub error_for_status : ℕ → Option OpError
error_for_status status =
    if status == status_ok
    then none
    else if status == status_locked
    then some vault_locked
    else if status == status_not_found
    then some identity_not_found
    else if status == status_no_recovery
    then some no_recovery
    else if status == status_bad_request
    then some bad_request
    else if status == status_unsupported_op
    then some op_unknown
    else if status == status_wrong_passphrase
    then some wrong_passphrase
    else if status == status_not_locked
    then some not_locked
    else some agent_internal

-- `if err := …; err != nil { return nil, err }`
abbrev fail_if : Option OpError → Op (Unit {0})
fail_if none = ok tt
fail_if (some e) = err e

unfoldable pub decode_op_response : Bytes → Op Bytes
unfolding index error_for_status
decode_op_response resp = do
  require (not (ltb (length resp) 2)) short_message
  version ← index resp 0
  require (version == op_version) bad_version
  status ← index resp 1
  fail_if (error_for_status status)
  slice resp 2 (length resp)
