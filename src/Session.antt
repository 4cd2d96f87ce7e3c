-- ===== src/Session.antt =====
-- internal/agent/session.go and backend_kind.go, Session.Op of internal/agent/op.go, and the
-- operations of internal/vault/session_ops.go. The agent client of golang.org/x/crypto/ssh/agent and
-- the socket behind it are a parameter: the Client's methods, on whatever state stands behind them.
-- Their errors other than ErrExtensionUnsupported are one error here, `extension_failure`.
pub mod VaultClient
use sshush.Prelude.{
  ℕ, Bool, true, false, Option, none, some, List, [], ◌∷◌, Bytes, ◌==◌, ◌&&◌, length, bytes_eq,
  if◌then◌else◌, codes,
}
use sshush.Prelude.Outcome.{Outcome, ok, err, panic}
use sshush.External.{External, PublicKey}
use sshush.Op.{
  OpError, op_unsupported, op_unknown, extension_failure, Op, extension_op, encode_op_request,
  decode_op_response, op_lock, op_unlock, op_vault_locked, op_session_load, op_session_unload,
  op_set_autoload, op_set_comment, op_unlock_recovery, op_add_key,
}
use sshush.Vault.Payload.{build_set_autoload, build_set_comment, build_add_key_opts}

-- How a client's Extension comes back: a body, ErrExtensionUnsupported, or another error.
pub data ExtensionReply : Type 0 where
  body : Bytes → ExtensionReply
  unsupported broken : ExtensionReply

-- The agent client of a session, on the state S behind the socket. A plain Lock or Unlock only
-- tells whether it worked.
pub record Client (S : Type 0) : Type 0 where
  pub extension : Bytes → Bytes → S → S × ExtensionReply
  pub lock : Bytes → S → S × Bool
  pub unlock : Bytes → S → S × Bool
  pub list : S → S × Option (List PublicKey)
  pub remove : PublicKey → S → S × Bool

abbrev decode_reply : ExtensionReply → Op Bytes
decode_reply (body resp) = decode_op_response resp
decode_reply unsupported = err op_unsupported
decode_reply broken = err extension_failure

pub record Backend : Type 0 where
  pub is_vault : Bool
  pub vault_locked : Bool
  pub speaks_ops : Bool

-- `len(data) == 1 && data[0] == 1`
abbrev says_locked : Bytes → Bool
says_locked [] = false
says_locked (b ∷ []) = b == 1
says_locked (b ∷ c ∷ d) = false

-- The switch of Backend on what the vault-locked operation came back with.
unfoldable pub backend_of : Op Bytes → Op Backend
backend_of (ok d) = ok (record { is_vault = true; vault_locked = says_locked d; speaks_ops = true })
backend_of (err op_unknown) =
    ok (record { is_vault = false; vault_locked = false; speaks_ops = true })
backend_of (err op_unsupported) =
    ok (record { is_vault = false; vault_locked = false; speaks_ops = false })
backend_of (err e) = err e
backend_of panic = panic

module _ {S : Type 0} where
  unfoldable pub session_op : Client S → ℕ → Bytes → S → S × Op Bytes
  session_op c op payload s =
      let (after, reply) = c.extension extension_op (encode_op_request op payload) s in
      (after, decode_reply reply)

  -- Without its data: the error of an operation.
  abbrev pub only_error : S × Op Bytes → S × Op (Unit {0})
  only_error (s, ok d) = (s, ok tt)
  only_error (s, err e) = (s, err e)
  only_error (s, panic) = (s, panic)

  abbrev plain : S × Bool → S × Op (Unit {0})
  plain (s, true) = (s, ok tt)
  plain (s, false) = (s, err extension_failure)

  -- `!errors.Is(err, ErrOpUnsupported)`: another outcome stands, this one falls back.
  abbrev pub or_plain : (S → S × Bool) → S × Op Bytes → S × Op (Unit {0})
  or_plain f (s, err op_unsupported) = plain (f s)
  or_plain f (s, ok d) = (s, ok tt)
  or_plain f (s, err e) = (s, err e)
  or_plain f (s, panic) = (s, panic)

  unfoldable pub lock : Client S → Bytes → S → S × Op (Unit {0})
  lock c passphrase s = or_plain (c.lock passphrase) (session_op c op_lock passphrase s)

  unfoldable pub unlock : Client S → Bytes → S → S × Op (Unit {0})
  unlock c passphrase s = or_plain (c.unlock passphrase) (session_op c op_unlock passphrase s)

  unfoldable pub backend : Client S → S → S × Op Backend
  unfolding session_op backend_of
  backend c s = let (after, r) = session_op c op_vault_locked [] s in (after, backend_of r)

  abbrev removal : S × Bool → S × Op Bool
  removal (s, true) = (s, ok true)
  removal (s, false) = (s, err extension_failure)

  -- The loop of RemoveByFingerprint over the listed keys.
  unfoldable pub remove_listed : External → Client S → Bytes → List PublicKey → S → S × Op Bool
  remove_listed x c fp [] s = (s, ok false)
  remove_listed x c fp (k ∷ ks) s =
      let rest = remove_listed x c fp ks s in
      if bytes_eq (x.fingerprint_sha256 k) fp then removal (c.remove k s) else rest

  abbrev remove_from : External → Client S → Bytes → S × Option (List PublicKey) → S × Op Bool
  remove_from x c fp (s, none) = (s, err extension_failure)
  remove_from x c fp (s, some ks) = remove_listed x c fp ks s

  unfoldable pub remove_by_fingerprint : External → Client S → Bytes → S → S × Op Bool
  remove_by_fingerprint x c fp s = remove_from x c fp (c.list s)

  unfoldable pub set_autoload : Client S → Bytes → Bool → S → S × Op (Unit {0})
  set_autoload c fp on s = only_error (session_op c op_set_autoload (build_set_autoload fp on) s)

  unfoldable pub set_comment : Client S → Bytes → Bytes → S → S × Op (Unit {0})
  set_comment c fp comment s =
      only_error (session_op c op_set_comment (build_set_comment fp comment) s)

  unfoldable pub session_load : Client S → Bytes → S → S × Op (Unit {0})
  session_load c fp s = only_error (session_op c op_session_load fp s)

  unfoldable pub session_unload : Client S → Bytes → S → S × Op (Unit {0})
  session_unload c fp s = only_error (session_op c op_session_unload fp s)

  unfoldable pub unlock_with_recovery_phrase : Client S → Bytes → S → S × Op (Unit {0})
  unlock_with_recovery_phrase c mnemonic s = only_error (session_op c op_unlock_recovery mnemonic s)

  -- `pem` is what reading the file at `path` gave.
  unfoldable pub add_private_key_file : Client S → Bytes → Bytes → Bool → S → S × Op (Unit {0})
  add_private_key_file c pem path autoload s =
      only_error (session_op c op_add_key (build_add_key_opts pem path autoload) s)
