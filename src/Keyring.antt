-- ===== src/Keyring.antt =====
-- internal/agent/kdf_locked_keyring.go: the lock in front of a plain keyring. The keyring itself is
-- golang.org/x/crypto/ssh/agent's, a parameter; each method holds the mutex and is one step.
pub mod Laws
use sshush.Prelude.{
  ℕ, Bool, true, false, Option, none, some, List, [], Bytes, bytes_eq, if◌then◌else◌, ◌==◌,
  replicate, length,
}
use sshush.Prelude.Outcome.{Outcome, ok, err, panic}
use sshush.External.{External, PublicKey, PrivateKey}
use sshush.Kdf.{derive_key, generate_salt, constant_time_compare}
use sshush.Op.{
  OpError, op_lock, op_unlock, status_locked, status_not_locked, status_wrong_passphrase,
  status_internal, status_bad_request, status_unsupported_op, encode_op_response, ok_response,
  decode_op_request, extension_op,
}
use sshush.Vault.Agent.{AddedKey}

-- The sentinels, the failure to draw a salt, and the errors of the inner agent.
pub data KeyringError : Type 0 where
  agent_locked agent_not_locked incorrect_passphrase salt_failed : KeyringError
  inner_failed : Bytes → KeyringError

abbrev pub Answer : Type 0 → Type 0
Answer = Outcome KeyringError

-- The inner sshagent.ExtendedAgent on its own state.
pub record InnerAgent (S : Type 0) : Type 0 where
  pub list : S → S × Answer (List PublicKey)
  pub add : AddedKey → S → S × Answer (Unit {0})
  pub remove : PublicKey → S → S × Answer (Unit {0})
  pub remove_all : S → S × Answer (Unit {0})
  pub sign : PublicKey → Bytes → S → S × Answer Bytes
  pub sign_with_flags : PublicKey → Bytes → ℕ → S → S × Answer Bytes
  pub signers : S → S × Answer (List PrivateKey)
  pub extension : Bytes → Bytes → S → S × Answer Bytes

pub record Keyring (S : Type 0) : Type 0 where
  pub inner : S
  pub locked : Bool
  pub salt : Bytes
  pub derived_key : Bytes

module _ {S : Type 0} where
  unfoldable pub new_keyring : S → Keyring S
  new_keyring s = record { inner = s; locked = false; salt = []; derived_key = [] }

  unfoldable pub wipe_verifier : Keyring S → Keyring S
  wipe_verifier k = record k { salt = []; derived_key = [] }

  -- What Lock does with the drawn salt.
  abbrev lock_with_salt :
      External → Bytes → Keyring S → Option Bytes → Keyring S × Answer (Unit {0})
  lock_with_salt x passphrase k none = (k, err salt_failed)
  lock_with_salt x passphrase k (some salt) =
      (record k { salt = salt; derived_key = derive_key x passphrase salt; locked = true }, ok tt)

  -- `random` is what a read of rand.Reader gives.
  unfoldable pub lock : External → Option Bytes → Bytes → Keyring S → Keyring S × Answer (Unit {0})
  lock x random passphrase k =
      if k.locked
      then (k, err agent_locked)
      else lock_with_salt x passphrase k (generate_salt random)

  unfoldable pub unlock : External → Bytes → Keyring S → Keyring S × Answer (Unit {0})
  unfolding wipe_verifier
  unlock x passphrase k =
      if k.locked
      then if constant_time_compare (derive_key x passphrase k.salt) k.derived_key
        then (record (wipe_verifier k) { locked = false }, ok tt)
        else (k, err incorrect_passphrase)
      else (k, err agent_not_locked)

  -- A call of the inner agent.
  abbrev pub pass_on : {A : Type 0} → Keyring S → (S → S × Answer A) → Keyring S × Answer A
  pass_on k f = let (s, r) = f k.inner in (record k { inner = s }, r)

  -- `if k.locked { return errKDFAgentLocked }`, and the call of the inner agent behind it.
  abbrev pub guarded : {A : Type 0} → Keyring S → (S → S × Answer A) → Keyring S × Answer A
  guarded k f = if k.locked then (k, err agent_locked) else pass_on k f

  unfoldable pub list : InnerAgent S → Keyring S → Keyring S × Answer (List PublicKey)
  list i k = if k.locked then (k, ok []) else pass_on k i.list

  unfoldable pub sign : InnerAgent S → PublicKey → Bytes → Keyring S → Keyring S × Answer Bytes
  sign i key message k = guarded k (i.sign key message)

  unfoldable pub add : InnerAgent S → AddedKey → Keyring S → Keyring S × Answer (Unit {0})
  add i key k = guarded k (i.add key)

  unfoldable pub remove : InnerAgent S → PublicKey → Keyring S → Keyring S × Answer (Unit {0})
  remove i key k = guarded k (i.remove key)

  unfoldable pub remove_all : InnerAgent S → Keyring S → Keyring S × Answer (Unit {0})
  remove_all i k = guarded k i.remove_all

  unfoldable pub signers : InnerAgent S → Keyring S → Keyring S × Answer (List PrivateKey)
  signers i k = guarded k i.signers

  unfoldable pub sign_with_flags :
      InnerAgent S → PublicKey → Bytes → ℕ → Keyring S → Keyring S × Answer Bytes
  sign_with_flags i key message flags k = guarded k (i.sign_with_flags key message flags)

unfoldable pub kdf_result_for : Answer (Unit {0}) → Bytes
kdf_result_for (ok u) = ok_response
kdf_result_for (err agent_locked) = encode_op_response status_locked []
kdf_result_for (err agent_not_locked) = encode_op_response status_not_locked []
kdf_result_for (err incorrect_passphrase) = encode_op_response status_wrong_passphrase []
kdf_result_for (err salt_failed) = encode_op_response status_internal []
kdf_result_for (err (inner_failed e)) = encode_op_response status_internal []
kdf_result_for panic = encode_op_response status_internal []

module _ {S : Type 0} where
  abbrev answer : Keyring S × Answer (Unit {0}) → Keyring S × Bytes
  answer (k, r) = (k, kdf_result_for r)

  abbrev pub handle_decoded :
      External → Option Bytes → Keyring S → Outcome OpError (ℕ × Bytes) → Keyring S × Bytes
  handle_decoded x random k (ok (op, payload)) =
      if op == op_lock
      then answer (lock x random payload k)
      else if op == op_unlock
      then answer (unlock x payload k)
      else (k, encode_op_response status_unsupported_op [])
  handle_decoded x random k (err e) = (k, encode_op_response status_bad_request [])
  handle_decoded x random k panic = (k, encode_op_response status_bad_request [])

  unfoldable pub handle_op : External → Option Bytes → Bytes → Keyring S → Keyring S × Bytes
  handle_op x random contents k = handle_decoded x random k (decode_op_request contents)

  abbrev answered_body : Keyring S × Bytes → Keyring S × Answer Bytes
  answered_body (k, body) = (k, ok body)

  unfoldable pub extension :
      External → InnerAgent S → Option Bytes → Bytes → Bytes → Keyring S → Keyring S × Answer Bytes
  extension x i random name contents k =
      if bytes_eq name extension_op
      then answered_body (handle_op x random contents k)
      else pass_on k (i.extension name contents)
