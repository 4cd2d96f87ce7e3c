-- ===== src/Keyring/Laws.antt =====
-- internal/agent/kdf_locked_keyring.go: the calls of a client, locked and unlocked.
use sshush.Prelude.{
  ℕ, ◌≡◌, refl, Bool, true, false, Option, none, some, List, [], ◌∷◌, Bytes, bytes_eq,
  bytes_eq_refl, arith, ◌==◌, if◌then◌else◌, Bool-cases, inl, inr,
}
use sshush.Prelude.Outcome.{Outcome, ok, err, panic}
use sshush.Op.{OpError, op_lock, op_unlock, decode_op_request, extension_op}
use sshush.External.{External, PublicKey}
use sshush.Kdf.{derive_key, generate_salt, constant_time_compare}
use sshush.Vault.Agent.{AddedKey}
use sshush.Keyring.{
  InnerAgent, Keyring, lock, unlock, list, sign, add, remove, remove_all, signers, sign_with_flags,
  wipe_verifier, extension, handle_op, handle_decoded,
}

-- The calls of a client on a keyring; the random bytes are what a read of rand.Reader gives.
pub data Call : Type 0 where
  list_call remove_all_call signers_call : Call
  add_call : AddedKey → Call
  remove_call : PublicKey → Call
  sign_call : PublicKey → Bytes → Call
  sign_flags_call : PublicKey → Bytes → ℕ → Call
  lock_call : Option Bytes → Bytes → Call
  unlock_call : Bytes → Call
  extension_call : Option Bytes → Bytes → Bytes → Call

-- The passphrase that a request of sshush-op tries to unlock with.
abbrev pub tried_by_op : Outcome OpError (ℕ × Bytes) → Option Bytes
tried_by_op (ok (op, payload)) =
    if op == op_lock then none else if op == op_unlock then some payload else none
tried_by_op (err e) = none
tried_by_op panic = none

-- The passphrase that a call tries to unlock with.
unfoldable pub tried : Call → Option Bytes
tried list_call = none
tried remove_all_call = none
tried signers_call = none
tried (add_call key) = none
tried (remove_call key) = none
tried (sign_call key message) = none
tried (sign_flags_call key message flags) = none
tried (lock_call random passphrase) = none
tried (unlock_call passphrase) = some passphrase
tried (extension_call random name contents) =
    if bytes_eq name extension_op then tried_by_op (decode_op_request contents) else none

-- A passphrase that does not derive the stored key.
abbrev pub Fails : External → Bytes → Bytes → Option Bytes → Type 0
Fails x salt derived none = Unit {0}
Fails x salt derived (some passphrase) = bytes_eq (derive_key x passphrase salt) derived ≡ false

unfoldable pub AllRefused : External → Bytes → Bytes → List Call → Type 0
AllRefused x salt derived [] = Unit {0}
AllRefused x salt derived (c ∷ cs) = Fails x salt derived (tried c) × AllRefused x salt derived cs

abbrev is_extension : Call → Bool
is_extension (extension_call random name contents) = true
is_extension c = false

module _ {S : Type 0} where
  -- The state that a call leaves.
  unfoldable pub perform : External → InnerAgent S → Call → Keyring S → Keyring S
  perform x i list_call k = (list i k).0
  perform x i remove_all_call k = (remove_all i k).0
  perform x i signers_call k = (signers i k).0
  perform x i (add_call key) k = (add i key k).0
  perform x i (remove_call key) k = (remove i key k).0
  perform x i (sign_call key message) k = (sign i key message k).0
  perform x i (sign_flags_call key message flags) k = (sign_with_flags i key message flags k).0
  perform x i (lock_call random passphrase) k = (lock x random passphrase k).0
  perform x i (unlock_call passphrase) k = (unlock x passphrase k).0
  perform x i (extension_call random name contents) k = (extension x i random name contents k).0

  unfoldable pub run : External → InnerAgent S → List Call → Keyring S → Keyring S
  run x i [] k = k
  run x i (c ∷ cs) k = run x i cs (perform x i c k)

  -- Locking an unlocked keyring with a drawn salt and unlocking it with the same passphrase
  -- succeeds, leaves the keys as they were, and keeps neither salt nor derived key.
  pub unlock-lock :
      (x : External) (salt passphrase : Bytes) (k : Keyring S)
      → k.locked ≡ false
      → unlock x passphrase (lock x (some salt) passphrase k).0
        ≡ (record { inner = k.inner; locked = false; salt = []; derived_key = [] }, ok tt)
  unfolding lock unlock wipe_verifier generate_salt constant_time_compare
  unlock-lock x salt passphrase k h = ground (arith, bytes_eq_refl (derive_key x passphrase salt))

  -- What the extensions that are passed on make of the inner agent's state.
  unfoldable pub extended : InnerAgent S → List Call → S → S
  extended i [] s = s
  extended i (extension_call random name contents ∷ cs) s =
      extended i cs (if bytes_eq name extension_op then s else (i.extension name contents s).0)
  extended i (c ∷ cs) s = extended i cs s

  op-locked :
      (x : External) (random : Option Bytes) (k : Keyring S) (r : Outcome OpError (ℕ × Bytes))
      → k.locked ≡ true
      → Fails x k.salt k.derived_key (tried_by_op r)
      → (handle_decoded x random k r).0 ≡ k
  unfolding lock unlock constant_time_compare
  op-locked x random k (ok (op, payload)) h r = ground arith
  op-locked x random k (err e) h r = refl
  op-locked x random k panic h r = refl

  extension-locked :
      (x : External) (i : InnerAgent S) (random : Option Bytes) (name contents : Bytes)
      (k : Keyring S)
      → k.locked ≡ true
      → Fails x k.salt k.derived_key (tried (extension_call random name contents))
      → (extension x i random name contents k).0 ≡ record k {
        inner =
            if bytes_eq name extension_op then k.inner else (i.extension name contents k.inner).0;
      }
  unfolding extension handle_op tried
  extension-locked x i random name contents k h r = elim (Bool-cases (bytes_eq name extension_op)) [
    | inl own ↦ rw own (op-locked x random k (decode_op_request contents) h (rw own at r))
    | inr other ↦ rw other refl
  ]

  step-locked :
      (x : External) (i : InnerAgent S) (c : Call) (k : Keyring S)
      → k.locked ≡ true
      → Fails x k.salt k.derived_key (tried c)
      → is_extension c ≡ false
      → perform x i c k ≡ k
  unfolding perform list remove_all signers add remove sign sign_with_flags lock unlock tried
      constant_time_compare
  step-locked x i list_call k h r e = rw h
  step-locked x i remove_all_call k h r e = rw h
  step-locked x i signers_call k h r e = rw h
  step-locked x i (add_call key) k h r e = rw h
  step-locked x i (remove_call key) k h r e = rw h
  step-locked x i (sign_call key message) k h r e = rw h
  step-locked x i (sign_flags_call key message flags) k h r e = rw h
  step-locked x i (lock_call random passphrase) k h r e = rw h
  step-locked x i (unlock_call passphrase) k h r e = ground arith
  step-locked x i (extension_call random name contents) k h r e = cc

  -- However many calls follow one another, none of which tries the passphrase that derives the stored
  -- key, directly or by sshush-op, a locked keyring stays locked with what it verifies passphrases by,
  -- and the keys in it change only by the extensions that are passed on to the inner agent.
  pub run-locked_keyring :
      (x : External) (i : InnerAgent S) (cs : List Call) (k : Keyring S)
      → k.locked ≡ true
      → AllRefused x k.salt k.derived_key cs
      → run x i cs k ≡ record k { inner = extended i cs k.inner }
  unfolding run AllRefused perform extended tried
  run-locked_keyring x i [] k h r = refl
  run-locked_keyring x i (list_call ∷ cs) k h (r, rs) =
      rw (step-locked x i list_call k h r refl) (run-locked_keyring x i cs k h rs)
  run-locked_keyring x i (remove_all_call ∷ cs) k h (r, rs) =
      rw (step-locked x i remove_all_call k h r refl) (run-locked_keyring x i cs k h rs)
  run-locked_keyring x i (signers_call ∷ cs) k h (r, rs) =
      rw (step-locked x i signers_call k h r refl) (run-locked_keyring x i cs k h rs)
  run-locked_keyring x i ((add_call key) ∷ cs) k h (r, rs) =
      rw (step-locked x i (add_call key) k h r refl) (run-locked_keyring x i cs k h rs)
  run-locked_keyring x i ((remove_call key) ∷ cs) k h (r, rs) =
      rw (step-locked x i (remove_call key) k h r refl) (run-locked_keyring x i cs k h rs)
  run-locked_keyring x i ((sign_call key message) ∷ cs) k h (r, rs) =
      rw (step-locked x i (sign_call key message) k h r refl) (run-locked_keyring x i cs k h rs)
  run-locked_keyring x i ((sign_flags_call key message flags) ∷ cs) k h (r, rs) =
      rw (step-locked x i (sign_flags_call key message flags) k h r refl)
        (run-locked_keyring x i cs k h rs)
  run-locked_keyring x i ((lock_call random passphrase) ∷ cs) k h (r, rs) =
      rw (step-locked x i (lock_call random passphrase) k h r refl)
        (run-locked_keyring x i cs k h rs)
  run-locked_keyring x i ((unlock_call passphrase) ∷ cs) k h (r, rs) =
      rw (step-locked x i (unlock_call passphrase) k h r refl) (run-locked_keyring x i cs k h rs)
  run-locked_keyring x i (extension_call random name contents ∷ cs) k h (r, rs) =
      rw (extension-locked x i random name contents k h r) (
        run-locked_keyring x i cs
          (record k {
            inner =
                if bytes_eq name extension_op
                then k.inner
                else (i.extension name contents k.inner).0;
          })
          h rs)
