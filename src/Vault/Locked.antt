-- ===== src/Vault/Locked.antt =====
-- The agent of internal/vault/agent.go while it is locked.
use sshush.Prelude.{
  ℕ, ◌≡◌, refl, sym, ap, ◌∙◌, Bool, true, false, ◌||◌, none, some, List, [], ◌∷◌, Bytes, arith,
  Option-cases, inl, inr, ◌==◌,
}
use sshush.Prelude.Outcome.{Outcome, panic}
use sshush.External.{External, PublicKey}
use sshush.Op.{encode_op_response, OpError, decode_op_request, op_unlock, op_unlock_recovery}
use sshush.Vault.Cipher.{Result, ok, err, Result-cases, locked, agent_locked, VaultError}
use sshush.Vault.Types.{IdentityRow}
use sshush.Vault.State.{World, VaultAgent, Step}
use sshush.Vault.Agent.{
  AddedKey, purge_expired, list_keys, listed_rows, add, remove, remove_all, add_key_with_autoload,
  new_identity,
}
use sshush.Vault.Lock.{lock}
use sshush.Vault.Sign.{sign, sign_with_flags, signer_for_key}
use sshush.Vault.Session.{
  session_load, session_unload, set_identity_autoload, set_identity_comment, stored,
}
use sshush.Vault.Serve.{reply, with_fingerprint, with_parsed, dispatch, handle_op}
use sshush.Vault.Replies.{Keeps, keeps_rules, handle_op-Keeps, from_some, from_reply}
use sshush.Vault.Calls.{
  Call, perform, run, list_call, remove_all_call, add_call, remove_call, lock_call, unlock_call,
  sign_call, sign_flags_call, op_call,
}

module _ (a : VaultAgent) (shut : a.master_key ≡ none) where
  purge_expired-locked : (w : World) → purge_expired w a ≡ (a, ok tt)
  unfolding purge_expired
  purge_expired-locked w = ground arith

  list_keys-locked : (w : World) → list_keys w a ≡ (a, ok [])
  unfolding list_keys listed_rows
  list_keys-locked w = ground (arith, purge_expired-locked w)

  signer_for_key-locked : (x : External) (key : PublicKey) → signer_for_key x key a ≡ err locked
  unfolding signer_for_key
  signer_for_key-locked x key = ground arith

  sign-locked :
      (x : External) (w : World) (key : PublicKey) (message : Bytes)
      → sign x w key message a ≡ (a, err locked)
  unfolding sign
  sign-locked x w key message = ground (arith, purge_expired-locked w, signer_for_key-locked x key)

  sign_with_flags-locked :
      (x : External) (w : World) (key : PublicKey) (message : Bytes) (flags : ℕ)
      → sign_with_flags x w key message flags a ≡ (a, err locked)
  unfolding sign_with_flags
  sign_with_flags-locked x w key message flags =
      ground
        (arith, purge_expired-locked w, signer_for_key-locked x key, sign-locked x w key message)

  new_identity-locked :
      (x : External) (w : World) (key : AddedKey) (autoload : Bool) (filepath : Bytes)
      → (e : VaultError) × (new_identity x w key autoload filepath a ≡ err e)
  unfolding new_identity
  new_identity-locked x w key autoload filepath =
      elim (Result-cases (new_identity x w key autoload filepath a)) [
        | inl (i, e) ↦ absurd (ground arith)
        | inr r ↦ r
      ]

  add_key-locked :
      (x : External) (w : World) (key : AddedKey) (autoload : Bool) (filepath : Bytes)
      → (e : VaultError) × (add_key_with_autoload x w key autoload filepath a ≡ (a, err e))
  unfolding add_key_with_autoload
  add_key-locked x w key autoload filepath =
      let (e, h) = new_identity-locked x w key autoload filepath in (e, rw h)

  remove-locked : (x : External) (w : World) (key : PublicKey) → remove x w key a ≡ (a, err locked)
  unfolding remove
  remove-locked x w key = ground arith

  remove_all-locked : (w : World) → remove_all w a ≡ (a, err locked)
  unfolding remove_all
  remove_all-locked w = ground arith

  lock-locked : (passphrase : Bytes) → lock passphrase a ≡ (a, err agent_locked)
  unfolding lock
  lock-locked passphrase = ground arith

  stored-locked : (fp : Bytes) → stored fp a ≡ err locked
  stored-locked fp = ground arith

  session_load-locked : (fp : Bytes) → session_load fp a ≡ (a, err locked)
  unfolding session_load
  session_load-locked fp = rw (stored-locked fp)

  session_unload-locked : (fp : Bytes) → session_unload fp a ≡ (a, err locked)
  unfolding session_unload
  session_unload-locked fp = rw (stored-locked fp)

  set_identity_autoload-locked :
      (w : World) (fp : Bytes) (on : Bool) → set_identity_autoload w fp on a ≡ (a, err locked)
  unfolding set_identity_autoload
  set_identity_autoload-locked w fp on = rw (stored-locked fp)

  set_identity_comment-locked :
      (w : World) (fp comment : Bytes) → set_identity_comment w fp comment a ≡ (a, err locked)
  unfolding set_identity_comment
  set_identity_comment-locked w fp comment = rw (stored-locked fp)

-- The answers of a locked agent, for whatever arguments: it lists no key, it signs nothing, it
-- refuses to remove, to lock and to change an identity or the session with the error for a locked
-- agent, adding a key fails, and none of these calls changes its state.
pub locked_answers :
    (x : External) (w : World) (a : VaultAgent)
    → a.master_key ≡ none
    → (list_keys w a ≡ (a, ok []))
      × ((key : PublicKey) (message : Bytes) → sign x w key message a ≡ (a, err locked))
      × ((key : PublicKey) (message : Bytes) (flags : ℕ)
          → sign_with_flags x w key message flags a ≡ (a, err locked))
      × ((key : AddedKey) (autoload : Bool) (filepath : Bytes)
          → (e : VaultError) × (add_key_with_autoload x w key autoload filepath a ≡ (a, err e)))
      × ((key : PublicKey) → remove x w key a ≡ (a, err locked))
      × (remove_all w a ≡ (a, err locked))
      × ((passphrase : Bytes) → lock passphrase a ≡ (a, err agent_locked))
      × ((fp : Bytes) → session_load fp a ≡ (a, err locked))
      × ((fp : Bytes) → session_unload fp a ≡ (a, err locked))
      × ((fp : Bytes) (on : Bool) → set_identity_autoload w fp on a ≡ (a, err locked))
      × ((fp comment : Bytes) → set_identity_comment w fp comment a ≡ (a, err locked))
locked_answers x w a shut = (
  list_keys-locked a shut w,
  sign-locked a shut x w,
  sign_with_flags-locked a shut x w,
  add_key-locked a shut x w,
  remove-locked a shut x w,
  remove_all-locked a shut w,
  lock-locked a shut,
  session_load-locked a shut,
  session_unload-locked a shut,
  set_identity_autoload-locked a shut w,
  set_identity_comment-locked a shut w,
)

-- The calls that may unlock: Unlock, and the two unlocking operations of sshush-op.
abbrev asks_unlock : Outcome OpError (ℕ × Bytes) → Bool
asks_unlock (Outcome.ok (op, payload)) = op == op_unlock || op == op_unlock_recovery
asks_unlock (Outcome.err e) = false
asks_unlock panic = false

abbrev pub may_unlock : Call → Bool
may_unlock (unlock_call passphrase) = true
may_unlock (op_call contents) = asks_unlock (decode_op_request contents)
may_unlock _ = false

module _ (a : VaultAgent) (shut : a.master_key ≡ none) where
  abbrev Same : VaultAgent → Type 0
  Same b = b ≡ a

  itself : a ≡ a
  itself = refl

  stays : (s : Step) (r : Result (Unit {0})) → s ≡ (a, r) → s.0 ≡ a
  stays s r e = ap (λ (t : Step). t.0) e

  lock-Same : (passphrase : Bytes) → (lock passphrase a).0 ≡ a
  lock-Same passphrase = stays _ _ (lock-locked a shut passphrase)

  load-Same : (fp : Bytes) → (session_load fp a).0 ≡ a
  load-Same fp = stays _ _ (session_load-locked a shut fp)

  unload-Same : (fp : Bytes) → (session_unload fp a).0 ≡ a
  unload-Same fp = stays _ _ (session_unload-locked a shut fp)

  autoload-Same : (w : World) (fp : Bytes) (on : Bool) → (set_identity_autoload w fp on a).0 ≡ a
  autoload-Same w fp on = stays _ _ (set_identity_autoload-locked a shut w fp on)

  comment-Same : (w : World) (fp comment : Bytes) → (set_identity_comment w fp comment a).0 ≡ a
  comment-Same w fp comment = stays _ _ (set_identity_comment-locked a shut w fp comment)

  add_key-Same :
      (x : External) (w : World) (key : AddedKey) (autoload : Bool) (filepath : Bytes)
      → (add_key_with_autoload x w key autoload filepath a).0 ≡ a
  add_key-Same x w key autoload filepath =
      stays _ _ (add_key-locked a shut x w key autoload filepath).1

  add-Same : (x : External) (w : World) (key : AddedKey) → (add x w key a).0 ≡ a
  unfolding add
  add-Same x w key = ground (arith, add_key-Same x w key false [])

  dispatch-Same :
      (x : External) (w : World) (op : ℕ) (payload : Bytes)
      → (op == op_unlock) ≡ false
      → (op == op_unlock_recovery) ≡ false
      → Keeps Same (dispatch x w op payload a)
  unfolding dispatch encode_op_response reply with_fingerprint with_parsed
  dispatch-Same x w op payload n m =
      rw (n, m)
        (search
          (
            keeps_rules, lock-Same, load-Same, unload-Same, autoload-Same, comment-Same,
            add_key-Same, itself,
          )
          depth 14)

  handle_op-Same :
      (x : External) (w : World) (contents : Bytes)
      → asks_unlock (decode_op_request contents) ≡ false
      → Keeps Same (handle_op x w contents a)
  handle_op-Same x w contents n =
      handle_op-Keeps x w contents a refl
        (λ op payload e. decoded op payload (ap asks_unlock (sym e) ∙ n))
    where
      decoded :
          (op : ℕ) (payload : Bytes)
          → (op == op_unlock || op == op_unlock_recovery) ≡ false
          → Keeps Same (dispatch x w op payload a)
      decoded op payload h = dispatch-Same x w op payload (ground arith) (ground arith)

  perform-Same :
      (x : External) (w : World) (c : Call) {b : VaultAgent}
      → may_unlock c ≡ false
      → perform x w c a ≡ some b
      → b ≡ a
  unfolding perform
  perform-Same x w list_call n e =
      from_some Same e
        (ap (λ (t : VaultAgent × Result (List IdentityRow)). t.0) (list_keys-locked a shut w))
  perform-Same x w remove_all_call n e = from_some Same e (stays _ _ (remove_all-locked a shut w))
  perform-Same x w (add_call key) n e = from_some Same e (add-Same x w key)
  perform-Same x w (remove_call key) n e =
      from_some Same e (stays _ _ (remove-locked a shut x w key))
  perform-Same x w (lock_call passphrase) n e = from_some Same e (lock-Same passphrase)
  perform-Same x w (unlock_call passphrase) n e = cc
  perform-Same x w (sign_call key message) n e =
      from_some Same e
        (ap (λ (t : VaultAgent × Result Bytes). t.0) (sign-locked a shut x w key message))
  perform-Same x w (sign_flags_call key message flags) n e = from_some Same e (
      ap (λ (t : VaultAgent × Result Bytes). t.0)
        (sign_with_flags-locked a shut x w key message flags))
  perform-Same x w (op_call contents) n e =
      from_reply Same (handle_op x w contents a) e (handle_op-Same x w contents n)

-- None of the calls asks to unlock.
abbrev pub NoUnlock : List (World × Call) → Type 0
NoUnlock [] = Unit {0}
NoUnlock ((w, c) ∷ cs) = (may_unlock c ≡ false) × NoUnlock cs

-- A locked agent stays exactly as it is under every sequence of calls that neither asks to unlock
-- nor ends in a panic.
pub run-locked :
    (x : External) (cs : List (World × Call)) (a : VaultAgent) {b : VaultAgent}
    → a.master_key ≡ none
    → NoUnlock cs
    → run x cs a ≡ some b
    → b ≡ a
unfolding run
run-locked x [] a shut n e = from_some (λ b. b ≡ a) e refl
run-locked x ((w, c) ∷ cs) a {b} shut n e = elim (Option-cases (perform x w c a)) [
  | inl p ↦ absurd (ground arith)
  | inr (d, p) ↦
      let same = perform-Same a shut x w c n.0 p in
      run-locked x cs d {b = b} (ap (λ (t : VaultAgent). t.master_key) same ∙ shut) n.1
        (ground arith)
      ∙ same
]
