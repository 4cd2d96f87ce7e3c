-- ===== src/Vault/Invariant/Calls.antt =====
-- The calls of the agent of internal/vault/agent.go against its invariant.
use sshush.Prelude.{
  ℕ, ◌≡◌, Bool, true, some, List, [], ◌∷◌, Bytes, bytes_eq, bytes_eq_iff, arith, Option-cases, inl,
  inr, Bool-cases, ◌==◌,
}
use sshush.Prelude.KeySet.{insert, delete, contains-insert, contains-delete}
use sshush.External.{External, PublicKey}
use sshush.Vault.Types.{Identity}
use sshush.Vault.Store.{has_identity}
use sshush.Vault.Store.Lookup.{has_identity-eq-find, fingerprint-find}
use sshush.Vault.Cipher.{Result, ok, err, Result-cases}
use sshush.Vault.State.{World, VaultAgent}
use sshush.Vault.Agent.{list_keys}
use sshush.Vault.Lock.{lock, unlock, unlock_with_recovery, with_key, with_recovered}
use sshush.Vault.Sign.{sign, sign_with_flags}
use sshush.Vault.Session.{
  session_load, session_unload, set_identity_autoload, set_identity_comment, stored, load, unload,
  settle_autoload, change_autoload, change_comment, eq_bool,
}
use sshush.Vault.Serve.{handle_op, dispatch}
use sshush.Vault.Replies.{Keeps, keeps_rules, handle_op-Keeps, from_some, from_reply}
use sshush.Vault.Calls.{
  Call, perform, run, list_call, remove_all_call, add_call, remove_call, lock_call, unlock_call,
  sign_call, sign_flags_call, op_call,
}
use sshush.Vault.Invariant.{
  IsValid, purge_expired-IsValid, add-IsValid, remove-IsValid, remove_all-IsValid,
  add_key_with_autoload-IsValid, store_identity-IsValid,
}

-- An identity that is found has its fingerprint in the store.
stored-has :
    (fp : Bytes) (a : VaultAgent) {i : Identity}
    → stored fp a ≡ ok i
    → (has_identity fp a.store.identities ≡ true) × (i.fingerprint ≡ fp)
stored-has fp a {i} h = ground (
  arith,
  has_identity-eq-find fp a.store.identities,
  fingerprint-find fp a.store.identities {i = i},
)

load-IsValid : (fp : Bytes) (a : VaultAgent) → IsValid a → IsValid (session_load fp a).0
unfolding session_load
load-IsValid fp a v = elim (Result-cases (stored fp a)) [
  | inr (f, e) ↦ rw (e, load) v
  | inl (i, e) ↦
      let has = (stored-has fp a e).0 in
      let b : VaultAgent = record a { session_unloaded = delete fp a.session_unloaded } in
      let vb : IsValid b = record {
        distinct = v.distinct;
        loaded = v.loaded;
        unloaded = λ k h. ground (arith, v.unloaded k, contains-delete fp k a.session_unloaded);
      } in
      let c : VaultAgent = record b { session_autoload0 = insert fp b.session_autoload0 } in
      let vc : IsValid c = record {
        distinct = v.distinct;
        loaded = λ k h.
            ground (arith, v.loaded k, contains-insert fp k a.session_autoload0, bytes_eq_iff fp k);
        unloaded = vb.unloaded;
      } in
      rw (e, load) (elim (Bool-cases i.autoload) [ inl t ↦ rw t vb | inr t ↦ rw t vc ])
]

unload-IsValid : (fp : Bytes) (a : VaultAgent) → IsValid a → IsValid (session_unload fp a).0
unfolding session_unload
unload-IsValid fp a v = elim (Result-cases (stored fp a)) [
  | inr (f, e) ↦ rw (e, unload) v
  | inl (i, e) ↦
      let has = (stored-has fp a e).0 in
      rw (e, unload)
        (record {
          distinct = v.distinct;
          loaded = λ k h. ground (arith, v.loaded k, contains-delete fp k a.session_autoload0);
          unloaded = λ k h.
              ground
                (arith, v.unloaded k, contains-insert fp k a.session_unloaded, bytes_eq_iff fp k);
        })
]

settle-IsValid :
    (fp : Bytes) (on : Bool) (b : VaultAgent) → IsValid b → IsValid (settle_autoload fp on b)
unfolding settle_autoload
settle-IsValid fp on b v = record {
  distinct = v.distinct;
  loaded = λ k h. ground (arith, v.loaded k, contains-delete fp k b.session_autoload0);
  unloaded = λ k h. ground (arith, v.unloaded k, contains-delete fp k b.session_unloaded);
}

set_identity_autoload-IsValid :
    (w : World) (fp : Bytes) (on : Bool) (a : VaultAgent)
    → IsValid a
    → IsValid (set_identity_autoload w fp on a).0
unfolding set_identity_autoload
set_identity_autoload-IsValid w fp on a v = elim (Result-cases (stored fp a)) [
  | inr (f, e) ↦ rw (e, change_autoload) v
  | inl (i, e) ↦
      let kept =
        store_identity-IsValid w (record i { autoload = on }) (settle_autoload fp on) a v
          (λ b vb h. settle-IsValid fp on b vb) in
      rw (e, change_autoload)
        (elim (Bool-cases (eq_bool i.autoload on)) [ inl t ↦ rw t v | inr t ↦ rw t kept ])
]

set_identity_comment-IsValid :
    (w : World) (fp comment : Bytes) (a : VaultAgent)
    → IsValid a
    → IsValid (set_identity_comment w fp comment a).0
unfolding set_identity_comment
set_identity_comment-IsValid w fp comment a v = elim (Result-cases (stored fp a)) [
  | inr (f, e) ↦ rw (e, change_comment) v
  | inl (i, e) ↦
      let kept =
        store_identity-IsValid w (record i { comment = comment }) (λ b. b) a v (λ b vb h. vb) in
      rw (e, change_comment)
        (elim (Bool-cases (bytes_eq i.comment comment)) [ inl t ↦ rw t v | inr t ↦ rw t kept ])
]

with_key-IsValid : (a : VaultAgent) (r : Result Bytes) → IsValid a → IsValid (with_key a r).0
with_key-IsValid a (ok k) v = v
with_key-IsValid a (err e) v = v

with_recovered-IsValid :
    (a : VaultAgent) (r : Result Bytes) → IsValid a → IsValid (with_recovered a r).0
with_recovered-IsValid a (ok k) v = v
with_recovered-IsValid a (err e) v = v

lock-IsValid : (passphrase : Bytes) (a : VaultAgent) → IsValid a → IsValid (lock passphrase a).0
unfolding lock
lock-IsValid passphrase a v = elim (Option-cases a.master_key) [
  | inl e ↦ rw (e, lock) v
  | inr (k, e) ↦ rw (e, lock) v
]

unlock-IsValid :
    (x : External) (passphrase : Bytes) (a : VaultAgent)
    → IsValid a
    → IsValid (unlock x passphrase a).0
unfolding unlock
unlock-IsValid x passphrase a v = elim (Option-cases a.master_key) [
  | inl e ↦ rw (e, unlock) (with_key-IsValid a _ v)
  | inr (k, e) ↦ rw (e, unlock) v
]

recovery-IsValid :
    (x : External) (mnemonic : Bytes) (a : VaultAgent)
    → IsValid a
    → IsValid (unlock_with_recovery x mnemonic a).0
unfolding unlock_with_recovery
recovery-IsValid x mnemonic a v = with_recovered-IsValid a _ v

ruleset valid_rules = (
  keeps_rules, lock-IsValid, unlock-IsValid, recovery-IsValid, load-IsValid, unload-IsValid,
  set_identity_autoload-IsValid, set_identity_comment-IsValid, add_key_with_autoload-IsValid,
)

dispatch-IsValid :
    (x : External) (w : World) (op : ℕ) (payload : Bytes) (a : VaultAgent)
    → IsValid a
    → Keeps IsValid (dispatch x w op payload a)
unfolding dispatch
dispatch-IsValid x w op payload a v = search valid_rules depth 14

handle_op-IsValid :
    (x : External) (w : World) (contents : Bytes) (a : VaultAgent)
    → IsValid a
    → Keeps IsValid (handle_op x w contents a)
handle_op-IsValid x w contents a v =
    handle_op-Keeps x w contents a v (λ op payload e. dispatch-IsValid x w op payload a v)

sign_with_flags-IsValid :
    (x : External) (w : World) (key : PublicKey) (message : Bytes) (flags : ℕ) (a : VaultAgent)
    → IsValid a
    → IsValid (sign_with_flags x w key message flags a).0
unfolding sign_with_flags sign
sign_with_flags-IsValid x w key message flags a v =
    let kept = purge_expired-IsValid w a v in
    elim (Bool-cases (flags == 0)) [ inl t ↦ rw t kept | inr t ↦ rw t kept ]

perform-IsValid :
    (x : External) (w : World) (c : Call) (a : VaultAgent) {b : VaultAgent}
    → IsValid a
    → perform x w c a ≡ some b
    → IsValid b
unfolding perform list_keys sign
perform-IsValid x w list_call a v e = from_some IsValid e (purge_expired-IsValid w a v)
perform-IsValid x w remove_all_call a v e = from_some IsValid e (remove_all-IsValid w a v)
perform-IsValid x w (add_call key) a v e = from_some IsValid e (add-IsValid x w key a v)
perform-IsValid x w (remove_call key) a v e = from_some IsValid e (remove-IsValid x w key a v)
perform-IsValid x w (lock_call passphrase) a v e = from_some IsValid e (lock-IsValid passphrase a v)
perform-IsValid x w (unlock_call passphrase) a v e =
    from_some IsValid e (unlock-IsValid x passphrase a v)
perform-IsValid x w (sign_call key message) a v e =
    from_some IsValid e (purge_expired-IsValid w a v)
perform-IsValid x w (sign_flags_call key message flags) a v e =
    from_some IsValid e (sign_with_flags-IsValid x w key message flags a v)
perform-IsValid x w (op_call contents) a v e =
    from_reply IsValid (handle_op x w contents a) e (handle_op-IsValid x w contents a v)

-- From a state in which fingerprints are unique and the session sets name stored identities only,
-- every sequence of calls that does not end in a panic leads to such a state, failing calls and
-- failing saves included.
pub run-IsValid :
    (x : External) (cs : List (World × Call)) (a : VaultAgent) {b : VaultAgent}
    → IsValid a
    → run x cs a ≡ some b
    → IsValid b
unfolding run
run-IsValid x [] a v e = from_some IsValid e v
run-IsValid x ((w, c) ∷ cs) a {b = last} v e = elim (Option-cases (perform x w c a)) [
  | inl n ↦ absurd (ground arith)
  | inr (b, s) ↦ run-IsValid x cs b {b = last} (perform-IsValid x w c a v s) (ground arith)
]
