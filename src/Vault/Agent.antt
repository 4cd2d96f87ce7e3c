-- ===== src/Vault/Agent.antt =====
-- internal/vault/agent.go: listing, adding and removing the identities of a vault.
use sshush.Prelude.{
  ℕ, ◌+◌, ◌*◌, Bool, false, not, Option, none, some, List, [], ◌∷◌, Bytes, ltb, if◌then◌else◌,
}
use sshush.Prelude.KeySet.{insert, delete}
use sshush.External.{External, PrivateKey, PublicKey}
use sshush.Vault.Types.{Identity, IdentityRow}
use sshush.Vault.Store.{
  list_identities_for_agent, add_or_replace_identity, remove_identity, remove_all_identities,
}
use sshush.Vault.Cipher.{
  Result, ok, err, failed, locked, key_not_found, confirm_unsupported, constraint_unsupported,
  certificate_unsupported, create_signer, or_err, encrypt_blob, ◌>>=◌, ◌>>◌,
}
use sshush.Vault.Keys.{marshal_private_key, fingerprint}
use sshush.Prelude.{is_empty}
use sshush.Vault.State.{World, VaultAgent, Step, save_then}

-- sshagent.AddedKey.
pub record AddedKey : Type 0 where
  pub private_key : PrivateKey
  pub certificate : Option Bytes
  pub comment : Bytes
  pub lifetime_secs : ℕ
  pub confirm_before_use : Bool
  pub constraint_extensions : List Bytes

unfoldable pub is_expired : ℕ → Identity → Bool
is_expired now i = elim i.expires_at [ none ↦ false | some t ↦ ltb t now ]

unfoldable pub expired_fingerprints : ℕ → List Identity → List Bytes
expired_fingerprints now [] = []
expired_fingerprints now (i ∷ is) =
    let rest = expired_fingerprints now is in
    if is_expired now i then i.fingerprint ∷ rest else rest

-- Remove one identity, and its fingerprint from both session sets.
unfoldable pub forget_identity : Bytes → VaultAgent → VaultAgent
forget_identity fp a = record a {
  store = (remove_identity fp a.store).0;
  session_autoload0 = delete fp a.session_autoload0;
  session_unloaded = delete fp a.session_unloaded;
}

unfoldable pub forget_identities : List Bytes → VaultAgent → VaultAgent
forget_identities [] a = a
forget_identities (fp ∷ fps) a = forget_identities fps (forget_identity fp a)

-- `if len(expired) == 0 { return nil }`
unfoldable pub purge : World → List Bytes → VaultAgent → Step
purge w [] a = (a, ok tt)
purge w (fp ∷ fps) a = save_then w (λ b. b) (forget_identities (fp ∷ fps) a)

unfoldable pub purge_expired : World → VaultAgent → Step
purge_expired w a = elim a.master_key [
  | none ↦ (a, ok tt)
  | some k ↦ purge w (expired_fingerprints w.now a.store.identities) a
]

-- A locked agent lists nothing.
unfoldable pub listed_rows : VaultAgent → List IdentityRow
listed_rows a = elim a.master_key [
  | none ↦ []
  | some k ↦ list_identities_for_agent a.session_autoload0 a.session_unloaded a.store.identities
]

unfoldable pub list_keys : World → VaultAgent → VaultAgent × Result (List IdentityRow)
list_keys w a = let (b, r) = purge_expired w a in (b, (do r; ok (listed_rows b)))

-- The identity that addKeyWithAutoload stores, or why there is none. A lifetime counts seconds.
unfoldable pub new_identity :
    External → World → AddedKey → Bool → Bytes → VaultAgent → Result Identity
new_identity x w key autoload filepath a = do
  public ← or_err (x.signer_public_key key.private_key) (failed create_signer)
  master_key ← or_err a.master_key locked
  plain ← marshal_private_key x key.private_key
  encrypted ← encrypt_blob x w.random master_key plain
  ok (record {
    fingerprint = fingerprint x public;
    public_key = public.blob;
    encrypted_blob = encrypted;
    comment = key.comment;
    filepath = filepath;
    access_time = [];
    added_at = [];
    autoload = autoload;
    expires_at =
        if ltb 0 key.lifetime_secs then some (w.now + key.lifetime_secs * 1000000000) else none;
  })

-- `if !autoload { a.sessionAutoload0[fp] = struct{}{} }`
unfoldable pub mark_added : Bool → Bytes → VaultAgent → VaultAgent
mark_added autoload fp a =
    if autoload then a else record a { session_autoload0 = insert fp a.session_autoload0 }

unfoldable pub store_identity : World → Identity → (VaultAgent → VaultAgent) → VaultAgent → Step
store_identity w i finish a =
    save_then w finish (record a { store = add_or_replace_identity w.timestamp i a.store })

abbrev pub store_new : World → VaultAgent → Result Identity → Step
store_new w a (err e) = (a, err e)
store_new w a (ok i) = store_identity w i (mark_added i.autoload i.fingerprint) a

unfoldable pub add_key_with_autoload :
    External → World → AddedKey → Bool → Bytes → VaultAgent → Step
add_key_with_autoload x w key autoload filepath a =
    store_new w a (new_identity x w key autoload filepath a)

unfoldable pub add : External → World → AddedKey → VaultAgent → Step
add x w key a =
    if key.confirm_before_use
    then (a, err (failed confirm_unsupported))
    else if not (is_empty key.constraint_extensions)
    then (a, err (failed constraint_unsupported))
    else (elim key.certificate [
      | some c ↦ (a, err (failed certificate_unsupported))
      | none ↦ add_key_with_autoload x w key false [] a
    ])

-- The session sets are cleaned also where no identity was removed.
unfoldable pub remove : External → World → PublicKey → VaultAgent → Step
remove x w key a = elim a.master_key [
  | none ↦ (a, err locked)
  | some k ↦
      let fp = fingerprint x key in
      let b = forget_identity fp a in
      if (remove_identity fp a.store).1 then save_then w (λ c. c) b else (b, err key_not_found)
]

unfoldable pub remove_all : World → VaultAgent → Step
remove_all w a = elim a.master_key [
  | none ↦ (a, err locked)
  | some k ↦
      save_then w (λ c. c)
        (record a {
          store = remove_all_identities a.store;
          session_autoload0 = [];
          session_unloaded = [];
        })
]
