-- ===== src/Vault/Signing.antt =====
-- Which keys the agent of internal/vault/agent.go signs with.
use sshush.Prelude.{
  ◌≡◌, ◌≢◌, ap, ◌∙◌, Bool, true, false, some, Bytes, bytes_eq_refl, arith, inl, inr, length,
}
use sshush.Prelude.KeySet.{contains, contains-insert}
use sshush.External.{External, CryptoLaws, KeyLaws, IsEd25519Key, PublicKey, ed25519}
use sshush.Kdf.{key_len}
use sshush.Vault.Cipher.{
  VaultError, ok, err, Result-cases, key_not_found, encrypt_blob, decrypt-encrypt_blob,
  encrypt_blob-eq-ok, gcm_iv_size,
}
use sshush.Vault.Keys.{fingerprint, marshal_private_key, unmarshal-marshal_ed25519, ed25519_name}
use sshush.Vault.Types.{Identity, VaultStore}
use sshush.Vault.Store.{IoStep, find_identity, get_identity, add_or_replace_identity}
use sshush.Vault.Store.Lookup.{find_identity-replace_or_append}
use sshush.Vault.Store.Save.{save-eq-none}
use sshush.Vault.State.{World, VaultAgent, Step, save_then}
use sshush.Vault.Agent.{
  AddedKey, new_identity, add_key_with_autoload, store_new, store_identity, mark_added,
}
use sshush.Vault.Session.{session_unload, stored, unload}
use sshush.Vault.Sign.{signer_for_key}
use sshush.Vault.Visible.{is_visible, is_visible-session_unload}
use sshush.Vault.Visible.Adding.{save_then-eq-ok}

signer-unload :
    (x : External) (key : PublicKey) (a : VaultAgent) (i : Identity)
    → stored (fingerprint x key) a ≡ ok i
    → i.autoload ≡ true
    → signer_for_key x key (unload (fingerprint x key) a (ok i)).0 ≡ signer_for_key x key a
unfolding signer_for_key get_identity
signer-unload x key a i e auto = ground arith

unload-stored :
    (fp : Bytes) (a : VaultAgent) (i : Identity)
    → stored fp a ≡ ok i
    → session_unload fp a ≡ unload fp a (ok i)
unfolding session_unload
unload-stored fp a i e = ap (unload fp a) e

-- Hiding an autoload identity for the session takes it off the list and leaves signing with it as
-- it was: the signer, or the error, is the same after the session-unload as before.
pub signer_for_key-session_unload :
    (x : External) (key : PublicKey) (a : VaultAgent) {i : Identity}
    → stored (fingerprint x key) a ≡ ok i
    → i.autoload ≡ true
    → (is_visible (session_unload (fingerprint x key) a).0 (fingerprint x key) ≡ false)
      × (signer_for_key x key (session_unload (fingerprint x key) a).0 ≡ signer_for_key x key a)
signer_for_key-session_unload x key a {i} e auto =
    let done = unload-stored (fingerprint x key) a i e in
    (
      is_visible-session_unload a (fingerprint x key) (fingerprint x key)
            (ap (λ (t : Step). t.1) done)
          ∙ rw (bytes_eq_refl (fingerprint x key)),
      ap (λ (t : Step). signer_for_key x key t.0) done ∙ signer-unload x key a i e auto,
    )

-- The signer of an identity that is neither autoload nor added or loaded in this session is
-- refused as if the key were not there.
pub signer_for_key-unlisted :
    (x : External) (key : PublicKey) (a : VaultAgent) {i : Identity}
    → stored (fingerprint x key) a ≡ ok i
    → i.autoload ≡ false
    → contains (fingerprint x key) a.session_autoload0 ≡ false
    → signer_for_key x key a ≡ err key_not_found
unfolding signer_for_key get_identity
signer_for_key-unlisted x key a e manual out = ground arith

store_identity-succeeds :
    (w : World) (i : Identity) (finish : VaultAgent → VaultAgent) (a : VaultAgent)
    → ((step : IoStep) → w.io step ≡ false)
    → (store_identity w i finish a).1 ≡ ok tt
unfolding store_identity save_then
store_identity-succeeds w i finish a h =
    rw (save-eq-none w.io (add_or_replace_identity w.timestamp i a.store) h)

add_key-stores :
    (x : External) (w : World) (key : AddedKey) (autoload : Bool) (filepath : Bytes)
    (a : VaultAgent) (i : Identity)
    → new_identity x w key autoload filepath a ≡ ok i
    → add_key_with_autoload x w key autoload filepath a
      ≡ store_identity w i (mark_added i.autoload i.fingerprint) a
unfolding add_key_with_autoload
add_key-stores x w key autoload filepath a i e = ap (store_new w a) e

new_identity-succeeds :
    (x : External) (w : World) (a : VaultAgent) (key : AddedKey) (autoload : Bool)
    (filepath iv master k : Bytes) (public : PublicKey) (f : VaultError)
    → key.private_key ≡ ed25519 k
    → w.random ≡ some iv
    → a.master_key ≡ some master
    → length master ≡ key_len
    → x.signer_public_key (ed25519 k) ≡ some public
    → new_identity x w key autoload filepath a ≢ err f
unfolding new_identity marshal_private_key
new_identity-succeeds x w a key autoload filepath iv master k public f hkey hr hm hlen hsig e =
    ground (arith, encrypt_blob-eq-ok x iv master (x.ed25519_seed k) hlen)

module _ (x : External) (crypto : CryptoLaws x) (keys : KeyLaws x) where
  -- What signerForKey finds in a state in which the key has just been stored.
  signer_of_stored :
      (w : World) (a : VaultAgent) (s : VaultStore) (i : Identity) (iv master k : Bytes)
      (public : PublicKey)
      → IsEd25519Key x k
      → length iv ≡ gcm_iv_size
      → a.master_key ≡ some master
      → i.fingerprint ≡ fingerprint x public
      → encrypt_blob x (some iv) master (x.ed25519_seed k) ≡ ok i.encrypted_blob
      → public.key_type ≡ ed25519_name
      → x.signer_public_key (ed25519 k) ≡ some public
      → s.identities ≡ (add_or_replace_identity w.timestamp i a.store).identities
      → signer_for_key x public (mark_added i.autoload i.fingerprint (record a { store = s }))
        ≡ ok (ed25519 k)
  unfolding signer_for_key get_identity mark_added add_or_replace_identity
  signer_of_stored w a s i iv master k public hk hiv hm hfp henc hty hsig same = ground (
    arith,
    ap (find_identity i.fingerprint) same,
    find_identity-replace_or_append i.fingerprint (record i { added_at = w.timestamp })
        a.store.identities,
    contains-insert i.fingerprint i.fingerprint a.session_autoload0,
    bytes_eq_refl i.fingerprint,
    decrypt-encrypt_blob x iv master (x.ed25519_seed k) crypto hiv henc,
    (unmarshal-marshal_ed25519 x k keys hk).2,
  )

  signer_of_store_identity :
      (w : World) (a : VaultAgent) (i : Identity) (iv master k : Bytes) (public : PublicKey)
      → IsEd25519Key x k
      → length iv ≡ gcm_iv_size
      → a.master_key ≡ some master
      → i.fingerprint ≡ fingerprint x public
      → encrypt_blob x (some iv) master (x.ed25519_seed k) ≡ ok i.encrypted_blob
      → public.key_type ≡ ed25519_name
      → x.signer_public_key (ed25519 k) ≡ some public
      → (store_identity w i (mark_added i.autoload i.fingerprint) a).1 ≡ ok tt
      → signer_for_key x public (store_identity w i (mark_added i.autoload i.fingerprint) a).0
        ≡ ok (ed25519 k)
  unfolding store_identity
  signer_of_store_identity w a i iv master k public hk hiv hm hfp henc hty hsig h =
      let b : VaultAgent = record a { store = add_or_replace_identity w.timestamp i a.store } in
      let (s, same, r) = save_then-eq-ok w (mark_added i.autoload i.fingerprint) b h in
      ap (signer_for_key x public) r
      ∙ signer_of_stored w a s i iv master k public hk hiv hm hfp henc hty hsig same

  -- The identity that is stored for an ed25519 key.
  new_identity-ed25519 :
      (w : World) (a : VaultAgent) (key : AddedKey) (autoload : Bool) (filepath iv master k : Bytes)
      (public : PublicKey) {i : Identity}
      → key.private_key ≡ ed25519 k
      → w.random ≡ some iv
      → a.master_key ≡ some master
      → x.signer_public_key (ed25519 k) ≡ some public
      → new_identity x w key autoload filepath a ≡ ok i
      → (i.fingerprint ≡ fingerprint x public)
        × (encrypt_blob x (some iv) master (x.ed25519_seed k) ≡ ok i.encrypted_blob)
  unfolding new_identity marshal_private_key
  new_identity-ed25519 w a key autoload filepath iv master k public hkey hr hm hsig e =
      elim (Result-cases (encrypt_blob x w.random master (x.ed25519_seed k))) [
        | inl (blob, q) ↦ ground arith
        | inr (f, q) ↦ absurd (ground arith)
      ]

-- addKeyWithAutoload, as autoload or not, of an ed25519 key that NewKeyFromSeed could have made, given
-- by value, on an agent that is unlocked by a master key of 32 bytes, with a nonce to draw and every
-- step of Save going well: the call succeeds, and in the state that it leaves signerForKey finds that
-- very key.
pub signer_for_key-add :
    (x : External) (w : World) (a : VaultAgent) (key : AddedKey) (autoload : Bool)
    (filepath iv master k : Bytes) (public : PublicKey)
    → CryptoLaws x
    → KeyLaws x
    → key.private_key ≡ ed25519 k
    → IsEd25519Key x k
    → w.random ≡ some iv
    → length iv ≡ gcm_iv_size
    → ((step : IoStep) → w.io step ≡ false)
    → a.master_key ≡ some master
    → length master ≡ key_len
    → x.signer_public_key (ed25519 k) ≡ some public
    → public.key_type ≡ ed25519_name
    → ((add_key_with_autoload x w key autoload filepath a).1 ≡ ok tt)
      × (signer_for_key x public (add_key_with_autoload x w key autoload filepath a).0
          ≡ ok (ed25519 k))
signer_for_key-add x w a key autoload filepath iv master k public crypto keys hkey hk hr hiv hio hm
      hlen hsig hty =
    elim (Result-cases (new_identity x w key autoload filepath a)) [
      | inr (f, e) ↦ absurd (
          new_identity-succeeds x w a key autoload filepath iv master k public f hkey hr hm hlen
            hsig e)
      | inl (i, e) ↦
          let (hfp, henc) =
            new_identity-ed25519 x crypto keys w a key autoload filepath iv master k public hkey hr
              hm hsig e in
          let stores = add_key-stores x w key autoload filepath a i e in
          let saved = store_identity-succeeds w i (mark_added i.autoload i.fingerprint) a hio in
          (
            ap (λ (t : Step). t.1) stores ∙ saved,
            ap (λ (t : Step). signer_for_key x public t.0) stores
                ∙ signer_of_store_identity x crypto keys w a i iv master k public hk hiv hm hfp henc
                    hty hsig saved,
          )
    ]
