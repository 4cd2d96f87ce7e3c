-- ===== src/Vault/Visible/Adding.antt =====
-- What addKeyWithAutoload of internal/vault/agent.go makes visible, and what a restart does.
use sshush.Prelude.{
  ◌≡◌, refl, sym, ap, ◌∙◌, Bool, true, false, not, Option, none, some, List, [], ◌∷◌, Bytes,
  bytes_eq, bytes_eq_refl, if◌then◌else◌, arith, Option-cases, inl, inr,
}
use sshush.Prelude.KeySet.{contains, contains-insert}
use sshush.External.{External}
use sshush.Vault.Cipher.{ok}
use sshush.Vault.Types.{Identity, VaultStore}
use sshush.Vault.Store.{
  Io, find_identity, is_listed, json_identity, json_identities, save, open_store, opened,
  add_or_replace_identity,
}
use sshush.Vault.Store.Lookup.{fingerprint-find, find_identity-replace_or_append}
use sshush.Vault.Store.Save.{identities-save, identities-open_save}
use sshush.Vault.State.{World, VaultAgent, Step, save_then, new_vault_agent}
use sshush.Vault.Agent.{
  AddedKey, new_identity, add_key_with_autoload, store_new, store_identity, mark_added,
}
use sshush.Vault.Visible.{is_visible}

-- A method that saves and succeeds has done what it does after the save, over the same identities.
pub save_then-eq-ok :
    (w : World) (finish : VaultAgent → VaultAgent) (a : VaultAgent)
    → (save_then w finish a).1 ≡ ok tt
    → (s : VaultStore) × (s.identities ≡ a.store.identities)
      × ((save_then w finish a).0 ≡ finish (record a { store = s }))
unfolding save_then
save_then-eq-ok w finish a h = elim (Option-cases (save w.io a.store).1) [
  | inl e ↦ ((save w.io a.store).0, identities-save w.io a.store, rw e)
  | inr (f, e) ↦ absurd (ground arith)
]

new_identity-fields :
    (x : External) (w : World) (key : AddedKey) (autoload : Bool) (filepath : Bytes)
    (a : VaultAgent) {i : Identity}
    → new_identity x w key autoload filepath a ≡ ok i
    → i.autoload ≡ autoload
unfolding new_identity
new_identity-fields x w key autoload filepath a h = ground arith

-- What is visible in a state in which the identity has just been stored.
visible-mark_added :
    (w : World) (i : Identity) (a : VaultAgent) (s : VaultStore) (j : Bytes)
    → s.identities ≡ (add_or_replace_identity w.timestamp i a.store).identities
    → is_visible (mark_added i.autoload i.fingerprint (record a { store = s })) j ≡ (
        if bytes_eq i.fingerprint j
        then (if i.autoload then not (contains i.fingerprint a.session_unloaded) else true)
        else is_visible a j)
unfolding mark_added is_visible is_listed add_or_replace_identity
visible-mark_added w i a s j same = elim (Option-cases (find_identity j a.store.identities)) [
  | inl n ↦ ground (
    arith,
    ap (find_identity j) same,
    find_identity-replace_or_append j (record i { added_at = w.timestamp }) a.store.identities,
    contains-insert i.fingerprint i.fingerprint a.session_autoload0,
    bytes_eq_refl i.fingerprint,
  )
  | inr (m, q) ↦ ground (
    arith,
    ap (find_identity j) same,
    find_identity-replace_or_append j (record i { added_at = w.timestamp }) a.store.identities,
    contains-insert i.fingerprint i.fingerprint a.session_autoload0,
    contains-insert i.fingerprint m.fingerprint a.session_autoload0,
    fingerprint-find j a.store.identities q,
    bytes_eq_refl i.fingerprint,
  )
]

visible-store_identity :
    (w : World) (i : Identity) (a : VaultAgent) (j : Bytes)
    → (store_identity w i (mark_added i.autoload i.fingerprint) a).1 ≡ ok tt
    → is_visible (store_identity w i (mark_added i.autoload i.fingerprint) a).0 j ≡ (
        if bytes_eq i.fingerprint j
        then (if i.autoload then not (contains i.fingerprint a.session_unloaded) else true)
        else is_visible a j)
unfolding store_identity
visible-store_identity w i a j h =
    let b : VaultAgent = record a { store = add_or_replace_identity w.timestamp i a.store } in
    let (s, same, r) = save_then-eq-ok w (mark_added i.autoload i.fingerprint) b h in
    ap (λ (t : VaultAgent). is_visible t j) r ∙ visible-mark_added w i a s j same

-- After an identity has been stored under a fingerprint, as autoload or not, it is visible: a
-- session identity always, and an autoload identity unless this session hides the fingerprint.
-- All other identities are as visible as they were.
pub is_visible-add_key :
    (x : External) (w : World) (key : AddedKey) (autoload : Bool) (filepath : Bytes)
    (a : VaultAgent) {i : Identity} (j : Bytes)
    → new_identity x w key autoload filepath a ≡ ok i
    → (add_key_with_autoload x w key autoload filepath a).1 ≡ ok tt
    → is_visible (add_key_with_autoload x w key autoload filepath a).0 j ≡ (
        if bytes_eq i.fingerprint j
        then (if autoload then not (contains i.fingerprint a.session_unloaded) else true)
        else is_visible a j)
unfolding add_key_with_autoload
is_visible-add_key x w key autoload filepath a {i} j e h =
    let stores : add_key_with_autoload x w key autoload filepath a
        ≡ store_identity w i (mark_added i.autoload i.fingerprint) a =
      ap (store_new w a) e in
    ap (λ (t : Step). is_visible t.0 j) stores
    ∙ visible-store_identity w i a j (ap (λ (t : Step). t.1) (sym stores) ∙ h)
    ∙ ap
        (λ (b : Bool).
          if bytes_eq i.fingerprint j
          then (if b then not (contains i.fingerprint a.session_unloaded) else true)
          else is_visible a j)
        (new_identity-fields x w key autoload filepath a e)

abbrev reread : Option Identity → Option Identity
reread none = none
reread (some i) = some (json_identity i)

find_identity-json :
    (fp : Bytes) (is : List Identity)
    → find_identity fp (json_identities is) ≡ reread (find_identity fp is)
unfolding find_identity json_identities
find_identity-json fp [] = refl
find_identity-json fp (i ∷ is) = ground (arith, find_identity-json fp is)

-- After a Save that succeeds and a restart (the vault file opened again, and a new agent on it that
-- is unlocked), an identity is visible exactly if it is stored with autoload, whatever the session
-- had loaded or hidden.
pub is_visible-restart :
    (io later : Io) (store : VaultStore) (key fp : Bytes) {t : VaultStore}
    → (save io store).1 ≡ none
    → open_store later (save io store).0.path_file (save io store).0.tmp_file ≡ opened t
    → is_visible (record (new_vault_agent t) { master_key = some key }) fp
      ≡ (elim (find_identity fp store.identities) [ none ↦ false | some i ↦ i.autoload ])
unfolding is_visible is_listed new_vault_agent contains
is_visible-restart io later store key fp {t} h o = ground (
  arith,
  ap (find_identity fp) (identities-open_save io later store h o),
  find_identity-json fp store.identities,
)
