-- ===== src/Vault/Invariant.antt =====
-- An invariant of the agent of internal/vault/agent.go: its fingerprints and its session sets.
pub mod Calls
use sshush.Prelude.{
  ℕ, ◌≡◌, refl, sym, ap, Bool, true, false, Option, none, some, List, [], ◌∷◌, Bytes, bytes_eq,
  bytes_eq_iff, bytes_eq_refl, if◌then◌else◌, arith, Option-cases, inl, inr, Bool-cases,
}
use mathlib.Core.Path.{subst}
use sshush.Prelude.KeySet.{
  KeySet, contains, insert, delete, contains-insert, contains-delete, contains-empty, key_set_laws,
}
use sshush.External.{External, PublicKey}
use sshush.Vault.Types.{Identity, VaultStore}
use sshush.Vault.Store.{
  find_identity, has_identity, save, without, replace_or_append, add_or_replace_identity,
  remove_identity, remove_all_identities,
}
use sshush.Vault.Store.Save.{identities-save}
use sshush.Vault.Store.Lookup.{
  Distinct, without-Distinct, replace_or_append-Distinct, has_identity-without,
  has_identity-replace_or_append, has_identity-eq-find, fingerprint-find,
}
use sshush.Vault.Cipher.{Result, ok, err, Result-cases}
use sshush.Vault.State.{World, VaultAgent, Step, save_then, new_vault_agent}
use sshush.Vault.Keys.{fingerprint}
use sshush.Vault.Agent.{
  forget_identity, forget_identities, purge, AddedKey, purge_expired, expired_fingerprints,
  list_keys, new_identity, mark_added, store_identity, store_new, add_key_with_autoload, add,
  remove, remove_all,
}

pub record Valid (ids : List Identity) (session hidden : KeySet) : Type 0 where
  pub distinct : Distinct ids
  pub loaded : (fp : Bytes) → contains fp session ≡ true → has_identity fp ids ≡ true
  pub unloaded : (fp : Bytes) → contains fp hidden ≡ true → has_identity fp ids ≡ true

abbrev pub IsValid : VaultAgent → Type 0
IsValid a = Valid a.store.identities a.session_autoload0 a.session_unloaded

-- Saving changes no identity: a store that is valid stays so, and then what the method does
-- afterwards counts.
pub save_then-IsValid :
    (w : World) (finish : VaultAgent → VaultAgent) (a : VaultAgent)
    → IsValid a
    → ((s : VaultStore)
        → s.identities ≡ a.store.identities
        → IsValid (finish (record a { store = s })))
    → IsValid (save_then w finish a).0
unfolding save_then
save_then-IsValid w finish a v k = elim (Option-cases (save w.io a.store).1) [
  | inl e ↦ rw e (k (save w.io a.store).0 (identities-save w.io a.store))
  | inr (f, e) ↦ rw e (
      subst (λ ids. Valid ids a.session_autoload0 a.session_unloaded)
        (sym (identities-save w.io a.store)) v)
]

pub forget_identity-IsValid :
    (fp : Bytes) (a : VaultAgent) → IsValid a → IsValid (forget_identity fp a)
unfolding forget_identity remove_identity
forget_identity-IsValid fp a v = record {
  distinct = without-Distinct fp a.store.identities v.distinct;
  loaded = λ k h. ground (
    arith,
    has_identity-without k fp a.store.identities,
    contains-delete fp k a.session_autoload0,
    v.loaded k,
  );
  unloaded = λ k h. ground (
    arith,
    has_identity-without k fp a.store.identities,
    contains-delete fp k a.session_unloaded,
    v.unloaded k,
  );
}

forget_identities-IsValid :
    (fps : List Bytes) (a : VaultAgent) → IsValid a → IsValid (forget_identities fps a)
unfolding forget_identities
forget_identities-IsValid [] a v = v
forget_identities-IsValid (fp ∷ fps) a v =
    forget_identities-IsValid fps (forget_identity fp a) (forget_identity-IsValid fp a v)

-- A valid state stays so under another store with the same identities.
same-IsValid :
    (a : VaultAgent) (s : VaultStore)
    → IsValid a
    → s.identities ≡ a.store.identities
    → IsValid (record a { store = s })
same-IsValid a s v e = subst (λ ids. Valid ids a.session_autoload0 a.session_unloaded) (sym e) v

purge-IsValid :
    (w : World) (fps : List Bytes) (a : VaultAgent) → IsValid a → IsValid (purge w fps a).0
unfolding purge
purge-IsValid w [] a v = v
purge-IsValid w (fp ∷ fps) a v =
    let kept = forget_identities-IsValid (fp ∷ fps) a v in
    save_then-IsValid w (λ b. b) (forget_identities (fp ∷ fps) a) kept
      (λ s e. same-IsValid (forget_identities (fp ∷ fps) a) s kept e)

pub purge_expired-IsValid : (w : World) (a : VaultAgent) → IsValid a → IsValid (purge_expired w a).0
unfolding purge_expired
purge_expired-IsValid w a v = elim (Option-cases a.master_key) [
  | inl e ↦ rw (e, purge_expired) v
  | inr (k, e) ↦
      rw (e, purge_expired) (purge-IsValid w (expired_fingerprints w.now a.store.identities) a v)
]

-- Storing an identity, and then a change of the session sets that names stored identities only.
store_identity-IsValid :
    (w : World) (i : Identity) (finish : VaultAgent → VaultAgent) (a : VaultAgent)
    → IsValid a
    → ((b : VaultAgent)
        → IsValid b
        → has_identity i.fingerprint b.store.identities ≡ true
        → IsValid (finish b))
    → IsValid (store_identity w i finish a).0
unfolding store_identity add_or_replace_identity
store_identity-IsValid w i finish a v k =
    let b : VaultAgent = record a { store = add_or_replace_identity w.timestamp i a.store } in
    let vb : IsValid b = record {
      distinct = replace_or_append-Distinct _ a.store.identities v.distinct;
      loaded = λ fp h. ground (
        arith,
        v.loaded fp,
        has_identity-replace_or_append fp (record i { added_at = w.timestamp }) a.store.identities,
      );
      unloaded = λ fp h. ground (
        arith,
        v.unloaded fp,
        has_identity-replace_or_append fp (record i { added_at = w.timestamp }) a.store.identities,
      );
    } in
    save_then-IsValid w finish b vb (λ s e.
      k (record b { store = s }) (same-IsValid b s vb e)
        (rw (
          e,
          has_identity-replace_or_append i.fingerprint (record i { added_at = w.timestamp })
              a.store.identities,
          bytes_eq_refl i.fingerprint,
        )))

mark_added-IsValid :
    (autoload : Bool) (fp : Bytes) (b : VaultAgent)
    → IsValid b
    → has_identity fp b.store.identities ≡ true
    → IsValid (mark_added autoload fp b)
unfolding mark_added
mark_added-IsValid true fp b v h = v
mark_added-IsValid false fp b v h = record {
  distinct = v.distinct;
  unloaded = v.unloaded;
  loaded = λ k m.
      ground (arith, v.loaded k, contains-insert fp k b.session_autoload0, bytes_eq_iff fp k);
}

pub add_key_with_autoload-IsValid :
    (x : External) (w : World) (key : AddedKey) (autoload : Bool) (filepath : Bytes)
    (a : VaultAgent)
    → IsValid a
    → IsValid (add_key_with_autoload x w key autoload filepath a).0
unfolding add_key_with_autoload
add_key_with_autoload-IsValid x w key autoload filepath a v =
    elim (Result-cases (new_identity x w key autoload filepath a)) [
      | inl (i, e) ↦ rw e (
          store_identity-IsValid w i (mark_added i.autoload i.fingerprint) a v
            (mark_added-IsValid i.autoload i.fingerprint))
      | inr (f, e) ↦ rw e v
    ]

pub add-IsValid :
    (x : External) (w : World) (key : AddedKey) (a : VaultAgent)
    → IsValid a
    → IsValid (add x w key a).0
unfolding add
add-IsValid x w key a v = ground (arith, add_key_with_autoload-IsValid x w key false [] a v)

pub remove-IsValid :
    (x : External) (w : World) (key : PublicKey) (a : VaultAgent)
    → IsValid a
    → IsValid (remove x w key a).0
unfolding remove
remove-IsValid x w key a v =
    let fp = fingerprint x key in
    let b = forget_identity fp a in
    let vb = forget_identity-IsValid fp a v in
    let saved = save_then-IsValid w (λ c. c) b vb (λ s e. same-IsValid b s vb e) in ground arith

pub remove_all-IsValid : (w : World) (a : VaultAgent) → IsValid a → IsValid (remove_all w a).0
unfolding remove_all remove_all_identities
remove_all-IsValid w a v =
    let b : VaultAgent = record a {
      store = remove_all_identities a.store;
      session_autoload0 = [];
      session_unloaded = [];
    } in
    let vb : IsValid b = record {
      distinct = tt;
      loaded = λ k h. cc (contains-empty k);
      unloaded = λ k h. cc (contains-empty k);
    } in
    let saved = save_then-IsValid w (λ c. c) b vb (λ s e. same-IsValid b s vb e) in ground arith
