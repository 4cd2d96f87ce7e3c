-- ===== src/Vault/Visible.antt =====
-- Which identities the agent of internal/vault/agent.go shows, and how loading, unloading, adding
-- and restarting change that.
pub mod Adding
use sshush.Prelude.{
  ℕ, ◌≡◌, ◌≢◌, refl, sym, ap, ◌∙◌, Bool, true, false, not, ◌||◌, Option, none, some, List, [], ◌∷◌,
  Bytes, bytes_eq, bytes_eq_iff, bytes_eq_refl, if◌then◌else◌, arith, Option-cases, inl, inr,
  Bool-cases, ◌==◌,
}
use sshush.Prelude.KeySet.{
  KeySet, contains, insert, delete, contains-insert, contains-delete, contains-empty,
}
use sshush.Vault.Cipher.{Result, ok, err, Result-cases, locked, failed, save_store}
use sshush.Vault.Types.{Identity, IdentityRow, VaultStore}
use sshush.Vault.Store.{
  Io, find_identity, is_listed, list_identities_for_agent, save, open_store, opened, mkdir, read,
}
use sshush.Vault.Store.Lookup.{Distinct, fingerprint-find, find_identity-replace_or_append}
use sshush.Vault.Store.Save.{identities-save, open-save}
use sshush.Vault.State.{World, VaultAgent, Step, save_then, new_vault_agent}
use sshush.Vault.Agent.{listed_rows}
use sshush.Vault.Session.{session_load, session_unload, stored, load, unload}

abbrev shown : KeySet → KeySet → Option Identity → Bool
shown session hidden none = false
shown session hidden (some i) = is_listed session hidden i

-- Whether the agent, when unlocked, lists the identity with this fingerprint.
unfoldable pub is_visible : VaultAgent → Bytes → Bool
is_visible a fp = shown a.session_autoload0 a.session_unloaded (find_identity fp a.store.identities)

-- After a session-unload that succeeds, the identity with that fingerprint is not visible, and all
-- others are as visible as they were.
pub is_visible-session_unload :
    (a : VaultAgent) (fp j : Bytes)
    → (session_unload fp a).1 ≡ ok tt
    → is_visible (session_unload fp a).0 j ≡ (if bytes_eq fp j then false else is_visible a j)
unfolding session_unload is_visible is_listed
is_visible-session_unload a fp j h = elim (Result-cases (stored fp a)) [
  | inr (f, e) ↦ absurd (ground arith)
  | inl (i, e) ↦
      rw (e, unload)
        (elim (Option-cases (find_identity j a.store.identities)) [
          | inl n ↦ ground (arith, bytes_eq_iff fp j)
          | inr (m, q) ↦ ground (
            arith,
            bytes_eq_iff fp j,
            fingerprint-find j a.store.identities q,
            contains-insert fp m.fingerprint a.session_unloaded,
            contains-delete fp m.fingerprint a.session_autoload0,
          )
        ])
]

-- After a session-load that succeeds, the identity with that fingerprint is visible, and all others
-- are as visible as they were.
pub is_visible-session_load :
    (a : VaultAgent) (fp j : Bytes)
    → (session_load fp a).1 ≡ ok tt
    → is_visible (session_load fp a).0 j ≡ (if bytes_eq fp j then true else is_visible a j)
unfolding session_load is_visible is_listed
is_visible-session_load a fp j h = elim (Result-cases (stored fp a)) [
  | inr (f, e) ↦ absurd (ground arith)
  | inl (i, e) ↦
      rw (e, load)
        (elim (Option-cases (find_identity j a.store.identities)) [
          | inl n ↦ ground (arith, bytes_eq_iff fp j)
          | inr (m, q) ↦ ground (
            arith,
            bytes_eq_iff fp j,
            fingerprint-find j a.store.identities q,
            contains-insert fp m.fingerprint a.session_autoload0,
            contains-delete fp m.fingerprint a.session_unloaded,
          )
        ])
]
