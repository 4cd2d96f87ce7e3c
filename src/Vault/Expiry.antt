-- ===== src/Vault/Expiry.antt =====
-- internal/vault/agent.go: which identities purgeExpired drops.
use sshush.Prelude.{
  ℕ, ◌≡◌, refl, ap, ◌∙◌, false, Option, none, some, List, [], ◌∷◌, Bytes, bytes_eq_iff,
  if◌then◌else◌, arith, Bool, ltb, inl, inr, Option-cases,
}
use sshush.Prelude.KeySet.{contains}
use sshush.Vault.Types.{Identity}
use sshush.Vault.Store.{find_identity, save, remove_identity}
use sshush.Vault.Store.Lookup.{Distinct, find_identity-without}
use sshush.Vault.Store.Save.{identities-save}
use sshush.Vault.State.{World, VaultAgent, save_then}
use sshush.Vault.Agent.{
  is_expired, expired_fingerprints, forget_identity, forget_identities, purge, purge_expired,
}

-- Whether the moment until which an identity is kept, if it has one, is before now.
unfoldable pub is_over : ℕ → Identity → Bool
is_over now i = elim i.expires_at [ none ↦ false | some until ↦ ltb until now ]

-- What a lookup still finds when those are gone.
unfoldable pub unexpired : ℕ → Option Identity → Option Identity
unfolding is_over
unexpired now none = none
unexpired now (some i) = if is_over now i then none else some i

find-forget_identities :
    (fp : Bytes) (fps : List Bytes) (a : VaultAgent)
    → find_identity fp (forget_identities fps a).store.identities
      ≡ (if contains fp fps then none else find_identity fp a.store.identities)
unfolding forget_identities forget_identity remove_identity contains
find-forget_identities fp [] a = refl
find-forget_identities fp (k ∷ fps) a = ground (
  arith,
  find-forget_identities fp fps (forget_identity k a),
  find_identity-without fp k a.store.identities,
)

pub contains-expired :
    (now : ℕ) (fp : Bytes) (is : List Identity)
    → Distinct is
    → contains fp (expired_fingerprints now is)
      ≡ (elim (find_identity fp is) [ none ↦ false | some i ↦ is_expired now i ])
unfolding contains expired_fingerprints find_identity
contains-expired now fp [] d = refl
contains-expired now fp (i ∷ is) d =
    ground (arith, contains-expired now fp is d.1, bytes_eq_iff i.fingerprint fp)

identities-save_then :
    (w : World) (a : VaultAgent) → (save_then w (λ b. b) a).0.store.identities ≡ a.store.identities
unfolding save_then
identities-save_then w a = elim (Option-cases (save w.io a.store).1) [
  | inl e ↦ rw e (identities-save w.io a.store)
  | inr (f, e) ↦ rw e (identities-save w.io a.store)
]

identities-purge :
    (w : World) (fps : List Bytes) (a : VaultAgent)
    → (purge w fps a).0.store.identities ≡ (forget_identities fps a).store.identities
unfolding purge forget_identities
identities-purge w [] a = refl
identities-purge w (fp ∷ fps) a = identities-save_then w (forget_identities (fp ∷ fps) a)

purge_expired-open :
    (w : World) (a : VaultAgent) (key : Bytes)
    → a.master_key ≡ some key
    → (purge_expired w a).0 ≡ (purge w (expired_fingerprints w.now a.store.identities) a).0
unfolding purge_expired
purge_expired-open w a key h = ground arith

kept_identity :
    (w : World) (a : VaultAgent) (fp : Bytes)
    → Distinct a.store.identities
    → find_identity fp
        (forget_identities (expired_fingerprints w.now a.store.identities) a).store.identities
      ≡ unexpired w.now (find_identity fp a.store.identities)
unfolding unexpired is_over is_expired
kept_identity w a fp d = ground (
  arith,
  find-forget_identities fp (expired_fingerprints w.now a.store.identities) a,
  contains-expired w.now fp a.store.identities d,
)

-- On an unlocked agent whose fingerprints are unique, purgeExpired drops exactly the identities
-- with an ExpiresAt before the clock's time and leaves every other as it is, also where the Save after it fails.
pub find_identity-purge_expired :
    (w : World) (a : VaultAgent) (key fp : Bytes)
    → a.master_key ≡ some key
    → Distinct a.store.identities
    → find_identity fp (purge_expired w a).0.store.identities
      ≡ unexpired w.now (find_identity fp a.store.identities)
find_identity-purge_expired w a key fp h d =
    ap (λ (b : VaultAgent). find_identity fp b.store.identities) (purge_expired-open w a key h)
    ∙ ap (find_identity fp) (identities-purge w (expired_fingerprints w.now a.store.identities) a)
    ∙ kept_identity w a fp d
