-- ===== src/Vault/Served.antt =====
-- internal/vault/agent.go: which identities List of the agent serves.
use sshush.Prelude.{
  ℕ, ◌≡◌, refl, ap, ◌∙◌, Bool, true, false, not, ◌&&◌, ◌||◌, none, some, List, [], ◌∷◌, Bytes,
  bytes_eq, bytes_eq_iff, bytes_eq_refl, if◌then◌else◌, arith, inl, inr, Bool-cases,
}
use sshush.Prelude.KeySet.{KeySet, contains, contains-delete}
use sshush.Vault.Types.{Identity, IdentityRow}
use sshush.Vault.Cipher.{ok, ◌>>◌}
use sshush.Vault.Store.{
  IoStep, find_identity, is_listed, list_identities_for_agent, without, remove_identity,
}
use sshush.Vault.Store.Lookup.{Distinct}
use sshush.Vault.Store.Save.{save-eq-none, identities-save}
use sshush.Vault.State.{World, VaultAgent, Step, save_then}
use sshush.Vault.Agent.{
  is_expired, expired_fingerprints, forget_identity, forget_identities, purge, purge_expired,
  listed_rows, list_keys,
}
use sshush.Vault.Expiry.{is_over, contains-expired}

bytes_eq_swap : (s t : Bytes) → bytes_eq s t ≡ bytes_eq t s
bytes_eq_swap s t = ground (arith, bytes_eq_iff s t, bytes_eq_iff t s)

-- An autoload identity is served unless the session hides it, another one where the session has it.
unfoldable pub is_served : KeySet → KeySet → Identity → Bool
is_served session hidden i =
    (i.autoload && not (contains i.fingerprint hidden))
    || (not i.autoload && contains i.fingerprint session)

-- The public key and the comment of each identity that passes the test, in order.
unfoldable pub rows_of : (Identity → Bool) → List Identity → List IdentityRow
rows_of p [] = []
rows_of p (i ∷ is) =
    let rest = rows_of p is in
    if p i then record { public_key = i.public_key; comment = i.comment } ∷ rest else rest

pub is_listed-eq-served :
    (session hidden : KeySet) (i : Identity)
    → is_listed session hidden i ≡ is_served session hidden i
unfolding is_listed is_served
is_listed-eq-served session hidden i = ground arith

list-eq-rows :
    (session hidden : KeySet) (ids : List Identity)
    → list_identities_for_agent session hidden ids ≡ rows_of (is_served session hidden) ids
unfolding list_identities_for_agent rows_of
list-eq-rows session hidden [] = refl
list-eq-rows session hidden (i ∷ is) =
    rw (is_listed-eq-served session hidden i, list-eq-rows session hidden is) refl

rows_of-same :
    (p q : Identity → Bool) (ids : List Identity)
    → ((i : Identity) → p i ≡ q i)
    → rows_of p ids ≡ rows_of q ids
unfolding rows_of
rows_of-same p q [] h = refl
rows_of-same p q (i ∷ is) h = rw (h i, rows_of-same p q is h) refl

-- What is dropped from the list passes no test.
rows_of-without :
    (fp : Bytes) (p q : Identity → Bool) (ids : List Identity)
    → ((i : Identity) → bytes_eq i.fingerprint fp ≡ false → p i ≡ q i)
    → rows_of p (without fp ids) ≡ rows_of (λ i. not (bytes_eq i.fingerprint fp) && q i) ids
unfolding rows_of without
rows_of-without fp p q [] h = refl
rows_of-without fp p q (i ∷ is) h = elim (Bool-cases (bytes_eq i.fingerprint fp)) [
  | inl same ↦ rw same (rows_of-without fp p q is h)
  | inr other ↦ rw other (rw (h i other, rows_of-without fp p q is h) refl)
]

abbrev served_by : VaultAgent → Identity → Bool
served_by a = is_served a.session_autoload0 a.session_unloaded

served_by-forget :
    (fp : Bytes) (a : VaultAgent) (i : Identity)
    → bytes_eq i.fingerprint fp ≡ false
    → served_by (forget_identity fp a) i ≡ served_by a i
unfolding is_served forget_identity
served_by-forget fp a i other = ground (
  arith,
  contains-delete fp i.fingerprint a.session_autoload0,
  contains-delete fp i.fingerprint a.session_unloaded,
  bytes_eq_iff fp i.fingerprint,
  bytes_eq_iff i.fingerprint fp,
)

rows_of-forget :
    (fps : List Bytes) (a : VaultAgent)
    → rows_of (served_by (forget_identities fps a)) (forget_identities fps a).store.identities
      ≡ rows_of (λ i. not (contains i.fingerprint fps) && served_by a i) a.store.identities
unfolding forget_identities forget_identity remove_identity contains
rows_of-forget [] a = refl
rows_of-forget (fp ∷ fps) a =
    rows_of-forget fps (forget_identity fp a)
    ∙ dropped
    ∙ rows_of-same _ _ a.store.identities (λ i. merged i)
  where
    dropped :
        rows_of
          (λ i. not (contains i.fingerprint fps) && served_by (forget_identity fp a) i)
          (forget_identity fp a).store.identities
        ≡ rows_of
            (λ i.
              not (bytes_eq i.fingerprint fp)
              && (not (contains i.fingerprint fps) && served_by a i))
            a.store.identities
    dropped =
        rows_of-without fp
          (λ i. not (contains i.fingerprint fps) && served_by (forget_identity fp a) i)
          (λ i. not (contains i.fingerprint fps) && served_by a i) a.store.identities
          (λ i other.
            ap (λ b. not (contains i.fingerprint fps) && b) (served_by-forget fp a i other))

    merged :
        (i : Identity)
        → (not (bytes_eq i.fingerprint fp) && (not (contains i.fingerprint fps) && served_by a i))
          ≡ (not (contains i.fingerprint (fp ∷ fps)) && served_by a i)
    merged i = ground (arith, bytes_eq_swap fp i.fingerprint)

-- An identity whose fingerprint does not stand in the list.
rows_of-skip :
    (q : Identity → Bool) (fp : Bytes) (fps : List Bytes) (js : List Identity)
    → find_identity fp js ≡ none
    → rows_of (λ j. not (contains j.fingerprint (fp ∷ fps)) && q j) js
      ≡ rows_of (λ j. not (contains j.fingerprint fps) && q j) js
unfolding rows_of find_identity contains
rows_of-skip q fp fps [] h = refl
rows_of-skip q fp fps (j ∷ js) h = elim (Bool-cases (bytes_eq j.fingerprint fp)) [
  | inl same ↦ absurd (ground arith)
  | inr other ↦
      rw (bytes_eq_swap fp j.fingerprint, other, rows_of-skip q fp fps js (ground arith)) refl
]

expired_fingerprints-over :
    (now : ℕ) (i : Identity) (is : List Identity)
    → is_expired now i ≡ true
    → expired_fingerprints now (i ∷ is) ≡ i.fingerprint ∷ expired_fingerprints now is
unfolding expired_fingerprints
expired_fingerprints-over now i is h = rw h refl

expired_fingerprints-fresh :
    (now : ℕ) (i : Identity) (is : List Identity)
    → is_expired now i ≡ false
    → expired_fingerprints now (i ∷ is) ≡ expired_fingerprints now is
unfolding expired_fingerprints
expired_fingerprints-fresh now i is h = rw h refl

contains-absent :
    (now : ℕ) (fp : Bytes) (is : List Identity)
    → Distinct is
    → find_identity fp is ≡ none
    → contains fp (expired_fingerprints now is) ≡ false
contains-absent now fp is d absent = contains-expired now fp is d ∙ rw absent refl

-- The identities whose fingerprints are expired are those that are over.
rows_of-expired :
    (now : ℕ) (q : Identity → Bool) (ids : List Identity)
    → Distinct ids
    → rows_of (λ i. not (contains i.fingerprint (expired_fingerprints now ids)) && q i) ids
      ≡ rows_of (λ i. not (is_expired now i) && q i) ids
unfolding rows_of contains
rows_of-expired now q [] d = refl
rows_of-expired now q (i ∷ is) (new, d) = elim (Bool-cases (is_expired now i)) [
  | inl over ↦
      ap (λ fps. rows_of (λ j. not (contains j.fingerprint fps) && q j) (i ∷ is))
        (expired_fingerprints-over now i is over)
      ∙ rw (over, bytes_eq_refl i.fingerprint)
          (rows_of-skip q i.fingerprint (expired_fingerprints now is) is new
            ∙ rows_of-expired now q is d)
  | inr fresh ↦
      ap (λ fps. rows_of (λ j. not (contains j.fingerprint fps) && q j) (i ∷ is))
        (expired_fingerprints-fresh now i is fresh)
      ∙ rw (fresh, contains-absent now i.fingerprint is d new, rows_of-expired now q is d) refl
]

is_expired-eq-over : (now : ℕ) (i : Identity) → is_expired now i ≡ is_over now i
unfolding is_expired is_over
is_expired-eq-over now i = refl

master_key-forget :
    (fps : List Bytes) (a : VaultAgent) → (forget_identities fps a).master_key ≡ a.master_key
unfolding forget_identities forget_identity
master_key-forget [] a = refl
master_key-forget (fp ∷ fps) a = master_key-forget fps (forget_identity fp a)

-- A Save that succeeds changes nothing of what is listed.
saved-listed :
    (w : World) (b : VaultAgent)
    → ((step : IoStep) → w.io step ≡ false)
    → ((save_then w (λ c. c) b).1 ≡ ok tt)
      × (listed_rows (save_then w (λ c. c) b).0 ≡ listed_rows b)
unfolding save_then listed_rows
saved-listed w b io = (
  rw (save-eq-none w.io b.store io) refl,
  rw (save-eq-none w.io b.store io) (
      ap
        (λ ids. elim b.master_key as (λ m. List IdentityRow) [
          | none ↦ []
          | some k ↦ list_identities_for_agent b.session_autoload0 b.session_unloaded ids
        ])
        (identities-save w.io b.store)),
)

purge-listed :
    (w : World) (fps : List Bytes) (a : VaultAgent)
    → ((step : IoStep) → w.io step ≡ false)
    → ((purge w fps a).1 ≡ ok tt)
      × (listed_rows (purge w fps a).0 ≡ listed_rows (forget_identities fps a))
unfolding purge forget_identities
purge-listed w [] a io = (refl, refl)
purge-listed w (fp ∷ fps) a io = saved-listed w (forget_identities (fp ∷ fps) a) io

listed_rows-open :
    (a : VaultAgent) (key : Bytes)
    → a.master_key ≡ some key
    → listed_rows a ≡ rows_of (served_by a) a.store.identities
unfolding listed_rows
listed_rows-open a key held =
    rw held (list-eq-rows a.session_autoload0 a.session_unloaded a.store.identities)

purge_expired-eq :
    (w : World) (a : VaultAgent) (key : Bytes)
    → a.master_key ≡ some key
    → purge_expired w a ≡ purge w (expired_fingerprints w.now a.store.identities) a
unfolding purge_expired
purge_expired-eq w a key held =
    ap
      (λ m. elim m as (λ m. Step) [
        | none ↦ (a, ok tt)
        | some k ↦ purge w (expired_fingerprints w.now a.store.identities) a
      ])
      held

list_keys-open :
    (w : World) (a : VaultAgent) (key : Bytes)
    → a.master_key ≡ some key
    → ((step : IoStep) → w.io step ≡ false)
    → (list_keys w a).1
      ≡ ok (listed_rows (forget_identities (expired_fingerprints w.now a.store.identities) a))
unfolding list_keys
list_keys-open w a key held io =
    let (succeeds, rows) = purge-listed w (expired_fingerprints w.now a.store.identities) a io in
    ap (λ (t : Step). t.1 >> ok (listed_rows t.0)) (purge_expired-eq w a key held)
    ∙ rw succeeds (ap ok rows)

-- List on an unlocked agent whose fingerprints are unique, where every step of Save goes well, gives
-- the public keys and comments, in the order of the store, of just the identities that have no
-- ExpiresAt before the clock's time and are either autoload and not hidden for the session, or not
-- autoload and in the session's set.
pub list_keys-served :
    (w : World) (a : VaultAgent) (key : Bytes)
    → a.master_key ≡ some key
    → Distinct a.store.identities
    → ((step : IoStep) → w.io step ≡ false)
    → (list_keys w a).1
      ≡ ok (
          rows_of
            (λ i. not (is_over w.now i) && is_served a.session_autoload0 a.session_unloaded i)
            a.store.identities)
list_keys-served w a key held d io =
    let fps = expired_fingerprints w.now a.store.identities in
    list_keys-open w a key held io
    ∙ ap ok (
        listed_rows-open (forget_identities fps a) key (master_key-forget fps a ∙ held)
        ∙ rows_of-forget fps a
        ∙ rows_of-expired w.now (served_by a) a.store.identities d
        ∙ rows_of-same _ _ a.store.identities
            (λ i. ap (λ over. not over && served_by a i) (is_expired-eq-over w.now i)))
