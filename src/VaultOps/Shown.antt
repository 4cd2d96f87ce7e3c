-- ===== src/VaultOps/Shown.antt =====
-- internal/vaultops/list.go against internal/vault/agent.go: the identities that are shown as loaded.
use sshush.Prelude.{
  ◌≡◌, refl, Bool, true, false, Option, none, some, List, [], ◌∷◌, Bytes, codes, map, bytes_eq_iff,
  if◌then◌else◌, arith, Bool-cases, Option-cases, inl, inr,
}
use sshush.Prelude.KeySet.{KeySet, contains, insert}
use sshush.Prelude.Outcome.{ok}
use sshush.External.{External, PublicKey}
use sshush.Vault.Cipher
use sshush.Vault.Types.{Identity, IdentityRow, VaultStore}
use sshush.Vault.Store.{list_identities_for_agent, find_identity}
use sshush.Vault.Store.Lookup.{Distinct}
use sshush.Vault.Resolve.{IdentityInfo, list_identities}
use sshush.Vault.State.{World, VaultAgent}
use sshush.Vault.Agent.{list_keys, listed_rows, purge_expired, purge, expired_fingerprints}
use sshush.Vault.Served.{is_served, is_listed-eq-served}
use sshush.Session.VaultClient.{backend-connected}
use sshush.VaultOps.Conn.{Site, Env, Conn, open_file}
use sshush.VaultOps.Attach.{attach_agent, unlock_if_locked, with_session, serves_this_vault}
use sshush.VaultOps.Selectors.{fingerprint_set, loaded_fingerprints}
use sshush.VaultOps.Listing.{
  load_yes, load_no, IdentityView, views, list, list_infos, list_store, needs_path, agent_if_there,
}
use sshush.VaultOps.Prompt.{open_conn-listing}
use sshush.VaultOps.Connected.{Answers, backend_of_vault}

-- A row of the agent's list as the client's key; ssh's format name is `key_type` of the blob.
abbrev pub key_of : (Bytes → Bytes) → IdentityRow → PublicKey
key_of key_type row = record { key_type = key_type row.public_key; blob = row.public_key }

abbrev pub rows_sent :
    (Bytes → Bytes)
    → VaultAgent × Cipher.Result (List IdentityRow)
    → Option VaultAgent × Option (List PublicKey)
rows_sent key_type (a, Cipher.ok rows) = (some a, some (map (key_of key_type) rows))
rows_sent key_type (a, Cipher.err e) = (some a, none)

-- The stored public keys parse, and the fingerprints are theirs.
unfoldable pub AreGenuine :
    (Bytes → Option PublicKey) → (PublicKey → Bytes) → List Identity → Type 0
AreGenuine parse fingerprint [] = Unit
AreGenuine parse fingerprint (i ∷ is) =
    ((k : PublicKey) × (parse i.public_key ≡ some k) × (fingerprint k ≡ i.fingerprint))
    × AreGenuine parse fingerprint is

-- Each identity, loaded where `p` holds of its fingerprint.
unfoldable pub views_by : (Bytes → Bool) → List IdentityInfo → List IdentityView
views_by p [] = []
views_by p (i ∷ is) =
    record { info = i; loaded = if p i.fingerprint then load_yes else load_no } ∷ views_by p is

abbrev seen : KeySet → KeySet → Option Identity → Bool
seen session hidden none = false
seen session hidden (some i) = is_served session hidden i

-- Whether the agent serves an identity with this fingerprint: an autoload identity that the session
-- does not hide, or another one that the session has.
unfoldable pub is_loaded : VaultAgent → Bytes → Bool
is_loaded a fp = seen a.session_autoload0 a.session_unloaded (find_identity fp a.store.identities)

module _ {S : Type 0} (site : Site S) (parse : Bytes → Option PublicKey)
    (key_type : Bytes → Bytes) where
  contains-fingerprint_set :
      (session hidden : KeySet) (fp : Bytes) (ids : List Identity)
      → Distinct ids
      → AreGenuine parse site.external.fingerprint_sha256 ids
      → contains fp (
          fingerprint_set site parse
            (map (key_of key_type) (list_identities_for_agent session hidden ids)))
        ≡ seen session hidden (find_identity fp ids)
  unfolding contains fingerprint_set list_identities_for_agent find_identity AreGenuine insert
  contains-fingerprint_set session hidden fp [] d g = refl
  contains-fingerprint_set session hidden fp (i ∷ is) d ((k, parses, same), g) =
      elim (Bool-cases (is_served session hidden i)) [
        | inl listed ↦
            rw (is_listed-eq-served session hidden i, listed, parses)
              (ground (arith, contains-fingerprint_set session hidden fp is d.1 g))
        | inr unlisted ↦
            rw (is_listed-eq-served session hidden i, unlisted)
              (ground (
                arith,
                contains-fingerprint_set session hidden fp is d.1 g,
                bytes_eq_iff i.fingerprint fp,
              ))
      ]

views-eq :
    (set : KeySet) (p : Bytes → Bool) (infos : List IdentityInfo)
    → ((fp : Bytes) → contains fp set ≡ p fp)
    → views (some set) infos ≡ views_by p infos
unfolding views views_by
views-eq set p [] h = refl
views-eq set p (i ∷ is) h = rw (h i.fingerprint, views-eq set p is h) refl

if_true : {A : Type 0} (b : Bool) (x y : A) → b ≡ true → (if b then x else y) ≡ x
if_true b x y h = rw h refl

list_keys-unexpired :
    (w : World) (a : VaultAgent) (key : Bytes)
    → a.master_key ≡ some key
    → expired_fingerprints w.now a.store.identities ≡ []
    → list_keys w a ≡ (a, Cipher.ok (listed_rows a))
unfolding list_keys purge_expired purge
list_keys-unexpired w a key held fresh = rw (held, fresh) refl

module _ (x : External) (w : World) (site : Site (Option VaultAgent))
    (env : Env (Option VaultAgent)) (parse : Bytes → Option PublicKey) (key_type : Bytes → Bytes)
    (a : VaultAgent) (key : Bytes) where
  -- The agent answers and is unlocked, nothing of its store has expired, the fingerprints are those
  -- of the keys and unique, and the file that is listed holds the identities of the agent's store.
  pub record IsServing (c : Conn) (store : VaultStore) : Type 0 where
    pub answers : Answers x w site env a
    pub lists : site.client.list (some a) ≡ rows_sent key_type (list_keys w a)
    pub held : a.master_key ≡ some key
    pub fresh : expired_fingerprints w.now a.store.identities ≡ []
    pub distinct : Distinct a.store.identities
    pub genuine : AreGenuine parse site.external.fingerprint_sha256 a.store.identities
    pub opens : open_file site env (codes "list") needs_path (some a) ≡ ok c
    pub with_store : c.store ≡ some store
    pub initialized : c.initialized ≡ true
    pub same : store.identities ≡ a.store.identities

  attach_agent-listing :
      (c : Conn)
      → Answers x w site env a
      → a.master_key ≡ some key
      → attach_agent site env agent_if_there c (some a)
        ≡ (some a, ok (with_session (backend_of_vault a) c))
  unfolding attach_agent Answers unlock_if_locked
  attach_agent-listing c (connected, path, dials) held =
      rw (path, dials, backend-connected x w site.client a connected) asked
    where
      asked :
          unlock_if_locked site env (with_session (backend_of_vault a) c) (some a)
          ≡ (some a, ok (with_session (backend_of_vault a) c))
      asked = elim (Option-cases env.ask_passphrase) [
        | inl no_prompt ↦ rw no_prompt refl
        | inr (ask, prompts) ↦ elim (Bool-cases (serves_this_vault site env c)) [
          | inl serves ↦ rw (prompts, held, serves) refl
          | inr other ↦ rw (prompts, held, other) refl
        ]
      ]

  contains-loaded :
      a.master_key ≡ some key
      → Distinct a.store.identities
      → AreGenuine parse site.external.fingerprint_sha256 a.store.identities
      → (fp : Bytes)
      → contains fp (fingerprint_set site parse (map (key_of key_type) (listed_rows a)))
        ≡ is_loaded a fp
  unfolding listed_rows is_loaded
  contains-loaded held d g fp = rw held (
      contains-fingerprint_set site parse key_type a.session_autoload0 a.session_unloaded fp
        a.store.identities d g)

  loaded_fingerprints-listing :
      (c : Conn) (store : VaultStore)
      → IsServing c store
      → loaded_fingerprints site parse (with_session (backend_of_vault a) c) (some a)
        ≡ (some a, some (fingerprint_set site parse (map (key_of key_type) (listed_rows a))))
  unfolding loaded_fingerprints
  loaded_fingerprints-listing c store h =
      rw (h.lists, list_keys-unexpired w a key h.held h.fresh) refl

  list_infos-visible :
      (c : Conn) (store : VaultStore)
      → IsServing c store
      → (infos : List IdentityInfo)
      → (list_infos site parse env c infos (some a)).1.0.identities ≡ views_by (is_loaded a) infos
  unfolding views_by
  list_infos-visible c store h [] = refl
  list_infos-visible c store h (i ∷ is) =
      rw (attach_agent-listing c h.answers h.held, loaded_fingerprints-listing c store h)
        (views-eq _ (is_loaded a) (i ∷ is) (contains-loaded h.held h.distinct h.genuine))

  list_store-initialized :
      (c : Conn) (store : VaultStore) (o : Option VaultStore) (s : Option VaultAgent)
      → o ≡ some store
      → c.initialized ≡ true
      → list_store site parse env c o s
        ≡ list_infos site parse env c (list_identities parse store) s
  list_store-initialized c store o s e i = rw e (if_true c.initialized _ _ i)

  -- Where the agent of the vault answers and is unlocked, nothing of its store has expired, its
  -- fingerprints are unique and those of its keys, and the vault file can be read and has the
  -- identities of the agent's store: the identities that List of vaultops shows are those of the file,
  -- and one is shown as loaded just where it is an autoload identity that the session does not hide,
  -- or another one that the session has.
  pub list-visible :
      (c : Conn) (store : VaultStore)
      → IsServing c store
      → (list site parse env (some a)).1.0.identities
        ≡ views_by (is_loaded a) (list_identities parse store)
  unfolding list
  list-visible c store h =
      rw
        (
          open_conn-listing site env c (some a) h.opens,
          list_store-initialized c store c.store (some a) h.with_store h.initialized,
        )
        (list_infos-visible c store h (list_identities parse store))
