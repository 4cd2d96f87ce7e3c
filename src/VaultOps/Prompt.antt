-- ===== src/VaultOps/Prompt.antt =====
-- internal/vaultops/conn.go and list.go: when the user is asked for a passphrase, and when the agent
-- is left alone.
use sshush.Prelude.{
  ◌≡◌, refl, sym, ◌∙◌, ◌∷◌, Bool, true, false, Option, none, some, [], Bytes, codes, is_empty,
  bytes_eq, bytes_eq_iff, arith, Bool-cases, Option-cases, inl, inr, if◌then◌else◌, ◌&&◌, ◌||◌, not,
  ◌≢◌,
}
use sshush.Prelude.Outcome.{ok, err, panic, Outcome-cases}
use sshush.External.{PublicKey}
use sshush.Op
use sshush.VaultOps.Errors.{Failure}
use sshush.Session
use sshush.Session.{Backend}
use sshush.Vault.Types.{VaultStore}
use sshush.Vault.Resolve.{list_identities, identity_infos}
use sshush.Vault.Store.{OpenResult, opened, open_failed}
use sshush.VaultOps.Conn.{
  Site, Env, Need, Conn, Result, open_file, resolve_vault_path, open_at, with_store, without_store,
  check_initialized,
}
use sshush.VaultOps.Attach.{
  open_conn, attach_agent, unlock_if_locked, with_session, serves_this_vault, gated, maybe_unlock,
}
use sshush.VaultOps.Listing.{list, list_store, bare_list, needs_path}

-- A front end that cannot ask.
abbrev pub without_prompt : {S : Type 0} → Env S → Env S
without_prompt env = record env { ask_passphrase = none }

if_both : {A : Type 0} (b : Bool) (x : A) → (if b then x else x) ≡ x
if_both true x = refl
if_both false x = refl

ok-ne-err : {A : Type 0} {e : Failure} {a : A} → err e ≢ ok a
ok-ne-err h = cc

serves-other :
    (mine agents : Bytes)
    → mine ≢ agents
    → not (is_empty agents || is_empty mine || not (bytes_eq mine agents)) ≡ false
serves-other mine agents different = ground (arith, bytes_eq_iff mine agents)

module _ {S : Type 0} (site : Site S) (env : Env S) where
  -- Opening for a listing leaves the agent for later.
  pub open_conn-listing :
      (c : Conn) (s : S)
      → open_file site env (codes "list") needs_path s ≡ ok c
      → open_conn site env (codes "list") needs_path s ≡ (s, ok c)
  unfolding open_conn attach_agent
  open_conn-listing c s opens = rw opens refl

module _ {S : Type 0} (site : Site S) (env : Env S) where
  unlock_if_locked-other :
      (c : Conn) (s : S)
      → serves_this_vault site env c ≡ false
      → unlock_if_locked site env c s ≡ (s, ok c)
  unfolding unlock_if_locked
  unlock_if_locked-other c s other = elim (Option-cases env.ask_passphrase) [
    | inl no_prompt ↦ rw no_prompt refl
    | inr (ask, prompts) ↦ rw (prompts, other) refl
  ]

  maybe_unlock-other :
      (n : Need) (c : Conn) (s : S)
      → serves_this_vault site env c ≡ false
      → maybe_unlock site env n c s ≡ maybe_unlock site (without_prompt env) n c s
  unfolding unlock_if_locked
  maybe_unlock-other n c s other = rw (unlock_if_locked-other c s other) refl

  gated-other :
      (n : Need) (c : Conn) (r : S × Op.Op Backend)
      → serves_this_vault site env c ≡ false
      → gated site env n c r ≡ gated site (without_prompt env) n c r
  gated-other n c (s, ok b) other = rw (maybe_unlock-other n (with_session b c) s other) refl
  gated-other n c (s, err e) other =
      rw (maybe_unlock-other n (with_session c.backend c) s other) refl
  gated-other n c (s, panic) other = refl

  attach_agent-other :
      (n : Need) (c : Conn) (s : S)
      → serves_this_vault site env c ≡ false
      → attach_agent site env n c s ≡ attach_agent site (without_prompt env) n c s
  unfolding attach_agent
  attach_agent-other n c s other = rw (gated-other n c (Session.backend site.client s) other) refl

  check_initialized-eq-ok :
      (n : Need) (r : Result Conn) {c : Conn} → check_initialized site n r ≡ ok c → r ≡ ok c
  check_initialized-eq-ok n (ok d) {c} h = elim (Bool-cases (n.need_store && not d.initialized)) [
    | inl missing ↦ absurd (ground arith)
    | inr fine ↦ ground arith
  ]
  check_initialized-eq-ok n (err e) h = cc
  check_initialized-eq-ok n panic h = cc

  vault_path-with_store :
      (verb path : Bytes) (r : OpenResult) {c : Conn}
      → with_store site verb path r ≡ ok c
      → c.vault_path ≡ path
  vault_path-with_store verb path (opened store) h = ground arith
  vault_path-with_store verb path (open_failed e) h = cc

  vault_path-store :
      (verb path : Bytes) (s : S) {c : Conn}
      → (if is_empty path
          then ok (without_store site verb)
          else with_store site verb path (site.open_vault path s))
        ≡ ok c
      → c.vault_path ≡ path
  vault_path-store verb [] s h = ground arith
  vault_path-store verb (p ∷ path) s {c} h =
      vault_path-with_store verb (p ∷ path) (site.open_vault (p ∷ path) s) {c = c} h

  vault_path-open_at :
      (verb : Bytes) (n : Need) (path : Bytes) (s : S) {c : Conn}
      → open_at site verb n path s ≡ ok c
      → c.vault_path ≡ path
  vault_path-open_at verb n path s {c} h =
      elim (Bool-cases ((n.need_vault_path || n.need_store) && is_empty path)) [
        | inl missing ↦ absurd (ok-ne-err (rw missing at h))
        | inr fine ↦
            vault_path-store verb path s {c = c}
              (check_initialized-eq-ok n _ {c = c} (rw fine at h))
      ]

  -- The passphrase of the agent is never asked for on behalf of another vault than the agent's:
  -- where the two paths differ, opening a connection does the same as where the front end cannot ask.
  pub open_conn-other_vault :
      (verb : Bytes) (n : Need) (s : S)
      → resolve_vault_path site env.vault_path ≢ resolve_vault_path site env.agent_vault_path
      → open_conn site env verb n s ≡ open_conn site (without_prompt env) verb n s
  unfolding open_conn open_file
  open_conn-other_vault verb n s different = elim (Outcome-cases (open_file site env verb n s)) [
    | inl (c, e) ↦
        rw e (attach_agent-other n c s (other_vault c (vault_path-open_at verb n _ s {c = c} e)))
    | inr (inl (f, e)) ↦ rw e refl
    | inr (inr e) ↦ rw e refl
  ]
    where
      other_vault :
          (c : Conn)
          → c.vault_path ≡ resolve_vault_path site env.vault_path
          → serves_this_vault site env c ≡ false
      other_vault c same =
          serves-other c.vault_path (resolve_vault_path site env.agent_vault_path)
            (λ e. different (sym same ∙ e))

  list_store-empty :
      (parse : Bytes → Option PublicKey) (c : Conn) (store : VaultStore) (o : Option VaultStore)
      (s : S)
      → o ≡ some store
      → store.identities ≡ []
      → list_store site parse env c o s ≡ (s, (bare_list c, ok tt))
  unfolding list_identities identity_infos
  list_store-empty parse c store o s e empty = rw (e, empty) (if_both c.initialized _)

  -- Listing a vault with no identities neither asks the agent nor the user.
  pub list-empty :
      (parse : Bytes → Option PublicKey) (c : Conn) (store : VaultStore) (s : S)
      → open_file site env (codes "list") needs_path s ≡ ok c
      → c.store ≡ some store
      → store.identities ≡ []
      → list site parse env s ≡ (s, (bare_list c, ok tt))
  unfolding list
  list-empty parse c store s opens with_file empty =
      rw (open_conn-listing site env c s opens)
        (list_store-empty parse c store c.store s with_file empty)
