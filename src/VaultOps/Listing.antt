-- ===== src/VaultOps/Listing.antt =====
-- internal/vaultops/list.go: the identities of the vault, and which of them the agent serves.
use sshush.Prelude.{
  Bool, true, false, Option, none, some, List, [], ◌∷◌, Bytes, codes, if◌then◌else◌,
}
use sshush.Prelude.KeySet.{KeySet, contains}
use sshush.Prelude.Outcome.{ok, err, panic}
use sshush.External.{PublicKey}
use sshush.Vault.Types.{VaultStore}
use sshush.Vault.Resolve.{IdentityInfo, list_identities}
use sshush.VaultOps.Conn.{Site, Env, Need, Conn, Result}
use sshush.VaultOps.Attach.{open_conn, attach_agent}
use sshush.VaultOps.Selectors.{loaded_fingerprints}
use sshush.VaultOps.Loop.{Report}

pub data LoadState : Type 0 where
  load_unknown load_no load_yes : LoadState

-- Its String.
unfoldable pub load_state_string : LoadState → Bytes
load_state_string load_unknown = codes "n/a"
load_state_string load_no = codes "no"
load_state_string load_yes = codes "yes"

pub record IdentityView : Type 0 where
  pub info : IdentityInfo
  pub loaded : LoadState

pub record ListResult : Type 0 where
  pub vault_path : Bytes
  pub initialized : Bool
  pub agent_reachable : Bool
  pub identities : List IdentityView

abbrev pub needs_path : Need
needs_path = record {
  need_vault_path = true;
  need_store = false;
  need_agent = false;
  agent_if_running = false;
  may_unlock = false;
}

abbrev pub agent_if_there : Need
agent_if_there = record {
  need_vault_path = false;
  need_store = false;
  need_agent = false;
  agent_if_running = true;
  may_unlock = true;
}

abbrev pub load_state : Option KeySet → Bytes → LoadState
load_state none fp = load_unknown
load_state (some loaded) fp = if contains fp loaded then load_yes else load_no

unfoldable pub views : Option KeySet → List IdentityInfo → List IdentityView
unfolding contains
views loaded [] = []
views loaded (i ∷ is) =
    record { info = i; loaded = load_state loaded i.fingerprint } ∷ views loaded is

abbrev pub reachable : Option KeySet → Bool
reachable none = false
reachable (some loaded) = true

abbrev pub no_list : ListResult
no_list = record { vault_path = []; initialized = false; agent_reachable = false; identities = [] }

abbrev pub bare_list : Conn → ListResult
bare_list c = record {
  vault_path = c.vault_path;
  initialized = c.initialized;
  agent_reachable = false;
  identities = [];
}

-- `parse` is ssh.ParsePublicKey. ListIdentities returns no error.
module _ {S : Type 0} (w : Site S) (parse : Bytes → Option PublicKey) where
  abbrev pub viewed : Conn → List IdentityInfo → S × Option KeySet → S × Report ListResult
  viewed c infos (s, loaded) = (
    s,
    (
      record {
        vault_path = c.vault_path;
        initialized = c.initialized;
        agent_reachable = reachable loaded;
        identities = views loaded infos;
      },
      ok tt,
    ),
  )

  abbrev pub with_agent : Conn → List IdentityInfo → S × Result Conn → S × Report ListResult
  with_agent c infos (s, ok attached) = viewed c infos (loaded_fingerprints w parse attached s)
  with_agent c infos (s, err e) = (s, (bare_list c, err e))
  with_agent c infos (s, panic) = (s, (bare_list c, panic))

  abbrev pub list_infos : Env S → Conn → List IdentityInfo → S → S × Report ListResult
  list_infos env c [] s = (s, (bare_list c, ok tt))
  list_infos env c (i ∷ is) s = with_agent c (i ∷ is) (attach_agent w env agent_if_there c s)

  abbrev pub list_store : Env S → Conn → Option VaultStore → S → S × Report ListResult
  list_store env c none s = (s, (bare_list c, ok tt))
  list_store env c (some store) s =
      let listed = list_infos env c (list_identities parse store) s in
      if c.initialized then listed else (s, (bare_list c, ok tt))

  abbrev pub list_opened : Env S → S × Result Conn → S × Report ListResult
  list_opened env (s, ok c) = list_store env c c.store s
  list_opened env (s, err e) = (s, (no_list, err e))
  list_opened env (s, panic) = (s, (no_list, panic))

  unfoldable pub list : Env S → S → S × Report ListResult
  unfolding open_conn attach_agent list_identities views loaded_fingerprints
  list env s = list_opened env (open_conn w env (codes "list") needs_path s)
