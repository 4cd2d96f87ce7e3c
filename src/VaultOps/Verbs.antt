-- ===== src/VaultOps/Verbs.antt =====
-- internal/vaultops/keys.go, lock.go and session.go: the verbs, each over one connection. Those that
-- take several paths or selectors stop at the first failure.
use sshush.Prelude.{Bool, true, false, Option, none, some, List, [], ◌++◌, Bytes, codes}
use sshush.Prelude.Outcome.{ok, err, panic}
use sshush.External.{PublicKey}
use sshush.Op
use sshush.Session
use sshush.Vault.Types.{Identity}
use sshush.VaultOps.Errors.{other, wrapped, op_error, vault_unreadable, describe, of_op}
use sshush.VaultOps.Conn.{Site, Env, Need, Conn, Result}
use sshush.VaultOps.Attach.{open_conn}
use sshush.VaultOps.Loop.{Report, until_failure}
use sshush.VaultOps.Selectors.{resolve_selector, agent_keys}

abbrev pub needs_agent : Need
needs_agent = record {
  need_vault_path = false;
  need_store = false;
  need_agent = true;
  agent_if_running = false;
  may_unlock = false;
}

abbrev pub needs_agent_unlocked : Need
needs_agent_unlocked = record {
  need_vault_path = false;
  need_store = false;
  need_agent = true;
  agent_if_running = false;
  may_unlock = true;
}

abbrev pub needs_store_and_agent : Need
needs_store_and_agent = record {
  need_vault_path = false;
  need_store = true;
  need_agent = true;
  agent_if_running = false;
  may_unlock = true;
}

-- AddResult and RemoveResult.
pub record KeysResult : Type 0 where
  pub changed : List Bytes
  pub before : List PublicKey
  pub after : List PublicKey

abbrev empty_keys : KeysResult
empty_keys = record { changed = []; before = []; after = [] }

module _ {S : Type 0} (w : Site S) where
  -- AddPrivateKeyFile wraps the error of the operation.
  abbrev added_result : Bytes → S × Op.Op (Unit {0}) → S × Result Bytes
  added_result path (s, ok u) = (s, ok path)
  added_result path (s, err e) = (
    s,
    err (
        describe (wrapped (codes "vault: add key to vault: ") (of_op w.op_text e)) (codes "add")
          path),
  )
  added_result path (s, panic) = (s, panic)

  abbrev add_read : Bytes → Bool → Option Bytes → S → S × Result Bytes
  add_read path autoload none s = (
    s,
    err (
        describe
          (wrapped (codes "vault: build add-key-opts payload: ") (
            wrapped (codes "vault: read key file " ++ path ++ codes ": ")
              (other (w.read_text path))))
          (codes "add") path),
  )
  add_read path autoload (some pem) s =
      added_result path (Session.add_private_key_file w.client pem path autoload s)

  unfoldable pub add_one : Bool → Bytes → S → S × Result Bytes
  unfolding describe of_op
  add_one autoload path s = add_read path autoload (w.host.read_file path) s

  -- The lists around a loop; the second one is taken only where nothing failed.
  abbrev list_after : Conn → List PublicKey → S × Report (List Bytes) → S × Report KeysResult
  list_after c before (s, (changed, ok u)) =
      let (t, after) = agent_keys w c s in
      (t, (record { changed = changed; before = before; after = after }, ok tt))
  list_after c before (s, (changed, err e)) =
      (s, (record { changed = changed; before = before; after = [] }, err e))
  list_after c before (s, (changed, panic)) =
      (s, (record { changed = changed; before = before; after = [] }, panic))

  abbrev with_lists : (Conn → S → S × Report (List Bytes)) → S × Result Conn → S × Report KeysResult
  with_lists loop (s, ok c) = let (t, before) = agent_keys w c s in list_after c before (loop c t)
  with_lists loop (s, err e) = (s, (empty_keys, err e))
  with_lists loop (s, panic) = (s, (empty_keys, panic))

  unfoldable pub add : Env S → List Bytes → Bool → S → S × Report KeysResult
  unfolding open_conn until_failure add_one agent_keys
  add env paths autoload s =
      with_lists (λ c. until_failure (add_one autoload) paths)
        (open_conn w env (codes "add") needs_agent_unlocked s)

  abbrev removed_result : Bytes → Bytes → S × Bool → S × Result Bytes
  removed_result selector fp (s, true) = (s, ok fp)
  removed_result selector fp (s, false) =
      (s, err (describe (other (w.op_text Op.extension_failure)) (codes "remove") selector))

  abbrev remove_key : Bytes → Identity → Option PublicKey → S → S × Result Bytes
  remove_key selector i none s = (
    s,
    err (
        op_error vault_unreadable (codes "parse stored public key: " ++ w.parse_text i.public_key)
          [] (other (w.parse_text i.public_key))),
  )
  remove_key selector i (some k) s = removed_result selector i.fingerprint (w.client.remove k s)

  abbrev remove_resolved :
      (Bytes → Option PublicKey) → Bytes → Result Identity → S → S × Result Bytes
  remove_resolved parse selector (ok i) s = remove_key selector i (parse i.public_key) s
  remove_resolved parse selector (err e) s = (s, err (describe e (codes "remove") selector))
  remove_resolved parse selector panic s = (s, panic)

  -- `parse` is ssh.ParsePublicKey.
  unfoldable pub remove_one : (Bytes → Option PublicKey) → Conn → Bytes → S → S × Result Bytes
  unfolding describe resolve_selector
  remove_one parse c selector s = remove_resolved parse selector (resolve_selector w c selector) s

  unfoldable pub remove :
      (Bytes → Option PublicKey) → Env S → List Bytes → S → S × Report KeysResult
  unfolding open_conn until_failure remove_one agent_keys
  remove parse env selectors s =
      with_lists (λ c. until_failure (remove_one parse c) selectors)
        (open_conn w env (codes "remove") needs_store_and_agent s)
