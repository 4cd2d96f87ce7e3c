-- ===== src/Examples/Agents.antt =====
-- The vault's agent, locked and unlocked.
use sshush.Prelude.{
  ℕ, ◌≡◌, ◌≢◌, ◌⊎◌, refl, Bool, true, false, not, Option, none, some, List, [], ◌∷◌, ◌++◌, Bytes,
  codes, bytes_eq, if◌then◌else◌, ◌&&◌,
}
use sshush.Prelude.KeySet.{contains}
use sshush.External.{PublicKey}
use sshush.Op.{encode_op_request, op_session_load, op_lock}
use sshush.Vault.Types.{Identity, VaultStore, absent}
use sshush.Vault.Store.{save, open_store, opened, find_identity, has_identity}
use sshush.Vault.Cipher.{Result, VaultError, ok, err, locked, agent_locked}
use sshush.Vault.State.{World, VaultAgent, new_vault_agent}
use sshush.Vault.Agent.{
  AddedKey, listed_rows, list_keys, add_key_with_autoload, remove, remove_all, new_identity,
}
use sshush.Vault.Lock.{lock}
use sshush.Vault.Sign.{sign, sign_with_flags, signer_for_key}
use sshush.Vault.Session.{
  session_load, session_unload, set_identity_autoload, set_identity_comment, stored,
}
use sshush.Vault.Calls.{Call, list_call, lock_call, remove_call, op_call, run}
use sshush.Vault.Invariant.{IsValid}
use sshush.Vault.Invariant.Calls.{run-IsValid}
use sshush.Vault.Locked.{NoUnlock, locked_answers, run-locked}
use sshush.Vault.Expiry.{is_over}
use sshush.Vault.Served.{is_served, rows_of, list_keys-served}
use sshush.Vault.Visible.{is_visible, is_visible-session_unload, is_visible-session_load}
use sshush.Vault.Visible.Adding.{is_visible-add_key, is_visible-restart}
use sshush.Vault.Signing.{signer_for_key-session_unload, signer_for_key-add}
use sshush.External.{ed25519}
use sshush.Examples.Toy.{
  toy, toy_crypto, toy_keys, all_well, world, nonce, master, seed, key, public, identity, work,
  home, store, locked_agent, open_agent, added,
}
use sshush.Examples.Stores.{distinct}
use sshush.Examples.Secrets.{made}

nothing : (fp : Bytes) → contains fp [] ≡ true → has_identity fp store.identities ≡ true
unfolding contains
nothing fp h = cc

valid : IsValid open_agent
valid = record { distinct = distinct; loaded = nothing; unloaded = nothing }

abbrev calls : List (World × Call)
calls =
    (world, op_call (encode_op_request op_session_load (codes "SHA256:home")))
    ∷ (world, remove_call public)
    ∷ (world, list_call)
    ∷ (world, lock_call [])
    ∷ []

abbrev after_calls : VaultAgent
after_calls = record locked_agent {
  store = (save all_well (record store { identities = home ∷ [] })).0;
  session_autoload0 = codes "SHA256:home" ∷ [];
}

runs : run toy calls open_agent ≡ some after_calls
unfolding run sshush.Vault.Calls.perform sshush.Vault.Serve.handle_op sshush.Op.decode_op_request
    encode_op_request sshush.Prelude.Outcome.slice sshush.Vault.Serve.dispatch
    sshush.Vault.Serve.with_fingerprint sshush.Prelude.Text.trim_space sshush.Vault.Serve.reply lock
    list_keys sshush.Vault.Agent.purge_expired remove session_load find_identity bytes_eq
    sshush.Vault.Store.remove_identity sshush.Vault.Store.without sshush.Vault.Store.has_identity
    sshush.Vault.Agent.forget_identity sshush.Prelude.KeySet.delete
    sshush.Vault.Agent.expired_fingerprints sshush.Vault.Agent.is_expired sshush.Vault.Agent.purge
    sshush.Prelude.KeySet.insert sshush.Vault.State.save_then save sshush.Vault.Keys.fingerprint
runs = refl

run-IsValid_example : IsValid after_calls
run-IsValid_example = run-IsValid toy calls open_agent {b = after_calls} valid runs

runs_locked : run toy calls locked_agent ≡ some locked_agent
unfolding run sshush.Vault.Calls.perform sshush.Vault.Serve.handle_op sshush.Op.decode_op_request
    encode_op_request sshush.Prelude.Outcome.slice sshush.Vault.Serve.dispatch
    sshush.Vault.Serve.with_fingerprint sshush.Prelude.Text.trim_space sshush.Vault.Serve.reply lock
    list_keys sshush.Vault.Agent.purge_expired remove session_load
runs_locked = refl

no_unlock : NoUnlock calls
unfolding sshush.Op.decode_op_request encode_op_request sshush.Prelude.Outcome.slice
no_unlock = (refl, (refl, (refl, (refl, tt))))

run-locked_example : locked_agent ≡ locked_agent
run-locked_example = run-locked toy calls locked_agent {b = locked_agent} refl no_unlock runs_locked

locked_answers_example :
    (list_keys world locked_agent ≡ (locked_agent, ok []))
    × ((k : PublicKey) (message : Bytes)
        → sign toy world k message locked_agent ≡ (locked_agent, err locked))
    × ((k : PublicKey) (message : Bytes) (flags : ℕ)
        → sign_with_flags toy world k message flags locked_agent ≡ (locked_agent, err locked))
    × ((k : AddedKey) (autoload : Bool) (filepath : Bytes)
        → (e : VaultError) × (add_key_with_autoload toy world k autoload filepath locked_agent
            ≡ (locked_agent, err e)))
    × ((k : PublicKey) → remove toy world k locked_agent ≡ (locked_agent, err locked))
    × (remove_all world locked_agent ≡ (locked_agent, err locked))
    × ((passphrase : Bytes) → lock passphrase locked_agent ≡ (locked_agent, err agent_locked))
    × ((fp : Bytes) → session_load fp locked_agent ≡ (locked_agent, err locked))
    × ((fp : Bytes) → session_unload fp locked_agent ≡ (locked_agent, err locked))
    × ((fp : Bytes) (on : Bool)
        → set_identity_autoload world fp on locked_agent ≡ (locked_agent, err locked))
    × ((fp comment : Bytes)
        → set_identity_comment world fp comment locked_agent ≡ (locked_agent, err locked))
locked_answers_example = locked_answers toy world locked_agent refl

list_keys-served_example :
    (list_keys world open_agent).1
    ≡ ok (
        rows_of
          (λ i.
            not (is_over world.now i)
            && is_served open_agent.session_autoload0 open_agent.session_unloaded i)
          (work ∷ home ∷ []))
list_keys-served_example = list_keys-served world open_agent master refl distinct (λ step. refl)

unloads : (session_unload seed open_agent).1 ≡ ok tt
unfolding session_unload find_identity bytes_eq
unloads = refl

is_visible-session_unload_example :
    is_visible (session_unload seed open_agent).0 seed
    ≡ (if bytes_eq seed seed then false else is_visible open_agent seed)
is_visible-session_unload_example = is_visible-session_unload open_agent seed seed unloads

loads : (session_load (codes "SHA256:home") open_agent).1 ≡ ok tt
unfolding session_load find_identity bytes_eq
loads = refl

is_visible-session_load_example :
    is_visible (session_load (codes "SHA256:home") open_agent).0 (codes "SHA256:home") ≡ (
      if bytes_eq (codes "SHA256:home") (codes "SHA256:home")
      then true
      else is_visible open_agent (codes "SHA256:home"))
is_visible-session_load_example =
    is_visible-session_load open_agent (codes "SHA256:home") (codes "SHA256:home") loads

-- A session in which the work key is hidden.
abbrev hiding_agent : VaultAgent
hiding_agent = record open_agent { session_unloaded = seed ∷ [] }

abbrev added_identity : Identity
added_identity = record (identity seed (codes "new") true none) { added_at = [] }

makes : new_identity toy world added true [] hiding_agent ≡ ok added_identity
unfolding new_identity sshush.Vault.Keys.marshal_private_key sshush.Vault.Cipher.encrypt_blob
    sshush.Vault.Keys.fingerprint
makes = refl

adds : (add_key_with_autoload toy world added true [] hiding_agent).1 ≡ ok tt
unfolding add_key_with_autoload new_identity sshush.Vault.Keys.marshal_private_key
    sshush.Vault.Cipher.encrypt_blob sshush.Vault.Agent.store_identity sshush.Vault.State.save_then
    save
adds = refl

is_visible-add_key_example :
    is_visible (add_key_with_autoload toy world added true [] hiding_agent).0 seed ≡ (
      if bytes_eq seed seed
      then (if true then not (contains seed (seed ∷ [])) else true)
      else is_visible hiding_agent seed)
is_visible-add_key_example =
    is_visible-add_key toy world added true [] hiding_agent {i = added_identity} seed makes adds

saves : (save all_well store).1 ≡ none
unfolding save
saves = refl

abbrev reopened : VaultStore
reopened = record store { path_file = (save all_well store).0.path_file; tmp_file = absent }

opens :
    open_store all_well (save all_well store).0.path_file (save all_well store).0.tmp_file
    ≡ opened reopened
unfolding open_store save sshush.Vault.Store.json_identities
opens = refl

is_visible-restart_example :
    is_visible (record (new_vault_agent reopened) { master_key = some master }) seed
    ≡ (elim (find_identity seed store.identities) [ none ↦ false | some i ↦ i.autoload ])
is_visible-restart_example =
    is_visible-restart all_well all_well store master seed {t = reopened} saves opens

finds : stored seed open_agent ≡ ok work
unfolding find_identity bytes_eq
finds = refl

signer_for_key-session_unload_example :
    (is_visible (session_unload seed open_agent).0 seed ≡ false)
    × (signer_for_key toy public (session_unload seed open_agent).0
        ≡ signer_for_key toy public open_agent)
unfolding sshush.Vault.Keys.fingerprint
signer_for_key-session_unload_example =
    signer_for_key-session_unload toy public open_agent {i = work} finds refl

signer_for_key-add_example :
    ((add_key_with_autoload toy world added true [] open_agent).1 ≡ ok tt)
    × (signer_for_key toy public (add_key_with_autoload toy world added true [] open_agent).0
        ≡ ok (ed25519 key))
signer_for_key-add_example =
    signer_for_key-add toy world open_agent added true [] nonce master key public toy_crypto
      toy_keys refl made refl refl (λ step. refl) refl refl refl refl
