-- ===== src/Examples/Front.antt =====
-- The vault operations of a front end, on the vault's agent.
use sshush.Prelude.{
  ℕ, ◌≡◌, refl, ap, sym, ◌∙◌, Bool, true, false, Option, none, some, List, [], ◌∷◌, Bytes, codes,
  arith, ◌≢◌, ◌⊎◌, inl, inr, bytes_eq,
}
use sshush.Prelude.Outcome.{ok}
use sshush.External.{PublicKey}
use sshush.Paths.{Host, no_entry}
use sshush.KeyFiles.{KeyReader, not_parsed}
use sshush.Session.{Client}
use sshush.Session.VaultClient.{IsConnected}
use sshush.Vault.Types.{VaultStore}
use sshush.Vault.Store.{opened}
use sshush.Vault.Resolve.{list_identities}
use sshush.Vault.State.{VaultAgent}
use sshush.Vault.Agent.{list_keys, expired_fingerprints}
use sshush.Vault.Lock
use sshush.VaultOps.Errors.{
  Failure, sentinel, wrapped, agent_vault_locked, describe, code_of, Sentinel, unknown, nil,
  is_error, as_op_error,
}
use sshush.VaultOps.Codes.{describe-keeps}
use sshush.VaultOps.Conn.{Site, Env, Conn, resolve_vault_path, open_file}
use sshush.VaultOps.Attach.{open_conn}
use sshush.VaultOps.Settings.{unlock_passphrase}
use sshush.VaultOps.Verbs.{needs_agent_unlocked}
use sshush.VaultOps.Listing.{list, needs_path}
use sshush.VaultOps.Connected.{Answers, IsReady, verdict_of, expected, verdict_of-unlock_passphrase}
use sshush.VaultOps.Prompt.{open_conn-other_vault, without_prompt}
use sshush.VaultOps.Shown.{is_loaded, rows_sent, views_by, list-visible, IsServing, AreGenuine}
use sshush.Examples.Toy.{toy, world, master, store, open_agent, locked_agent}
use sshush.Examples.Stores.{distinct}
use sshush.Examples.Clients.{connection}

abbrev pub machine : Host
machine = record {
  home_dir = some (codes "/h");
  working_dir = none;
  stat = λ path. no_entry;
  is_symlink = λ path. some false;
  eval_symlinks = λ path. some (codes "/real");
  absolute = λ path. some path;
  read_file = λ path. none;
  read_dir = λ path. [];
  walk_dir = λ path. [];
}

abbrev reader : KeyReader
reader = record { has_encrypted_header = λ pem. false; parse_raw_key = λ pem. not_parsed }

abbrev key_type : Bytes → Bytes
key_type blob = codes "ssh-ed25519"

abbrev listed : Option VaultAgent → Option VaultAgent × Option (List PublicKey)
listed none = (none, none)
listed (some a) = rows_sent key_type (list_keys world a)

abbrev client : Client (Option VaultAgent)
client = record connection { list = listed }

abbrev vault_on_disk : VaultStore
vault_on_disk = record store {
  metadata = some (record {
    salt = [];
    canary = [];
    recovery_salt = [];
    wrapped_master_key = [];
    created_at = [];
  });
}

abbrev site : Site (Option VaultAgent)
site = record {
  external = toy;
  reader = reader;
  host = machine;
  open_vault = λ path s. opened vault_on_disk;
  open_vault_text = λ path. [];
  dial = λ path s. true;
  dial_text = λ path. [];
  client = client;
  op_text = λ e. codes "failed";
  read_text = λ path. codes "no such file";
  parse_text = λ key. [];
}

abbrev env : Env (Option VaultAgent)
env = record {
  vault_path = codes "/v/a.json";
  socket_path = codes "/run/s";
  agent_vault_path = codes "/v/b.json";
  ask_passphrase = some (λ prompt s. (s, some (codes "pw")));
}

abbrev conn : Bytes → Conn
conn verb = record {
  verb = verb;
  vault_path = codes "/v/a.json";
  store = some vault_on_disk;
  initialized = true;
  session = false;
  backend = record { is_vault = false; vault_locked = false; speaks_ops = false };
}

client-IsConnected : IsConnected toy world client
unfolding IsConnected bytes_eq
client-IsConnected contents a = refl

answers : (a : VaultAgent) → Answers toy world site env a
unfolding Answers
answers a = (client-IsConnected, refl, refl)

opens :
    (verb : Bytes) (s : Option VaultAgent) → open_file site env verb needs_path s ≡ ok (conn verb)
unfolding open_file sshush.Prelude.Text.trim_space bytes_eq sshush.Vault.Store.get_metadata
opens verb s = refl

locked-IsReady : IsReady toy world site env (codes "unlock") locked_agent
unfolding IsReady open_file sshush.Prelude.Text.trim_space bytes_eq sshush.Vault.Store.get_metadata
locked-IsReady = (answers locked_agent, (conn (codes "unlock"), refl))

verdict_of-unlock_passphrase_example :
    verdict_of (unlock_passphrase site env (codes "x") (some locked_agent))
    ≡ expected (Lock.unlock toy (codes "x") locked_agent)
verdict_of-unlock_passphrase_example =
    verdict_of-unlock_passphrase toy world site env (codes "x") locked_agent locked-IsReady

abbrev parse : Bytes → Option PublicKey
parse blob = some (record { key_type = codes "ssh-ed25519"; blob = blob })

nothing_expired : expired_fingerprints world.now open_agent.store.identities ≡ []
unfolding expired_fingerprints sshush.Vault.Agent.is_expired
nothing_expired = refl

genuine : AreGenuine parse site.external.fingerprint_sha256 open_agent.store.identities
unfolding AreGenuine
genuine = ((_, refl, refl), ((_, refl, refl), tt))

serving :
    IsServing toy world site env parse key_type open_agent master
      (conn (codes "list"))
      vault_on_disk
serving = record {
  answers = answers open_agent;
  lists = refl;
  held = refl;
  fresh = nothing_expired;
  distinct = distinct;
  genuine = genuine;
  opens = opens (codes "list") (some open_agent);
  with_store = refl;
  initialized = refl;
  same = refl;
}

list-visible_example :
    (list site parse env (some open_agent)).1.0.identities
    ≡ views_by (is_loaded open_agent) (list_identities parse vault_on_disk)
list-visible_example =
    list-visible toy world site env parse key_type open_agent master (conn (codes "list"))
      vault_on_disk serving

abbrev failing : Failure
failing = wrapped (codes "add: ") (sentinel agent_vault_locked)

describe-keeps_example :
    ((t : Sentinel) → is_error t (describe failing (codes "add") (codes "/k")) ≡ is_error t failing)
    × (describe (describe failing (codes "add") (codes "/k")) (codes "list") []
        ≡ describe failing (codes "add") (codes "/k"))
    × ((code_of (describe failing (codes "add") (codes "/k")) ≢ unknown)
        ⊎ (failing ≡ nil)
        ⊎ ((a : Failure) × (as_op_error failing ≡ some a)))
describe-keeps_example = describe-keeps (codes "add") (codes "/k") (codes "list") [] failing

mine : resolve_vault_path site env.vault_path ≡ codes "/v/a.json"
unfolding resolve_vault_path sshush.Prelude.Text.trim_space bytes_eq
mine = refl

theirs : resolve_vault_path site env.agent_vault_path ≡ codes "/v/b.json"
unfolding resolve_vault_path sshush.Prelude.Text.trim_space bytes_eq
theirs = refl

true-ne-false : true ≢ false
true-ne-false h = cc

paths_differ : codes "/v/a.json" ≢ codes "/v/b.json"
unfolding bytes_eq
paths_differ h = true-ne-false (ap (λ p. bytes_eq p (codes "/v/a.json")) h)

other_vault : resolve_vault_path site env.vault_path ≢ resolve_vault_path site env.agent_vault_path
other_vault h = paths_differ (sym mine ∙ h ∙ theirs)

open_conn-other_vault_example :
    open_conn site env (codes "add") needs_agent_unlocked (some locked_agent)
    ≡ open_conn site (without_prompt env) (codes "add") needs_agent_unlocked (some locked_agent)
open_conn-other_vault_example =
    open_conn-other_vault site env (codes "add") needs_agent_unlocked (some locked_agent)
      other_vault
