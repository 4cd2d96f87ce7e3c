-- ===== src/Examples/Services.antt =====
-- The paths, the files, the server's log, the configuration and the readiness pipe.
use sshush.Prelude.{
  ℕ, ◌≡◌, ◌≢◌, refl, ◌↔◌, true, false, Option, none, some, List, [], ◌∷◌, Bytes, codes, get_elem?,
  bytes_eq, ◌||◌,
}
use sshush.Prelude.Outcome.{ok}
use sshush.External.{PublicKey, ed25519}
use sshush.Prelude.Text.{trim_space}
use sshush.Prelude.FilePath.{clean, has_prefix}
use sshush.Paths.{Host, KeyPath, expand_home_directory, contract_home_directory}
use sshush.Paths.Home.{expand-contract_home_directory}
use sshush.Paths.Discovery.{discover_key_paths}
use sshush.Paths.Distinct.{discover_key_paths-distinct}
use sshush.KeyFiles.{KeyReader, raw_key, AddKey, load_keys, resolve_filepath, parse_key_from_path}
use sshush.KeyFiles.Registry.{HasKey, AreNamed, resolve_filepath-load_keys}
use sshush.Server.Closing
use sshush.Server.Closing.{
  Event, connected, attempted, closed, closing_remotes, closed_remotes, fresh_log,
  closing_remotes-run,
}
use sshush.Server.SignedIn.{IsSignedIn, any_accepted, IsSignedIn-run}
use sshush.Server.ConnLog.{LogServer}
use sshush.Theme.{Rgba, hex_to_rgba}
use sshush.Theme.Colours.{Spells, hex_to_rgba_iff}
use sshush.Config.{pos, Config, to_document, document_to_config}
use sshush.Config.Document.{IsComplete, document_to_config-to_document}
use sshush.ReadyPipe.{wait}
use sshush.ReadyPipe.Signals
use sshush.ReadyPipe.Signals.{Act, signals_failure, signals_ready, dies, started, outcome, wait-run}
use sshush.Examples.Toy.{toy, key, public, seed}
use sshush.Examples.Front.{machine}

discover_key_paths-distinct_example :
    (ps : List KeyPath) × (discover_key_paths toy machine (codes "/d" ∷ []) true true false
      ≡ some ps)
    × ((i j : ℕ) (k l : KeyPath)
        → get_elem? ps i ≡ some k
        → get_elem? ps j ≡ some l
        → k.real_path ≡ l.real_path
        → i ≡ j)
discover_key_paths-distinct_example =
    discover_key_paths-distinct toy machine (codes "/d" ∷ []) true true false

-- A key in every file.
abbrev full_machine : Host
full_machine = record machine { read_file = λ path. some (codes "pem") }

abbrev reads : KeyReader
reads = record { has_encrypted_header = λ pem. false; parse_raw_key = λ pem. raw_key (ed25519 key) }

abbrev keep : AddKey (List Bytes)
keep k comment s = (comment ∷ s, true)

file_holds_key : HasKey toy reads full_machine seed (codes "/k/id")
unfolding HasKey parse_key_from_path sshush.Openssh.parse_private_key_blob
file_holds_key =
    (record { public_key = public; comment = codes "id"; private_key = ed25519 key }, refl, refl)

named : AreNamed (codes "/j/id" ∷ codes "/k/id" ∷ [])
unfolding AreNamed
named = (refl, (refl, tt))

resolve_filepath-load_keys_example :
    HasKey toy reads full_machine seed
      (resolve_filepath toy reads full_machine seed []
        (load_keys toy reads full_machine keep (codes "/j/id" ∷ codes "/k/id" ∷ []) ([], [])).0.1).1
resolve_filepath-load_keys_example =
    resolve_filepath-load_keys toy reads full_machine keep seed (codes "/j/id" ∷ []) [] []
      (codes "/k/id") [] named file_holds_key

abbrev parse_line : Bytes → Option PublicKey
parse_line line = some (record { key_type = codes "ssh-ed25519"; blob = line })

abbrev two_lines : Bytes
two_lines = codes "# no\nA B\n"

abbrev visit : List Event
visit =
    connected (codes "c:1") (codes "s:22") 0
    ∷ attempted 0 (codes "u") (codes "publickey") none
    ∷ closed 0 5
    ∷ closed 0 6
    ∷ []

closing_remotes-run_example :
    closing_remotes (Closing.run (λ k. k.blob) visit (fresh_log true)).entries
    ≡ closed_remotes visit [] []
closing_remotes-run_example = closing_remotes-run (λ k. k.blob) true visit

abbrev one_conn : LogServer
one_conn =
    Closing.run (λ k. k.blob) (connected (codes "c:1") (codes "s:22") 0 ∷ []) (fresh_log true)

not_yet : IsSignedIn 0 false one_conn
unfolding IsSignedIn Closing.run
not_yet = (_, refl, refl)

IsSignedIn-run_example :
    IsSignedIn 0
      (any_accepted 0 (attempted 0 (codes "u") (codes "publickey") none ∷ []) || false)
      (Closing.run (λ k. k.blob) (attempted 0 (codes "u") (codes "publickey") none ∷ []) one_conn)
IsSignedIn-run_example =
    IsSignedIn-run (λ k. k.blob) 0 (attempted 0 (codes "u") (codes "publickey") none ∷ []) false
      one_conn not_yet

abbrev violet : Rgba
violet = record { red = 10; green = 243; blue = 156; alpha = 255 }

hex_to_rgba_iff_example :
    (hex_to_rgba (codes "#0aF39c") ≡ some violet) ↔ Spells (codes "#0aF39c") violet
hex_to_rgba_iff_example = hex_to_rgba_iff (codes "#0aF39c") violet

abbrev settings : Config
settings = record {
  key_paths = none;
  socket_path = codes "/run/s";
  agent_type = codes "vault";
  vault_path = codes "/v.json";
  theme = record {
    name = codes "nord";
    text = [];
    focus = [];
    accent = [];
    error = [];
    warning = [];
    no_color = false;
  };
  server_listen_port = pos 2222;
  server_authorized_keys = [];
  server_host_key = [];
  server_shell = [];
  server_password_auth = true;
  server_log_file = [];
  server_log_level = [];
}

complete : IsComplete settings
unfolding IsComplete bytes_eq
complete = (refl, refl, refl)

document_to_config-to_document_example :
    document_to_config (to_document settings) ≡ ok (record settings { key_paths = some [] })
document_to_config-to_document_example = document_to_config-to_document settings complete

wait-run_example :
    wait true (Signals.run (signals_failure (codes "no key") ∷ signals_ready ∷ []) started)
    ≡ outcome (signals_failure (codes "no key") ∷ signals_ready ∷ [])
wait-run_example = wait-run (signals_failure (codes "no key") ∷ signals_ready ∷ [])

abbrev in_home : Bytes
in_home = codes "/h/k"

clean_path : clean in_home ≡ in_home
unfolding clean bytes_eq
clean_path = refl

not_home_itself : in_home ≢ codes "/h/"
not_home_itself h = cc

shown_untrimmed :
    trim_space (contract_home_directory machine in_home) ≡ contract_home_directory machine in_home
unfolding trim_space contract_home_directory bytes_eq
shown_untrimmed = refl

no_tilde : has_prefix in_home (codes "~") ≡ false
unfolding has_prefix
no_tilde = refl

expand-contract_home_directory_example :
    expand_home_directory machine (contract_home_directory machine in_home) ≡ in_home
expand-contract_home_directory_example =
    expand-contract_home_directory machine (codes "/h") in_home refl refl clean_path not_home_itself
      shown_untrimmed no_tilde
