-- ===== src/Config.antt =====
-- internal/config/config.go: the sections of the configuration file and the flat Config that the
-- program works with. Decoding and encoding TOML is a library's.
pub mod Document
use sshush.Prelude.{
  ℕ, zero, suc, Bool, true, false, not, ◌&&◌, ◌||◌, Option, none, some, List, [], ◌∷◌, map, Bytes,
  codes, bytes_eq, is_empty, if◌then◌else◌,
}
use sshush.Prelude.Outcome.{Outcome, ok, err, require, ◌>>=◌, ◌>>◌, panic}
use sshush.Prelude.FilePath.{is_abs, clean, join_path, dir}
use sshush.Paths.{Host, expand_home_directory, with_default}
use sshush.Theme.{Theme, resolve_theme, merge_with_default, default_theme}

-- An int64 of the file.
pub data ℤ : Type 0 where
  pos : ℕ → ℤ
  negsuc : ℕ → ℤ

abbrev pub is_zero : ℤ → Bool
is_zero (pos zero) = true
is_zero (pos (suc n)) = false
is_zero (negsuc n) = false

pub record ThemeSection : Type 0 where
  pub name : Bytes
  pub text : Bytes
  pub focus : Bytes
  pub accent : Bytes
  pub error : Bytes
  pub warning : Bytes
  pub no_color : Bool

abbrev pub agent_type_vault : Bytes
agent_type_vault = codes "vault"

abbrev pub agent_type_keys : Bytes
agent_type_keys = codes "keys"

abbrev pub agent_type_external : Bytes
agent_type_external = codes "external"

pub record ServerSection : Type 0 where
  pub listen_port : ℤ
  pub authorized_keys : Bytes
  pub host_key : Bytes
  pub shell : Bytes
  pub password_auth : Bool
  pub log_file : Bytes
  pub log_level : Bytes

-- A list that may be nil.
pub record AgentSection : Type 0 where
  pub socket_path : Bytes
  pub key_paths : Option (List Bytes)
  pub agent_type : Bytes

pub record ConfigDocument : Type 0 where
  pub agent : AgentSection
  pub vault_path : Bytes
  pub server : ServerSection
  pub theme : ThemeSection

pub record Config : Type 0 where
  pub key_paths : Option (List Bytes)
  pub socket_path : Bytes
  pub agent_type : Bytes
  pub vault_path : Bytes
  pub theme : ThemeSection
  pub server_listen_port : ℤ
  pub server_authorized_keys : Bytes
  pub server_host_key : Bytes
  pub server_shell : Bytes
  pub server_password_auth : Bool
  pub server_log_file : Bytes
  pub server_log_level : Bytes

unfoldable pub is_vault : Config → Bool
unfolding bytes_eq
is_vault c = bytes_eq c.agent_type agent_type_vault

unfoldable pub is_external : Config → Bool
is_external c = bytes_eq c.agent_type agent_type_external

abbrev pub no_server : ServerSection
no_server = record {
  listen_port = pos 0;
  authorized_keys = [];
  host_key = [];
  shell = [];
  password_auth = false;
  log_file = [];
  log_level = [];
}

-- Whether some setting of the server is not its zero value.
abbrev pub has_server : Config → Bool
has_server c =
    not (is_zero c.server_listen_port)
    || not (is_empty c.server_authorized_keys)
    || not (is_empty c.server_host_key)
    || not (is_empty c.server_shell)
    || c.server_password_auth
    || not (is_empty c.server_log_file)
    || not (is_empty c.server_log_level)

-- The section that toDocument writes of them.
abbrev pub server_section : Config → ServerSection
server_section c = record {
  listen_port = c.server_listen_port;
  authorized_keys = c.server_authorized_keys;
  host_key = c.server_host_key;
  shell = c.server_shell;
  password_auth = c.server_password_auth;
  log_file = c.server_log_file;
  log_level = c.server_log_level;
}

unfoldable pub to_document : Config → ConfigDocument
to_document c = record {
  agent = record {
    socket_path = c.socket_path;
    key_paths = some (with_default [] c.key_paths);
    agent_type = c.agent_type;
  };
  vault_path = if is_empty c.vault_path then [] else c.vault_path;
  server = if has_server c then server_section c else no_server;
  theme = c.theme;
}

pub data ConfigError : Type 0 where
  bad_type no_socket_path no_vault_path no_key_material : ConfigError

abbrev is_nil : Option (List Bytes) → Bool
is_nil none = true
is_nil (some ps) = false

-- The switch over the type, when it is one of the three.
unfoldable pub has_material : ConfigDocument → Outcome ConfigError (Unit {0})
has_material d =
    if bytes_eq d.agent.agent_type agent_type_vault
    then require (not (is_empty d.vault_path)) no_vault_path
    else if bytes_eq d.agent.agent_type agent_type_keys
    then require (not (is_nil d.agent.key_paths && is_empty d.vault_path)) no_key_material
    else ok tt

abbrev pub known_type : Bytes → Bool
known_type t =
    bytes_eq t agent_type_vault || bytes_eq t agent_type_keys || bytes_eq t agent_type_external

abbrev pub config_of : ConfigDocument → Config
config_of d = record {
  key_paths = d.agent.key_paths;
  socket_path = d.agent.socket_path;
  agent_type = d.agent.agent_type;
  vault_path = d.vault_path;
  theme = d.theme;
  server_listen_port = d.server.listen_port;
  server_authorized_keys = d.server.authorized_keys;
  server_host_key = d.server.host_key;
  server_shell = d.server.shell;
  server_password_auth = d.server.password_auth;
  server_log_file = d.server.log_file;
  server_log_level = d.server.log_level;
}

unfoldable pub document_to_config : ConfigDocument → Outcome ConfigError Config
unfolding has_material
document_to_config d =
    require (known_type d.agent.agent_type) bad_type
    >> require
        (not (is_empty d.agent.socket_path) || bytes_eq d.agent.agent_type agent_type_external)
        no_socket_path
    >> has_material d
    >> ok (config_of d)

-- A relative socket path is one in the directory of the configuration file.
abbrev anchored : Host → Bytes → Bytes → Bytes
anchored h path socket_path =
    if is_empty socket_path
    then socket_path
    else if is_abs socket_path
    then socket_path
    else clean (join_path (dir (with_default path (h.absolute path))) socket_path)

abbrev expand_all : Host → Option (List Bytes) → Option (List Bytes)
expand_all h none = none
expand_all h (some ps) = some (map (expand_home_directory h) ps)

-- LoadConfig of the file at `path`, from its decoded document on.
unfoldable pub expand_config : Host → Bytes → Config → Config
unfolding expand_home_directory is_abs clean join_path dir
expand_config h path c = record c {
  socket_path = anchored h path (expand_home_directory h c.socket_path);
  vault_path = expand_home_directory h c.vault_path;
  key_paths = expand_all h c.key_paths;
  server_authorized_keys = expand_home_directory h c.server_authorized_keys;
  server_host_key = expand_home_directory h c.server_host_key;
  server_shell = expand_home_directory h c.server_shell;
  server_log_file = expand_home_directory h c.server_log_file;
}

unfoldable pub load_config : Host → Bytes → ConfigDocument → Outcome ConfigError Config
unfolding document_to_config expand_config
load_config h path d = document_to_config d >>= λ c. ok (expand_config h path c)

unfoldable pub vault_path_for_agent : Config → Bytes
unfolding is_vault
vault_path_for_agent c = if not (is_vault c) || is_empty c.vault_path then [] else c.vault_path

unfoldable pub agent_backend_mode : Config → Bytes
unfolding is_vault
agent_backend_mode c = if is_vault c then agent_type_vault else agent_type_keys

abbrev pub custom_theme : ThemeSection → Theme
custom_theme s = record {
  text = s.text;
  focus = s.focus;
  accent = s.accent;
  error = s.error;
  warning = s.warning;
}

unfoldable pub resolve_theme_from_section : ThemeSection → Theme
unfolding resolve_theme merge_with_default
resolve_theme_from_section s =
    if not (is_empty s.name)
    then with_default default_theme (resolve_theme s.name)
    else merge_with_default (custom_theme s) default_theme
