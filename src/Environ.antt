-- ===== src/Environ.antt =====
-- internal/server/environ.go: the environment of a session. The daemon's user (user.Current) and
-- net.SplitHostPort are inputs; an environment is a list of `key=value` entries.
pub mod Variables
use sshush.Prelude.{
  ℕ, Bool, true, false, ◌||◌, Option, none, some, List, [], ◌∷◌, ◌++◌, Bytes, codes, bytes_eq, ◌==◌,
  is_empty, if◌then◌else◌,
}

abbrev pub per_session_env_keys : List Bytes
per_session_env_keys =
    codes "SSH_CLIENT" ∷ codes "SSH_CONNECTION" ∷ codes "SSH_TTY" ∷ codes "TERM" ∷ []

-- `name, _, _ := strings.Cut(kv, "=")`
unfoldable pub cut_name : Bytes → Bytes
cut_name [] = []
cut_name (c ∷ kv) = let rest = cut_name kv in if c == 61 then [] else c ∷ rest

unfoldable pub has_env_key : Bytes → List Bytes → Bool
has_env_key kv [] = false
has_env_key kv (key ∷ keys) = bytes_eq (cut_name kv) key || has_env_key kv keys

-- Whether some entry sets the key, for the loop of appendIfUnset.
unfoldable pub is_set : Bytes → List Bytes → Bool
is_set key [] = false
is_set key (kv ∷ env) = has_env_key kv (key ∷ []) || is_set key env

abbrev pub entry : Bytes → Bytes → Bytes
entry key value = key ++ codes "=" ++ value

unfoldable pub append_if_unset : List Bytes → Bytes → Bytes → List Bytes
append_if_unset env key value =
    if is_set key env || is_empty value then env else env ++ entry key value ∷ []

-- The host and the port; `none` is a nil address.
unfoldable pub split_addr : (Bytes → Option (Bytes × Bytes)) → Option Bytes → Option (Bytes × Bytes)
split_addr split_host_port none = none
split_addr split_host_port (some addr) = split_host_port addr

-- The loop over the daemon's own environment.
unfoldable pub without_session_keys : List Bytes → List Bytes
without_session_keys [] = []
without_session_keys (kv ∷ base) =
    let rest = without_session_keys base in
    if has_env_key kv per_session_env_keys then rest else kv ∷ rest

-- A user's name and home directory.
unfoldable pub with_user : Option (Bytes × Bytes) → List Bytes → List Bytes
with_user none env = env
with_user (some (name, home)) env =
    append_if_unset
      (append_if_unset (append_if_unset env (codes "USER") name) (codes "LOGNAME") name)
      (codes "HOME") home

unfoldable pub connection_entries : Option (Bytes × Bytes) → Option (Bytes × Bytes) → List Bytes
connection_entries (some (client_host, client_port)) (some (server_host, server_port)) =
    entry (codes "SSH_CLIENT") (client_host ++ codes " " ++ client_port ++ codes " " ++ server_port)
    ∷ entry (codes "SSH_CONNECTION") (
        client_host
        ++ codes " "
        ++ client_port
        ++ codes " "
        ++ server_host
        ++ codes " "
        ++ server_port)
    ∷ []
connection_entries none server = []
connection_entries (some c) none = []

unfoldable pub session_env :
    (Bytes → Option (Bytes × Bytes))
    → Option (Bytes × Bytes)
    → List Bytes
    → Option Bytes
    → Option Bytes
    → Bytes
    → List Bytes
session_env split_host_port user base remote local shell =
    with_user user (without_session_keys base)
    ++ entry (codes "SHELL") shell ∷ []
    ++ connection_entries (split_addr split_host_port remote) (split_addr split_host_port local)
