-- ===== src/Server/Accept.antt =====
-- internal/server/server.go, hostkey.go and log.go: the two handlers of authentication, Close and the
-- start of serving, the host key and the log level.
use sshush.Prelude.{
  ℕ, Bool, true, false, not, ◌||◌, ◌⊎◌, inl, inr, Option, none, some, [], Bytes, codes, bytes_eq,
  is_empty, if◌then◌else◌,
}
use sshush.Prelude.Text.{trim_space}
use sshush.Prelude.Case.{to_lower}
use sshush.External.{PublicKey}
use sshush.PasswordGuard
use sshush.PasswordGuard.{
  PasswordGuard, Verdict, accepted, refused_locked_out, refused_client_left, wrong, address_host,
}
use sshush.Server.ConnLog.{LogServer, update_at, note_offered_key, note_password_check, with_conns}

-- publicKeyAuth, of the connection i; `authorized` is the answer of AuthKeys.
unfoldable pub public_key_auth : (PublicKey → Bool) → ℕ → PublicKey → LogServer → LogServer × Bool
unfolding update_at note_offered_key
public_key_auth authorized i key s =
    (with_conns (update_at i (note_offered_key key)) s, authorized key)

-- The texts refusedLockedOut and refusedClientLeft.
abbrev pub refusal_text : Verdict → Bytes
refusal_text accepted = []
refusal_text refused_locked_out = codes "address locked out"
refusal_text refused_client_left = codes "client left while waiting its turn"
refusal_text (wrong b) = []

abbrev locked_host : Bytes → Verdict → Bytes
locked_host host (wrong true) = host
locked_host host (wrong false) = []
locked_host host accepted = []
locked_host host refused_locked_out = []
locked_host host refused_client_left = []

abbrev pub is_accepted : Verdict → Bool
is_accepted accepted = true
is_accepted refused_locked_out = false
is_accepted refused_client_left = false
is_accepted (wrong b) = false

abbrev noted : ℕ → Bytes → LogServer → PasswordGuard × Verdict → (PasswordGuard × LogServer) × Bool
noted i host s (g, v) = (
  (g, with_conns (update_at i (note_password_check (refusal_text v) (locked_host host v))) s),
  is_accepted v,
)

-- The handler of passwordAuth, with the inputs of verify; `host` is the addressHost of the client.
unfoldable pub password_auth :
    (Bytes → Bool)
    → Bool
    → ℕ
    → ℕ
    → ℕ
    → Bytes
    → Bytes
    → PasswordGuard × LogServer
    → (PasswordGuard × LogServer) × Bool
unfolding update_at note_password_check PasswordGuard.verify
password_auth source slot checked_at failed_at i host password (g, s) =
    noted i host s (PasswordGuard.verify source slot checked_at failed_at host password g)

-- The fields of a Server that its mutex guards: whether a listener is served, and whether Close was
-- called.
pub record Lifecycle : Type 0 where
  pub serving : Bool
  pub closed : Bool

-- The locked part of ListenAndServe, with whether it goes on to serve.
unfoldable pub start_serving : Lifecycle → Lifecycle × Bool
start_serving l =
    if l.closed then (l, false) else (record { serving = true; closed = l.closed }, true)

-- Close, with whether the listener is closed.
unfoldable pub close_server : Lifecycle → Lifecycle × Bool
close_server l = (record { serving = l.serving; closed = true }, l.serving)

pub data HostKeyError : Type 0 where
  not_examined no_directory not_generated not_written not_usable : HostKeyError

-- How os.Stat and os.OpenFile with O_EXCL answer.
pub data Presence : Type 0 where
  present absent unknown : Presence

pub data Creation : Type 0 where
  created exists denied : Creation

abbrev checked : Bool → Bool ⊎ HostKeyError
checked true = inl false
checked false = inr not_usable

abbrev written : Bool → Bool ⊎ HostKeyError
written true = inl true
written false = inr not_written

abbrev create_key : Bool → Bool → Creation → Bool ⊎ HostKeyError
create_key usable writes created = written writes
create_key usable writes exists = checked usable
create_key usable writes denied = inr not_written

-- Whether a key was created. `usable` is checkHostKey on the file, `writes` whether the PEM could be
-- written.
unfoldable pub ensure_host_key :
    Presence → Bool → Bool → Bool → Creation → Bool → Bool ⊎ HostKeyError
ensure_host_key present usable mkdir generates creation writes = checked usable
ensure_host_key unknown usable mkdir generates creation writes = inr not_examined
ensure_host_key absent usable mkdir generates creation writes =
    if not mkdir
    then inr no_directory
    else if not generates
    then inr not_generated
    else create_key usable writes creation

-- slog's levels that a configuration can name.
pub data LogLevel : Type 0 where
  level_info level_debug : LogLevel

-- `none` is the error.
unfoldable pub parse_log_level : Bytes → Option LogLevel
unfolding to_lower trim_space
parse_log_level name =
    let level = to_lower (trim_space name) in
    if is_empty level || bytes_eq level (codes "info")
    then some level_info
    else if bytes_eq level (codes "debug")
    then some level_debug
    else none
