-- ===== src/Server/ConnLog.antt =====
-- internal/server/connlog.go, what the log knows
-- about each connection, and the records that it is written. A connection is the number of its state in
-- `conns`; the mutexes make each callback one step. Times are in nanoseconds.
use sshush.Prelude.{
  ℕ, zero, suc, Bool, false, ◌||◌, Option, none, some, List, [], ◌∷◌, ◌++◌, Bytes, codes, bytes_eq,
  length, if◌then◌else◌,
}
use sshush.Prelude.FilePath.{has_prefix, has_suffix}
use sshush.External.{PublicKey}

pub data Level : Type 0 where
  debug info warn : Level

pub data LogValue : Type 0 where
  text : Bytes → LogValue
  flag : Bool → LogValue
  number : ℕ → LogValue
  duration : ℕ → LogValue

pub record LogEntry : Type 0 where
  pub level : Level
  pub message : Bytes
  pub attrs : List (Bytes × LogValue)

-- An error with its text, and whether it is ssh.ErrNoAuth, io.EOF, or a ssh.ServerAuthError.
pub record ConnError : Type 0 where
  pub error_text : Bytes
  pub is_no_auth : Bool
  pub is_eof : Bool
  pub is_server_auth_error : Bool

pub record ConnState : Type 0 where
  pub remote : Bytes
  pub local_addr : Bytes
  pub opened : ℕ
  pub closed_once : Bool
  pub user : Bytes
  pub authenticated : Bool
  pub offered_key : Option PublicKey
  pub refusal : Bytes
  pub locked_out : Bytes
  pub failure : Option ConnError

pub record LogServer : Type 0 where
  pub offers_passwords : Bool
  pub conns : List ConnState
  pub pending : List (Bytes × ℕ)
  -- the last record first
  pub entries : List LogEntry

unfoldable pub offered_methods : LogServer → Bytes
offered_methods s = if s.offers_passwords then codes "publickey,password" else codes "publickey"

-- strings.Contains
unfoldable pub contains_text : Bytes → Bytes → Bool
unfolding has_prefix
contains_text [] t = has_prefix [] t
contains_text (c ∷ s) t = has_prefix (c ∷ s) t || contains_text s t

unfoldable pub auth_failure_reason : ConnError → Bytes
unfolding has_suffix
auth_failure_reason e =
    if bytes_eq e.error_text (codes "permission denied") || e.is_no_auth
    then []
    else if has_suffix e.error_text (codes "auth not configured")
    then codes "method not offered"
    else e.error_text

abbrev reason_of : ConnError → Bytes
reason_of e =
    if e.is_eof
    then []
    else if contains_text e.error_text (codes "too many authentication failures")
    then codes "too many authentication failures"
    else if contains_text e.error_text (codes "too many authentication attempts")
    then codes "too many authentication attempts"
    else if e.is_server_auth_error
    then []
    else e.error_text

unfoldable pub handshake_failure_reason : Option ConnError → Bytes
unfolding contains_text
handshake_failure_reason none = []
handshake_failure_reason (some e) = reason_of e

unfoldable pub update_at : ℕ → (ConnState → ConnState) → List ConnState → List ConnState
update_at n f [] = []
update_at zero f (c ∷ cs) = f c ∷ cs
update_at (suc n) f (c ∷ cs) = c ∷ update_at n f cs

abbrev pub with_conns : (List ConnState → List ConnState) → LogServer → LogServer
with_conns f s = record s { conns = f s.conns }

abbrev pub log : LogEntry → LogServer → LogServer
log e s = record s { entries = e ∷ s.entries }

unfoldable pub forget_remote : Bytes → List (Bytes × ℕ) → List (Bytes × ℕ)
forget_remote remote [] = []
forget_remote remote ((r, i) ∷ rs) =
    let rest = forget_remote remote rs in if bytes_eq r remote then rest else (r, i) ∷ rest

unfoldable pub find_remote : Bytes → List (Bytes × ℕ) → Option ℕ
find_remote remote [] = none
find_remote remote ((r, i) ∷ rs) =
    let rest = find_remote remote rs in if bytes_eq r remote then some i else rest

abbrev new_state : Bytes → Bytes → ℕ → ConnState
new_state remote local_addr now = record {
  remote = remote;
  local_addr = local_addr;
  opened = now;
  closed_once = false;
  user = [];
  authenticated = false;
  offered_key = none;
  refusal = [];
  locked_out = [];
  failure = none;
}

-- The new connection has the number `length s.conns`.
unfoldable pub on_connect : Bytes → Bytes → ℕ → LogServer → LogServer
unfolding forget_remote
on_connect remote local_addr now s =
    log
      (record {
        level = info;
        message = codes "connection opened";
        attrs = (codes "remote", text remote) ∷ (codes "local", text local_addr) ∷ [];
      })
      (record s {
        conns = s.conns ++ new_state remote local_addr now ∷ [];
        pending = (remote, length s.conns) ∷ forget_remote remote s.pending;
      })

unfoldable pub note_offered_key : PublicKey → ConnState → ConnState
note_offered_key key c = record c { offered_key = some key }

unfoldable pub note_password_check : Bytes → Bytes → ConnState → ConnState
note_password_check refusal locked_out c = record c { refusal = refusal; locked_out = locked_out }

abbrev fail_conn : Option ℕ → ConnError → LogServer → LogServer
fail_conn none e s = s
fail_conn (some i) e s = with_conns (update_at i (λ c. record c { failure = some e })) s

unfoldable pub on_handshake_failed : Bytes → ConnError → LogServer → LogServer
unfolding find_remote update_at
on_handshake_failed remote e s = fail_conn (find_remote remote s.pending) e s
