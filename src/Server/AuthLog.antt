-- ===== src/Server/AuthLog.antt =====
-- internal/server/connlog.go: the records of the attempts to sign in and of the end of a connection.
use sshush.Prelude.{
  ℕ, ◌+◌, ◌-◌, ◌*◌, ◌/◌, Bool, true, false, not, ◌||◌, Option, none, some, List, [], ◌∷◌, ◌++◌,
  Bytes, codes, bytes_eq, is_empty, get_elem?, if◌then◌else◌,
}
use sshush.External.{PublicKey}
use sshush.PasswordGuard.{password_lockout_failures, password_lockout}
use sshush.Server.ConnLog.{
  info, warn, text, flag, number, duration, LogValue, LogEntry, ConnError, ConnState, LogServer,
  offered_methods, auth_failure_reason, handshake_failure_reason, update_at, forget_remote,
}

abbrev is_none : {A : Type 0} → Option A → Bool
is_none none = true
is_none (some a) = false

-- What logAuth keeps of an attempt.
unfoldable pub note_auth : Bytes → Bytes → Option ConnError → ConnState → ConnState
note_auth user method e c =
    let password = bytes_eq method (codes "password") in
    record c {
      user = user;
      offered_key = if bytes_eq method (codes "publickey") then none else c.offered_key;
      refusal = if password then [] else c.refusal;
      locked_out = if password then [] else c.locked_out;
      authenticated = is_none e || c.authenticated;
    }

abbrev key_attrs : (PublicKey → Bytes) → Bool → Option PublicKey → List (Bytes × LogValue)
key_attrs fingerprint asked none = []
key_attrs fingerprint asked (some k) =
    if asked
    then (codes "key_type", text k.key_type) ∷ (codes "fingerprint", text (fingerprint k)) ∷ []
    else []

-- The record of an attempt; `c` is the state before it.
abbrev pub auth_attrs : (PublicKey → Bytes) → Bytes → Bytes → ConnState → List (Bytes × LogValue)
auth_attrs fingerprint user method c =
    (codes "method", text method)
    ∷ (codes "user", text user)
    ∷ (codes "remote", text c.remote)
    ∷ key_attrs fingerprint (bytes_eq method (codes "publickey")) c.offered_key

abbrev reason_attr : Bytes → List (Bytes × LogValue)
reason_attr reason = if is_empty reason then [] else (codes "reason", text reason) ∷ []

abbrev pub refusal_or : Bytes → ConnError → Bytes
refusal_or refusal e = if is_empty refusal then auth_failure_reason e else refusal

abbrev pub lockout_entries : Bool → Bytes → List LogEntry → List LogEntry
lockout_entries password host entries =
    if not password || is_empty host
    then entries
    else record {
      level = warn;
      message = codes "password lockout";
      attrs =
          (codes "host", text host)
          ∷ (codes "failures", number password_lockout_failures)
          ∷ (codes "duration", duration password_lockout)
          ∷ [];
    }
      ∷ entries

module _ (fingerprint : PublicKey → Bytes) where
  abbrev pub failed_entry : Bytes → Bytes → ConnError → ConnState → Bytes → LogEntry
  failed_entry user method e c methods = record {
    level = info;
    message = codes "auth failed";
    attrs =
        auth_attrs fingerprint user method c
        ++ reason_attr (refusal_or c.refusal e)
        ++ (codes "methods_offered", text methods) ∷ [];
  }

  abbrev pub auth_entries :
      Bytes → Bytes → Option ConnError → ConnState → Bytes → List LogEntry → List LogEntry
  auth_entries user method none c methods entries =
      record {
        level = info;
        message = codes "auth accepted";
        attrs = auth_attrs fingerprint user method c;
      }
      ∷ entries
  auth_entries user method (some e) c methods entries =
      if bytes_eq method (codes "none")
      then record {
        level = info;
        message = codes "auth methods offered";
        attrs =
            (codes "user", text user)
            ∷ (codes "remote", text c.remote)
            ∷ (codes "methods", text methods)
            ∷ [];
      }
        ∷ entries
      else lockout_entries (bytes_eq method (codes "password")) c.locked_out
          (failed_entry user method e c methods ∷ entries)

  abbrev log_auth_of :
      ℕ → Bytes → Bytes → Option ConnError → Option ConnState → LogServer → LogServer
  log_auth_of i user method e none s = s
  log_auth_of i user method e (some c) s = record s {
    conns = update_at i (note_auth user method e) s.conns;
    entries = auth_entries user method e c (offered_methods s) s.entries;
  }

  unfoldable pub log_auth : ℕ → Bytes → Bytes → Option ConnError → LogServer → LogServer
  unfolding note_auth update_at offered_methods auth_failure_reason
  log_auth i user method e s = log_auth_of i user method e (get_elem? s.conns i) s

-- time.Duration's Round to a millisecond.
abbrev pub round_to_ms : ℕ → ℕ
round_to_ms d = (d + 500000) / 1000000 * 1000000

abbrev failure_attr : ConnState → List (Bytes × LogValue)
failure_attr c = if c.authenticated then [] else reason_attr (handshake_failure_reason c.failure)

abbrev user_attr : Bytes → List (Bytes × LogValue)
user_attr user = if is_empty user then [] else (codes "user", text user) ∷ []

unfoldable pub disconnect_entry : ℕ → ConnState → LogEntry
unfolding handshake_failure_reason
disconnect_entry now c = record {
  level = info;
  message = codes "connection closed";
  attrs =
      (codes "remote", text c.remote) ∷ user_attr c.user
      ++ (codes "authenticated", flag c.authenticated)
        ∷ (codes "duration", duration (round_to_ms (now - c.opened)))
        ∷ failure_attr c;
}

abbrev close_of : ℕ → ℕ → Option ConnState → LogServer → LogServer
close_of i now none s = s
close_of i now (some c) s =
    let closing : LogServer = record s {
      conns = update_at i (λ d. record d { closed_once = true }) s.conns;
      pending = forget_remote c.remote s.pending;
      entries = disconnect_entry now c ∷ s.entries;
    } in
    if c.closed_once then s else closing

-- loggedConn's Close, of which only the first logs.
unfoldable pub close : ℕ → ℕ → LogServer → LogServer
unfolding update_at forget_remote disconnect_entry
close i now s = close_of i now (get_elem? s.conns i) s
