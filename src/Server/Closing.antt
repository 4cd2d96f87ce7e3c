-- ===== src/Server/Closing.antt =====
-- internal/server/connlog.go: the callbacks as events, and the records of connections that are closed.
use sshush.Prelude.{
  ℕ, zero, suc, ◌≡◌, refl, sym, ◌∙◌, not, is_empty, Bool, true, false, ◌||◌, Option, none, some,
  List, [], ◌∷◌, ◌++◌, Bytes, codes, bytes_eq, get_elem?, arith, Bool-cases, Option-cases, inl, inr,
  if◌then◌else◌, ap, map,
}
use sshush.External.{PublicKey}
use sshush.Server.ConnLog.{
  LogEntry, LogValue, text, ConnError, ConnState, LogServer, update_at, on_connect,
  on_handshake_failed, note_offered_key, note_password_check, with_conns, find_remote,
  offered_methods,
}
use sshush.Server.AuthLog.{
  log_auth, close, note_auth, disconnect_entry, lockout_entries, auth_entries, failed_entry,
}

-- The callbacks of a connection, and its end.
pub data Event : Type 0 where
  connected : Bytes → Bytes → ℕ → Event
  handshake_failed : Bytes → ConnError → Event
  key_offered : ℕ → PublicKey → Event
  password_checked : ℕ → Bytes → Bytes → Event
  attempted : ℕ → Bytes → Bytes → Option ConnError → Event
  closed : ℕ → ℕ → Event

unfoldable pub happen : (PublicKey → Bytes) → Event → LogServer → LogServer
unfolding on_connect on_handshake_failed note_offered_key note_password_check log_auth close
    update_at
happen fingerprint (connected remote local_addr now) s = on_connect remote local_addr now s
happen fingerprint (handshake_failed remote e) s = on_handshake_failed remote e s
happen fingerprint (key_offered i key) s = with_conns (update_at i (note_offered_key key)) s
happen fingerprint (password_checked i refusal host) s =
    with_conns (update_at i (note_password_check refusal host)) s
happen fingerprint (attempted i user method e) s = log_auth fingerprint i user method e s
happen fingerprint (closed i now) s = close i now s

unfoldable pub run : (PublicKey → Bytes) → List Event → LogServer → LogServer
unfolding happen
run fingerprint [] s = s
run fingerprint (e ∷ es) s = run fingerprint es (happen fingerprint e s)

-- The `remote` attribute, which a record of a connection starts with.
abbrev remote_of : List (Bytes × LogValue) → Bytes
remote_of ((name, text remote) ∷ attrs) = remote
remote_of other = []

-- The remote addresses of the records of closed connections, the last record first.
unfoldable pub closing_remotes : List LogEntry → List Bytes
closing_remotes [] = []
closing_remotes (e ∷ es) =
    let rest = closing_remotes es in
    if bytes_eq e.message (codes "connection closed") then remote_of e.attrs ∷ rest else rest

-- What the events alone tell: each connection's remote address, and whether it was closed already.
abbrev pub Seen : Type 0
Seen = List (Bytes × Bool)

unfoldable pub mark_closed : ℕ → Seen → Seen
mark_closed i [] = []
mark_closed zero ((remote, was_closed) ∷ seen) = (remote, true) ∷ seen
mark_closed (suc i) (c ∷ seen) = c ∷ mark_closed i seen

abbrev pub first_close : Option (Bytes × Bool) → List Bytes → List Bytes
first_close none remotes = remotes
first_close (some (remote, true)) remotes = remotes
first_close (some (remote, false)) remotes = remote ∷ remotes

-- The remote addresses of the connections that the events close, each at its first close, the last
-- first.
unfoldable pub closed_remotes : List Event → Seen → List Bytes → List Bytes
unfolding mark_closed
closed_remotes [] seen remotes = remotes
closed_remotes (connected remote local_addr now ∷ es) seen remotes =
    closed_remotes es (seen ++ (remote, false) ∷ []) remotes
closed_remotes (closed i now ∷ es) seen remotes =
    closed_remotes es (mark_closed i seen) (first_close (get_elem? seen i) remotes)
closed_remotes (handshake_failed remote e ∷ es) seen remotes = closed_remotes es seen remotes
closed_remotes (key_offered i key ∷ es) seen remotes = closed_remotes es seen remotes
closed_remotes (password_checked i refusal host ∷ es) seen remotes = closed_remotes es seen remotes
closed_remotes (attempted i user method e ∷ es) seen remotes = closed_remotes es seen remotes

abbrev summary : ConnState → Bytes × Bool
summary c = (c.remote, c.closed_once)

abbrev seen_of : List ConnState → Seen
seen_of cs = map summary cs

seen_of-update_at :
    (i : ℕ) (f : ConnState → ConnState) (cs : List ConnState)
    → ((c : ConnState) → summary (f c) ≡ summary c)
    → seen_of (update_at i f cs) ≡ seen_of cs
unfolding update_at
seen_of-update_at i f [] h = refl
seen_of-update_at zero f (c ∷ cs) h = ap (λ d. d ∷ seen_of cs) (h c)
seen_of-update_at (suc i) f (c ∷ cs) h = ap (λ ds. summary c ∷ ds) (seen_of-update_at i f cs h)

seen_of-close :
    (i : ℕ) (cs : List ConnState)
    → seen_of (update_at i (λ d. record d { closed_once = true }) cs) ≡ mark_closed i (seen_of cs)
unfolding update_at mark_closed
seen_of-close i [] = refl
seen_of-close zero (c ∷ cs) = refl
seen_of-close (suc i) (c ∷ cs) = ap (λ ds. summary c ∷ ds) (seen_of-close i cs)

-- Closing again what is closed, or what is not there, marks nothing.
mark_closed-again :
    (i : ℕ) (cs : List ConnState) {c : ConnState}
    → get_elem? cs i ≡ some c
    → c.closed_once ≡ true
    → mark_closed i (seen_of cs) ≡ seen_of cs
unfolding mark_closed
mark_closed-again i [] h e = cc
mark_closed-again zero (b ∷ cs) {c} h e = ground arith
mark_closed-again (suc i) (b ∷ cs) {c} h e =
    ap (λ ds. summary b ∷ ds) (mark_closed-again i cs {c = c} h e)

mark_closed-absent :
    (i : ℕ) (cs : List ConnState) → get_elem? cs i ≡ none → mark_closed i (seen_of cs) ≡ seen_of cs
unfolding mark_closed
mark_closed-absent i [] h = refl
mark_closed-absent zero (b ∷ cs) h = cc
mark_closed-absent (suc i) (b ∷ cs) h = ap (λ ds. summary b ∷ ds) (mark_closed-absent i cs h)

abbrev summary_of : Option ConnState → Option (Bytes × Bool)
summary_of none = none
summary_of (some c) = some (summary c)

get_elem-seen_of :
    (cs : List ConnState) (i : ℕ) → get_elem? (seen_of cs) i ≡ summary_of (get_elem? cs i)
get_elem-seen_of [] i = refl
get_elem-seen_of (c ∷ cs) zero = refl
get_elem-seen_of (c ∷ cs) (suc i) = get_elem-seen_of cs i

seen_of-append :
    (cs : List ConnState) (c : ConnState) → seen_of (cs ++ c ∷ []) ≡ seen_of cs ++ summary c ∷ []
seen_of-append [] c = refl
seen_of-append (d ∷ cs) c = ap (λ ds. summary d ∷ ds) (seen_of-append cs c)

closing_remotes-lockout :
    (password : Bool) (host : Bytes) (entries : List LogEntry)
    → closing_remotes (lockout_entries password host entries) ≡ closing_remotes entries
unfolding closing_remotes bytes_eq
closing_remotes-lockout password host entries = elim (Bool-cases (not password || is_empty host)) [
  | inl quiet ↦ rw quiet refl
  | inr loud ↦ rw loud refl
]

-- The records of an attempt are none of a closing.
closing_remotes-auth :
    (fingerprint : PublicKey → Bytes) (user method : Bytes) (e : Option ConnError) (c : ConnState)
    (methods : Bytes) (entries : List LogEntry)
    → closing_remotes (auth_entries fingerprint user method e c methods entries)
      ≡ closing_remotes entries
unfolding closing_remotes bytes_eq
closing_remotes-auth fingerprint user method none c methods entries = refl
closing_remotes-auth fingerprint user method (some e) c methods entries =
    elim (Bool-cases (bytes_eq method (codes "none"))) [
      | inl query ↦ rw query refl
      | inr real ↦ rw real (
          closing_remotes-lockout (bytes_eq method (codes "password")) c.locked_out
            (failed_entry fingerprint user method e c methods ∷ entries))
    ]

-- What a state has and an event makes of it, as the log and as the summary of its connections.
abbrev IsAt : LogServer → Seen → List Bytes → Type 0
IsAt s seen remotes = (seen_of s.conns ≡ seen) × (closing_remotes s.entries ≡ remotes)

IsAt-log_auth :
    (fingerprint : PublicKey → Bytes) (i : ℕ) (user method : Bytes) (e : Option ConnError)
    (s : LogServer) {seen : Seen} {remotes : List Bytes}
    → IsAt s seen remotes
    → IsAt (log_auth fingerprint i user method e s) seen remotes
unfolding log_auth note_auth
IsAt-log_auth fingerprint i user method e s (v, r) = elim (Option-cases (get_elem? s.conns i)) [
  | inl missing ↦ rw missing (v, r)
  | inr (c, there) ↦ rw there (
    seen_of-update_at i (note_auth user method e) s.conns (λ c. refl) ∙ v,
    closing_remotes-auth fingerprint user method e c (offered_methods s) s.entries ∙ r,
  )
]

IsAt-close :
    (i now : ℕ) (s : LogServer) {seen : Seen} {remotes : List Bytes}
    → IsAt s seen remotes
    → IsAt (close i now s) (mark_closed i seen) (first_close (get_elem? seen i) remotes)
unfolding close closing_remotes disconnect_entry bytes_eq
IsAt-close i now s (v, r) =
    rw (sym v, sym r, get_elem-seen_of s.conns i)
      (elim (Option-cases (get_elem? s.conns i)) [
        | inl missing ↦ rw missing (sym (mark_closed-absent i s.conns missing), refl)
        | inr (c, there) ↦ elim (Bool-cases c.closed_once) [
          | inl already ↦
              rw (there, already) (sym (mark_closed-again i s.conns {c = c} there already), refl)
          | inr not_yet ↦ rw (there, not_yet) (seen_of-close i s.conns, refl)
        ]
      ])

IsAt-on_handshake_failed :
    (remote : Bytes) (e : ConnError) (s : LogServer) {seen : Seen} {remotes : List Bytes}
    → IsAt s seen remotes
    → IsAt (on_handshake_failed remote e s) seen remotes
unfolding on_handshake_failed
IsAt-on_handshake_failed remote e s (v, r) = elim (Option-cases (find_remote remote s.pending)) [
  | inl unknown ↦ rw unknown (v, r)
  | inr (i, there) ↦
      rw there (seen_of-update_at i (λ c. record c { failure = some e }) s.conns (λ c. refl) ∙ v, r)
]

closing_remotes-from :
    (fingerprint : PublicKey → Bytes) (es : List Event) (s : LogServer) {seen : Seen}
    {remotes : List Bytes}
    → IsAt s seen remotes
    → closing_remotes (run fingerprint es s).entries ≡ closed_remotes es seen remotes
unfolding run happen closed_remotes on_connect note_offered_key note_password_check closing_remotes
    bytes_eq
closing_remotes-from fingerprint [] s (v, r) = r
closing_remotes-from fingerprint (connected remote local_addr now ∷ es) s (v, r) =
    closing_remotes-from fingerprint es (on_connect remote local_addr now s)
      (seen_of-append s.conns _ ∙ ap (λ d. d ++ (remote, false) ∷ []) v, r)
closing_remotes-from fingerprint (handshake_failed remote e ∷ es) s v =
    closing_remotes-from fingerprint es (on_handshake_failed remote e s)
      (IsAt-on_handshake_failed remote e s v)
closing_remotes-from fingerprint (key_offered i key ∷ es) s (v, r) =
    closing_remotes-from fingerprint es (with_conns (update_at i (note_offered_key key)) s)
      (seen_of-update_at i (note_offered_key key) s.conns (λ c. refl) ∙ v, r)
closing_remotes-from fingerprint (password_checked i refusal host ∷ es) s (v, r) =
    closing_remotes-from fingerprint es
      (with_conns (update_at i (note_password_check refusal host)) s)
      (seen_of-update_at i (note_password_check refusal host) s.conns (λ c. refl) ∙ v, r)
closing_remotes-from fingerprint (attempted i user method e ∷ es) s v =
    closing_remotes-from fingerprint es (log_auth fingerprint i user method e s)
      (IsAt-log_auth fingerprint i user method e s v)
closing_remotes-from fingerprint (closed i now ∷ es) s v =
    closing_remotes-from fingerprint es (close i now s) (IsAt-close i now s v)

abbrev pub fresh_log : Bool → LogServer
fresh_log offers_passwords = record {
  offers_passwords = offers_passwords;
  conns = [];
  pending = [];
  entries = [];
}

-- Whatever connections, handshake failures, offered keys, password checks, attempts and closings a
-- server has seen since it started, the records of closed connections in its log are, with their
-- remote addresses and in their order, those of the first closing of each connection that was closed.
pub closing_remotes-run :
    (fingerprint : PublicKey → Bytes) (offers_passwords : Bool) (es : List Event)
    → closing_remotes (run fingerprint es (fresh_log offers_passwords)).entries
      ≡ closed_remotes es [] []
unfolding closing_remotes
closing_remotes-run fingerprint offers_passwords es =
    closing_remotes-from fingerprint es (fresh_log offers_passwords) (refl, refl)
