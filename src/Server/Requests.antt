-- ===== src/Server/Requests.antt =====
-- internal/server/channels.go and onSessionRequest of connlog.go: which channels and requests of a client
-- are served, and what the refusals say. gliderlabs calls the handler of the type, or the default one.
use sshush.Prelude.{
  ◌≡◌, refl, ◌↔◌, ◌≢◌, Bool, true, false, not, ◌||◌, Option, none, some, List, [], ◌∷◌, ◌++◌, Bytes,
  codes, bytes_eq, bytes_eq_iff, if◌then◌else◌, arith, Bool-cases, inl, inr,
}
use sshush.Server.ConnLog.{LogEntry, LogValue, info, debug, text}

abbrev pub port_forwarding_refusal : Bytes
port_forwarding_refusal = codes "sshush server does not support port forwarding"

pub data RejectionReason : Type 0 where
  prohibited unknown_channel_type : RejectionReason

-- A channel that the default session handler takes, or one that is rejected, with the record of it.
pub data ChannelAnswer : Type 0 where
  session : ChannelAnswer
  rejected : RejectionReason → Bytes → LogEntry → ChannelAnswer

abbrev refusal_entry : Bytes → List (Bytes × LogValue) → LogEntry
refusal_entry message attrs = record { level = info; message = message; attrs = attrs }

abbrev with_attr : Bytes → Option Bytes → List (Bytes × LogValue) → List (Bytes × LogValue)
with_attr name none attrs = attrs
with_attr name (some value) attrs = attrs ++ (name, text value) ∷ []

-- `destination` is the host and port of a direct-tcpip channel, where its data can be read.
unfoldable pub refuse_channel : Bytes → Option Bytes → List (Bytes × LogValue) → ChannelAnswer
refuse_channel channel_type destination who =
    if bytes_eq channel_type (codes "direct-tcpip")
    then rejected prohibited port_forwarding_refusal (
        refusal_entry (codes "port forwarding refused")
          (with_attr (codes "destination") destination who))
    else if bytes_eq channel_type (codes "direct-streamlocal@openssh.com")
    then rejected prohibited port_forwarding_refusal
        (refusal_entry (codes "socket forwarding refused") who)
    else rejected unknown_channel_type
        (codes "sshush server does not support " ++ channel_type ++ codes " channels")
        (refusal_entry (codes "channel refused") (who ++ (codes "type", text channel_type) ∷ []))

-- The table of channel handlers of serveOnlySessions.
unfoldable pub handle_channel : Bytes → Option Bytes → List (Bytes × LogValue) → ChannelAnswer
unfolding refuse_channel
handle_channel channel_type destination who =
    if bytes_eq channel_type (codes "session")
    then session
    else refuse_channel channel_type destination who

-- The reply to a global request, and the record of it; `bind` is the address of a tcpip-forward.
unfoldable pub refuse_remote_forward :
    Bytes → Option Bytes → List (Bytes × LogValue) → Bool × LogEntry
refuse_remote_forward request_type bind who =
    if not (bytes_eq request_type (codes "tcpip-forward"))
    then (false, refusal_entry (codes "remote socket forwarding refused") who)
    else (
      false,
      refusal_entry (codes "remote port forwarding refused") (with_attr (codes "bind") bind who),
    )

unfoldable pub refuse_global_request : Bytes → Bytes → Bool × LogEntry
refuse_global_request request_type remote = (
  false,
  record {
    level = debug;
    message = codes "global request refused";
    attrs = (codes "type", text request_type) ∷ (codes "remote", text remote) ∷ [];
  },
)

-- The table of request handlers.
unfoldable pub handle_request :
    Bytes → Option Bytes → Bytes → List (Bytes × LogValue) → Bool × LogEntry
unfolding refuse_remote_forward refuse_global_request
handle_request request_type bind remote who =
    if bytes_eq request_type (codes "tcpip-forward")
      || bytes_eq request_type (codes "streamlocal-forward@openssh.com")
    then refuse_remote_forward request_type bind who
    else refuse_global_request request_type remote

-- Whether a session's request goes on; the record of a refusal.
unfoldable pub on_session_request : Bytes → Bytes → Bytes → Bytes → Bool × Option LogEntry
on_session_request request_type subsystem user remote =
    if not (bytes_eq request_type (codes "subsystem")) then (true, none) else (
      false,
      some (
          refusal_entry (codes "subsystem refused") (
            (codes "subsystem", text subsystem)
            ∷ (codes "user", text user)
            ∷ (codes "remote", text remote)
            ∷ [])),
    )

abbrev pub is_session : ChannelAnswer → Bool
is_session session = true
is_session (rejected r m e) = false

is_session-refuse_channel :
    (channel_type : Bytes) (destination : Option Bytes) (who : List (Bytes × LogValue))
    → is_session (refuse_channel channel_type destination who) ≡ false
unfolding refuse_channel
is_session-refuse_channel channel_type destination who =
    elim (Bool-cases (bytes_eq channel_type (codes "direct-tcpip"))) [
      | inl tcp ↦ rw tcp refl
      | inr other ↦
          elim (Bool-cases (bytes_eq channel_type (codes "direct-streamlocal@openssh.com"))) [
            | inl local_socket ↦ rw (other, local_socket) refl
            | inr unknown ↦ rw (other, unknown) refl
          ]
    ]

is_session-handle_channel :
    (channel_type : Bytes) (destination : Option Bytes) (who : List (Bytes × LogValue))
    → is_session (handle_channel channel_type destination who)
      ≡ bytes_eq channel_type (codes "session")
unfolding handle_channel
is_session-handle_channel channel_type destination who =
    elim (Bool-cases (bytes_eq channel_type (codes "session"))) [
      | inl same ↦ rw same refl
      | inr other ↦ rw other (is_session-refuse_channel channel_type destination who)
    ]

handle_request-refused :
    (request_type : Bytes) (bind : Option Bytes) (remote : Bytes) (who : List (Bytes × LogValue))
    → (handle_request request_type bind remote who).0 ≡ false
unfolding handle_request refuse_remote_forward refuse_global_request
handle_request-refused request_type bind remote who =
    elim (Bool-cases (bytes_eq request_type (codes "tcpip-forward"))) [
      | inl tcp ↦ rw tcp refl
      | inr other ↦
          elim (Bool-cases (bytes_eq request_type (codes "streamlocal-forward@openssh.com"))) [
            | inl local_socket ↦ rw (other, local_socket) refl
            | inr unknown ↦ rw (other, unknown) refl
          ]
    ]

on_session_request-goes_on :
    (request_type subsystem user remote : Bytes)
    → (on_session_request request_type subsystem user remote).0
      ≡ not (bytes_eq request_type (codes "subsystem"))
unfolding on_session_request
on_session_request-goes_on request_type subsystem user remote =
    elim (Bool-cases (bytes_eq request_type (codes "subsystem"))) [
      | inl same ↦ rw same refl
      | inr other ↦ rw other refl
    ]

not-bytes_eq_iff : (xs ys : Bytes) → (not (bytes_eq xs ys) ≡ true) ↔ (xs ≢ ys)
not-bytes_eq_iff xs ys = ground (arith, bytes_eq_iff xs ys)

-- A channel is served just where its type is `session`, no global request is granted, and a request of a
-- session goes on just where it asks for no subsystem.
pub only_sessions_served :
    (channel_type request_type : Bytes) (destination : Option Bytes) (remote subsystem user : Bytes)
    (who : List (Bytes × LogValue))
    → ((is_session (handle_channel channel_type destination who) ≡ true)
        ↔ (channel_type ≡ codes "session"))
      × ((handle_request request_type destination remote who).0 ≡ false)
      × (((on_session_request request_type subsystem user remote).0 ≡ true)
          ↔ (request_type ≢ codes "subsystem"))
unfolding handle_channel refuse_channel handle_request refuse_remote_forward refuse_global_request
    on_session_request
only_sessions_served channel_type request_type destination remote subsystem user who = (
  rw (is_session-handle_channel channel_type destination who)
      (bytes_eq_iff channel_type (codes "session")),
  handle_request-refused request_type destination remote who,
  rw (on_session_request-goes_on request_type subsystem user remote)
      (not-bytes_eq_iff request_type (codes "subsystem")),
)
