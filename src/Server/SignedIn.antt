-- ===== src/Server/SignedIn.antt =====
-- internal/server/connlog.go: what the log knows of a connection having signed in.
use sshush.Prelude.{
  ℕ, zero, suc, ◌≡◌, ◌≢◌, refl, sym, ap, subst, ◌∙◌, Bool, true, false, ◌||◌, Option, none, some,
  List, [], ◌∷◌, ◌++◌, Bytes, ◌==◌, get_elem?, arith, Bool-cases, Option-cases, inl, inr,
  if◌then◌else◌,
}
use native.Mathlib.Decide.{ℕ_discrete}
use sshush.External.{PublicKey}
use sshush.Server.ConnLog.{
  ConnError, ConnState, LogServer, update_at, on_connect, on_handshake_failed, find_remote,
  note_offered_key, note_password_check,
}
use sshush.Server.AuthLog.{log_auth, close, note_auth}
use sshush.Server.Closing.{
  Event, connected, handshake_failed, key_offered, password_checked, attempted, closed, happen, run,
}

-- An accepted attempt of the connection.
abbrev pub accepts : ℕ → Event → Bool
accepts i (attempted j user method none) = j == i
accepts i (attempted j user method (some e)) = false
accepts i (connected remote local_addr now) = false
accepts i (handshake_failed remote e) = false
accepts i (key_offered j key) = false
accepts i (password_checked j refusal host) = false
accepts i (closed j now) = false

unfoldable pub any_accepted : ℕ → List Event → Bool
any_accepted i [] = false
any_accepted i (e ∷ es) = accepts i e || any_accepted i es

get_elem?-update_at :
    (i j : ℕ) (f : ConnState → ConnState) (cs : List ConnState) {c : ConnState}
    → get_elem? cs i ≡ some c
    → get_elem? (update_at j f cs) i ≡ some (if j == i then f c else c)
unfolding update_at
get_elem?-update_at i j f [] h = cc
get_elem?-update_at zero zero f (c ∷ cs) h = ground arith
get_elem?-update_at zero (suc j) f (c ∷ cs) h = ground arith
get_elem?-update_at (suc i) zero f (c ∷ cs) h = ground arith
get_elem?-update_at (suc i) (suc j) f (b ∷ cs) {c} h =
    ground (arith, get_elem?-update_at i j f cs {c = c} h)

get_elem?-append_old :
    (i : ℕ) (d : ConnState) (cs : List ConnState) {c : ConnState}
    → get_elem? cs i ≡ some c
    → get_elem? (cs ++ d ∷ []) i ≡ some c
get_elem?-append_old i d [] h = cc
get_elem?-append_old zero d (c ∷ cs) h = h
get_elem?-append_old (suc i) d (c ∷ cs) h = get_elem?-append_old i d cs h

-- The connection is there, signed in or not.
unfoldable pub IsSignedIn : ℕ → Bool → LogServer → Type 0
IsSignedIn i signed s =
    (c : ConnState) × (get_elem? s.conns i ≡ some c) × (c.authenticated ≡ signed)

some-ne-none : {c : ConnState} → some c ≢ none
some-ne-none h = cc

or_swap : (a b c : Bool) → (a || (b || c)) ≡ ((b || a) || c)
or_swap a b c = ground arith

-- A change of a connection that leaves `authenticated` alone.
IsSignedIn-update :
    (i j : ℕ) (f : ConnState → ConnState) (signed : Bool) (s t : LogServer)
    → ((c : ConnState) → (f c).authenticated ≡ c.authenticated)
    → t.conns ≡ update_at j f s.conns
    → IsSignedIn i signed s
    → IsSignedIn i signed t
unfolding IsSignedIn
IsSignedIn-update i j f signed s t keeps e (c, there, is) = (
  if j == i then f c else c,
  ap (λ cs. get_elem? cs i) e ∙ get_elem?-update_at i j f s.conns there,
  same (j == i),
)
  where
    same : (b : Bool) → (if b then f c else c).authenticated ≡ signed
    same true = keeps c ∙ is
    same false = is

-- An attempt on a connection that is not there is not accepted on one that is.
accepts-missing :
    (i j : ℕ) (user method : Bytes) (e : Option ConnError) (cs : List ConnState) {c : ConnState}
    → get_elem? cs i ≡ some c
    → get_elem? cs j ≡ none
    → accepts i (attempted j user method e) ≡ false
accepts-missing i j user method (some e) cs there missing = refl
accepts-missing i j user method none cs {c} there missing = elim (ℕ_discrete j i) [
  | yes same ↦ absurd (some-ne-none (sym there ∙ ap (get_elem? cs) (sym same) ∙ missing))
  | no other ↦ ground arith
]

note_auth-accepts :
    (i j : ℕ) (user method : Bytes) (e : Option ConnError) (c : ConnState)
    → (if j == i then note_auth user method e c else c).authenticated
      ≡ (accepts i (attempted j user method e) || c.authenticated)
unfolding note_auth
note_auth-accepts i j user method none c = elim (Bool-cases (j == i)) [
  | inl same ↦ rw same refl
  | inr other ↦ rw other refl
]
note_auth-accepts i j user method (some e) c = elim (Bool-cases (j == i)) [
  | inl same ↦ rw same refl
  | inr other ↦ rw other refl
]

IsSignedIn-log_auth :
    (fingerprint : PublicKey → Bytes) (i j : ℕ) (user method : Bytes) (e : Option ConnError)
    (signed : Bool) (s : LogServer)
    → IsSignedIn i signed s
    → IsSignedIn i
        (accepts i (attempted j user method e) || signed)
        (log_auth fingerprint j user method e s)
unfolding IsSignedIn log_auth
IsSignedIn-log_auth fingerprint i j user method e signed s (c, there, is) =
    elim (Option-cases (get_elem? s.conns j)) [
      | inl missing ↦
          rw (missing, accepts-missing i j user method e s.conns {c = c} there missing)
            (c, there, is)
      | inr (d, at_j) ↦ rw at_j (
        if j == i then note_auth user method e c else c,
        get_elem?-update_at i j (note_auth user method e) s.conns there,
        note_auth-accepts i j user method e c
            ∙ ap (λ b. accepts i (attempted j user method e) || b) is,
      )
    ]

IsSignedIn-close :
    (i j now : ℕ) (signed : Bool) (s : LogServer)
    → IsSignedIn i signed s
    → IsSignedIn i signed (close j now s)
unfolding close
IsSignedIn-close i j now signed s v = elim (Option-cases (get_elem? s.conns j)) [
  | inl missing ↦ rw missing v
  | inr (d, at_j) ↦ elim (Bool-cases d.closed_once) [
    | inl already ↦ rw (at_j, already) v
    | inr not_yet ↦
        rw (at_j, not_yet)
          (IsSignedIn-update i j (λ c. record c { closed_once = true }) signed s _ (λ c. refl) refl
            v)
  ]
]

IsSignedIn-on_handshake_failed :
    (i : ℕ) (remote : Bytes) (e : ConnError) (signed : Bool) (s : LogServer)
    → IsSignedIn i signed s
    → IsSignedIn i signed (on_handshake_failed remote e s)
unfolding on_handshake_failed
IsSignedIn-on_handshake_failed i remote e signed s v =
    elim (Option-cases (find_remote remote s.pending)) [
      | inl unknown ↦ rw unknown v
      | inr (j, there) ↦
          rw there (
            IsSignedIn-update i j (λ c. record c { failure = some e }) signed s _ (λ c. refl) refl
              v)
    ]

IsSignedIn-on_connect :
    (i : ℕ) (remote local_addr : Bytes) (now : ℕ) (signed : Bool) (s : LogServer)
    → IsSignedIn i signed s
    → IsSignedIn i signed (on_connect remote local_addr now s)
unfolding on_connect IsSignedIn
IsSignedIn-on_connect i remote local_addr now signed s (c, there, is) =
    (c, get_elem?-append_old i _ s.conns there, is)

IsSignedIn-happen :
    (fingerprint : PublicKey → Bytes) (i : ℕ) (e : Event) (signed : Bool) (s : LogServer)
    → IsSignedIn i signed s
    → IsSignedIn i (accepts i e || signed) (happen fingerprint e s)
unfolding happen note_offered_key note_password_check
IsSignedIn-happen fingerprint i (connected remote local_addr now) signed s v =
    IsSignedIn-on_connect i remote local_addr now signed s v
IsSignedIn-happen fingerprint i (handshake_failed remote e) signed s v =
    IsSignedIn-on_handshake_failed i remote e signed s v
IsSignedIn-happen fingerprint i (key_offered j key) signed s v =
    IsSignedIn-update i j (note_offered_key key) signed s _ (λ c. refl) refl v
IsSignedIn-happen fingerprint i (password_checked j refusal host) signed s v =
    IsSignedIn-update i j (note_password_check refusal host) signed s _ (λ c. refl) refl v
IsSignedIn-happen fingerprint i (attempted j user method e) signed s v =
    IsSignedIn-log_auth fingerprint i j user method e signed s v
IsSignedIn-happen fingerprint i (closed j now) signed s v = IsSignedIn-close i j now signed s v

-- What the state of a connection, from which its closing is logged, says of the client having
-- signed in is, after any further events, whether it said so before or an attempt on this very
-- connection was accepted since.
pub IsSignedIn-run :
    (fingerprint : PublicKey → Bytes) (i : ℕ) (es : List Event) (signed : Bool) (s : LogServer)
    → IsSignedIn i signed s
    → IsSignedIn i (any_accepted i es || signed) (run fingerprint es s)
unfolding run any_accepted
IsSignedIn-run fingerprint i [] signed s v = v
IsSignedIn-run fingerprint i (e ∷ es) signed s v =
    subst (λ b. IsSignedIn i b (run fingerprint es (happen fingerprint e s)))
      (or_swap (any_accepted i es) (accepts i e) signed)
      (IsSignedIn-run fingerprint i es (accepts i e || signed) (happen fingerprint e s)
        (IsSignedIn-happen fingerprint i e signed s v))
