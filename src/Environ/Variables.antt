-- ===== src/Environ/Variables.antt =====
-- internal/server/environ.go: which of the variables of one session a new session can see.
use sshush.Prelude.{
  ◌≡◌, refl, Bool, true, false, ◌||◌, Option, none, some, List, [], ◌∷◌, ◌++◌, Bytes, codes,
  bytes_eq, bytes_eq_iff, is_empty, arith, inl, inr, Bool-cases, ◌∙◌,
}
use sshush.Environ.{
  per_session_env_keys, cut_name, has_env_key, is_set, entry, append_if_unset, split_addr,
  without_session_keys, with_user, connection_entries, session_env,
}

is_set-append :
    (key : Bytes) (xs ys : List Bytes) → is_set key (xs ++ ys) ≡ (is_set key xs || is_set key ys)
unfolding is_set
is_set-append key [] ys = refl
is_set-append key (x ∷ xs) ys = ground (arith, is_set-append key xs ys)

-- The daemon's own value of a session's variable is dropped.
is_set-without_session_keys :
    (key : Bytes) (base : List Bytes)
    → has_env_key key per_session_env_keys ≡ true
    → cut_name key ≡ key
    → is_set key (without_session_keys base) ≡ false
unfolding is_set without_session_keys has_env_key
is_set-without_session_keys key [] h e = refl
is_set-without_session_keys key (kv ∷ base) h e =
    ground (arith, is_set-without_session_keys key base h e, bytes_eq_iff (cut_name kv) key)

is_set-append_if_unset :
    (key name value : Bytes) (env : List Bytes)
    → bytes_eq (cut_name (entry name value)) key ≡ false
    → is_set key (append_if_unset env name value) ≡ is_set key env
unfolding append_if_unset is_set has_env_key
is_set-append_if_unset key name value env h =
    elim (Bool-cases (is_set name env || is_empty value)) [
      | inl t ↦ rw t refl
      | inr f ↦ rw f (ground (arith, is_set-append key env (entry name value ∷ [])))
    ]

abbrev pub both : Option (Bytes × Bytes) → Option (Bytes × Bytes) → Bool
both (some c) (some s) = true
both none s = false
both (some c) none = false

-- Whether a connection's entries set the four variables.
connection_variables :
    (c s : Option (Bytes × Bytes))
    → (is_set (codes "TERM") (connection_entries c s) ≡ false)
      × (is_set (codes "SSH_TTY") (connection_entries c s) ≡ false)
      × (is_set (codes "SSH_CLIENT") (connection_entries c s) ≡ both c s)
      × (is_set (codes "SSH_CONNECTION") (connection_entries c s) ≡ both c s)
unfolding connection_entries is_set has_env_key cut_name bytes_eq
connection_variables none s = (refl, refl, refl, refl)
connection_variables (some c) none = (refl, refl, refl, refl)
connection_variables (some (ch, cp)) (some (sh, sp)) = (refl, refl, refl, refl)

-- No key of a session is one that the user's entries set.
abbrev IsOther : Bytes → Type 0
IsOther key =
    (value : Bytes)
    → (bytes_eq (cut_name (entry (codes "USER") value)) key ≡ false)
      × (bytes_eq (cut_name (entry (codes "LOGNAME") value)) key ≡ false)
      × (bytes_eq (cut_name (entry (codes "HOME") value)) key ≡ false)
      × (bytes_eq (cut_name (entry (codes "SHELL") value)) key ≡ false)

is_set-with_user :
    (key : Bytes) (user : Option (Bytes × Bytes)) (env : List Bytes)
    → IsOther key
    → is_set key (with_user user env) ≡ is_set key env
unfolding with_user
is_set-with_user key none env h = refl
is_set-with_user key (some (name, home)) env h =
    is_set-append_if_unset key (codes "HOME") home _ (h home).2
    ∙ is_set-append_if_unset key (codes "LOGNAME") name _ (h name).1
    ∙ is_set-append_if_unset key (codes "USER") name env (h name).0

shell-IsOther :
    (shell key : Bytes) → IsOther key → is_set key (entry (codes "SHELL") shell ∷ []) ≡ false
unfolding is_set has_env_key
shell-IsOther shell key o = ground (arith, (o shell).3)

module _ (split_host_port : Bytes → Option (Bytes × Bytes)) (user : Option (Bytes × Bytes))
    (base : List Bytes) (remote local : Option Bytes) (shell : Bytes) where
  -- Beyond what describes this connection, nothing sets a session's variable.
  is_set-session_env :
      (key : Bytes)
      → has_env_key key per_session_env_keys ≡ true
      → cut_name key ≡ key
      → IsOther key
      → is_set key (session_env split_host_port user base remote local shell)
        ≡ is_set key (
            connection_entries
              (split_addr split_host_port remote)
              (split_addr split_host_port local))
  unfolding session_env
  is_set-session_env key h e o = ground (
    arith,
    is_set-append key
        (with_user user (without_session_keys base) ++ entry (codes "SHELL") shell ∷ [])
        (connection_entries (split_addr split_host_port remote) (split_addr split_host_port local)),
    is_set-append key (with_user user (without_session_keys base))
        (entry (codes "SHELL") shell ∷ []),
    is_set-with_user key user (without_session_keys base) o,
    is_set-without_session_keys key base h e,
    shell-IsOther shell key o,
  )

  -- Whatever the daemon's own environment, a session's holds no TERM and no SSH_TTY, and it holds
  -- SSH_CLIENT and SSH_CONNECTION exactly if both addresses split into a host and a port.
  pub session_env-variables :
      (is_set (codes "TERM") (session_env split_host_port user base remote local shell) ≡ false)
      × (is_set (codes "SSH_TTY") (session_env split_host_port user base remote local shell)
          ≡ false)
      × (is_set (codes "SSH_CLIENT") (session_env split_host_port user base remote local shell)
          ≡ both (split_addr split_host_port remote) (split_addr split_host_port local))
      × (is_set (codes "SSH_CONNECTION") (session_env split_host_port user base remote local shell)
          ≡ both (split_addr split_host_port remote) (split_addr split_host_port local))
  unfolding cut_name has_env_key bytes_eq
  session_env-variables =
      let c =
        connection_variables (split_addr split_host_port remote)
          (split_addr split_host_port local) in
      (
        is_set-session_env (codes "TERM") refl refl (λ v. (refl, refl, refl, refl)) ∙ c.0,
        is_set-session_env (codes "SSH_TTY") refl refl (λ v. (refl, refl, refl, refl)) ∙ c.1,
        is_set-session_env (codes "SSH_CLIENT") refl refl (λ v. (refl, refl, refl, refl)) ∙ c.2,
        is_set-session_env (codes "SSH_CONNECTION") refl refl (λ v. (refl, refl, refl, refl)) ∙ c.3,
      )
