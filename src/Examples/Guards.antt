-- ===== src/Examples/Guards.antt =====
-- The locks in front of a plain keyring and of the server's password check.
use sshush.Prelude.{
  ◌≡◌, ◌+◌, refl, true, false, none, some, List, [], ◌∷◌, Bytes, codes, arith, ltb, bytes_eq,
}
use sshush.Prelude.Outcome.{ok, err}
use sshush.External.{PublicKey}
use sshush.Keyring.{InnerAgent, Keyring, lock, unlock, inner_failed}
use sshush.Keyring.Laws.{
  Call, list_call, remove_all_call, unlock_call, AllRefused, extended, extension_call, run,
  unlock-lock, run-locked_keyring,
}
use sshush.PasswordGuard.{PasswordGuard, lookup, locked_out}
use sshush.PasswordGuard.Lockout.{attempts, IsMap, IsRun, final, attempts-locked_out}
use sshush.Examples.Toy.{toy, public}

-- A keyring that holds public keys and signs nothing.
abbrev inner : InnerAgent (List PublicKey)
inner = record {
  list = λ s. (s, ok s);
  add = λ key s. (public ∷ s, ok tt);
  remove = λ key s. (s, err (inner_failed []));
  remove_all = λ s. ([], ok tt);
  sign = λ key message s. (s, err (inner_failed []));
  sign_with_flags = λ key message flags s. (s, err (inner_failed []));
  signers = λ s. (s, ok []);
  extension = λ name contents s. (s, err (inner_failed []));
}

abbrev keyring : Keyring (List PublicKey)
keyring = record { inner = public ∷ []; locked = false; salt = []; derived_key = [] }

unlock-lock_example :
    unlock toy (codes "secret") (lock toy (some (codes "salt")) (codes "secret") keyring).0
    ≡ (record { inner = public ∷ []; locked = false; salt = []; derived_key = [] }, ok tt)
unlock-lock_example = unlock-lock toy (codes "salt") (codes "secret") keyring refl

abbrev shut : Keyring (List PublicKey)
shut = record keyring { locked = true; salt = codes "salt"; derived_key = codes "derived" }

abbrev calls : List Call
calls =
    list_call
    ∷ remove_all_call
    ∷ extension_call none (codes "x") []
    ∷ unlock_call (codes "guess")
    ∷ []

all_refused : AllRefused toy shut.salt shut.derived_key calls
unfolding AllRefused sshush.Keyring.Laws.tried bytes_eq sshush.Kdf.derive_key
all_refused = (tt, (tt, (tt, (refl, tt))))

run-locked_keyring_example :
    run toy inner calls shut ≡ record shut { inner = extended inner calls (public ∷ []) }
run-locked_keyring_example = run-locked_keyring toy inner calls shut refl all_refused

abbrev host : Bytes
host = codes "192.0.2.1"

abbrev guard : PasswordGuard
guard = record { failure_delay = 0; lockout_failures = 3; lockout = 60; failures = [] }

abbrev shut_out : PasswordGuard
shut_out = record guard { failures = (host, record { count = 3; last = 100 }) ∷ [] }

no_entries : IsMap guard.failures
unfolding IsMap
no_entries = tt

unknown : lookup host guard.failures ≡ none
unfolding lookup
unknown = refl

three_failures-IsRun : IsRun guard.lockout 10 (20 ∷ 70 ∷ [])
unfolding IsRun
three_failures-IsRun = (omega arith, (omega arith, tt))

attempts-locked_out_example :
    locked_out (attempts (10 ∷ 20 ∷ 70 ∷ []) host guard) 100 host
    ≡ ltb 100 (final 10 (20 ∷ 70 ∷ []) + 60)
attempts-locked_out_example =
    attempts-locked_out 10 100 (20 ∷ 70 ∷ []) host guard no_entries unknown refl
      three_failures-IsRun

one_entry : IsMap shut_out.failures
unfolding IsMap lookup
one_entry = (refl, tt)

free_again : locked_out shut_out 200 host ≡ false
unfolding locked_out lookup bytes_eq
free_again = refl

still_shut : locked_out shut_out 130 host ≡ true
unfolding locked_out lookup bytes_eq
still_shut = refl
