-- ===== src/PasswordGuard/Lockout.antt =====
-- internal/server/password_guard.go: what shuts an address out, and what lets it in again.
use sshush.Prelude.{
  ℕ, ◌+◌, ◌<◌, ◌≤◌, ◌≡◌, refl, Bool, true, false, Option, none, some, List, [], ◌∷◌, Bytes, length,
  bytes_eq, bytes_eq_refl, bytes_eq_iff, ltb, if◌then◌else◌, arith,
}
use sshush.PasswordGuard.{
  AddressFailures, Failures, PasswordGuard, lookup, delete, count_of, is_recent, locked_out,
  drop_quiet, record_failure, forget, accepted, refused_locked_out, verify,
}

lookup-delete :
    (host other : Bytes) (fs : Failures)
    → lookup host (delete other fs) ≡ (if bytes_eq other host then none else lookup host fs)
unfolding lookup delete
lookup-delete host other [] = ground arith
lookup-delete host other ((h, f) ∷ fs) = ground (
  arith,
  lookup-delete host other fs,
  bytes_eq_iff h other,
  bytes_eq_iff h host,
  bytes_eq_iff other host,
)

-- One entry for a host.
unfoldable pub IsMap : Failures → Type 0
IsMap [] = Unit {0}
IsMap ((h, f) ∷ fs) = (lookup h fs ≡ none) × IsMap fs

-- A run that is recent stays, and one that has gone quiet is forgotten.
abbrev kept : ℕ → ℕ → Option AddressFailures → Option AddressFailures
kept lockout now none = none
kept lockout now (some f) = if is_recent lockout now f then some f else none

lookup-drop_quiet :
    (lockout now : ℕ) (host : Bytes) (fs : Failures)
    → IsMap fs
    → lookup host (drop_quiet lockout now fs) ≡ kept lockout now (lookup host fs)
unfolding lookup drop_quiet IsMap
lookup-drop_quiet lockout now host [] m = refl
lookup-drop_quiet lockout now host ((h, f) ∷ fs) m =
    ground (arith, lookup-drop_quiet lockout now host fs m.1, bytes_eq_iff h host)

-- While an address is locked out no password is checked: the source makes no difference, and
-- nothing changes.
pub verify-locked_out :
    (source other : Bytes → Bool) (slot : Bool) (t u : ℕ) (host password : Bytes)
    (g : PasswordGuard)
    → locked_out g t host ≡ true
    → (verify source slot t u host password g ≡ (g, refused_locked_out))
      × (verify source slot t u host password g ≡ verify other slot t u host password g)
unfolding verify
verify-locked_out source other slot t u host password g h = (rw h, rw h)

-- What the map holds after a failure: the host's run is one longer and as late as now, and the runs
-- of other hosts stay while they are recent.
lookup-record_failure :
    (now : ℕ) (host other : Bytes) (g : PasswordGuard)
    → IsMap g.failures
    → lookup other (record_failure now host g).0.failures ≡ (
        if bytes_eq host other
        then some (record {
          count = count_of (kept g.lockout now (lookup host g.failures)) + 1;
          last = now;
        })
        else kept g.lockout now (lookup other g.failures))
unfolding record_failure lookup
lookup-record_failure now host other g m = ground (
  arith,
  lookup-drop_quiet g.lockout now host g.failures m,
  lookup-drop_quiet g.lockout now other g.failures m,
  lookup-delete other host (drop_quiet g.lockout now g.failures),
)

-- A failed password of one address never changes whether another is locked out, then or later.
pub locked_out-record_failure :
    (now later : ℕ) (host other : Bytes) (g : PasswordGuard)
    → IsMap g.failures
    → bytes_eq host other ≡ false
    → now ≤ later
    → locked_out (record_failure now host g).0 later other ≡ locked_out g later other
unfolding locked_out record_failure lookup is_recent
locked_out-record_failure now later host other g m h le = ground (
  arith,
  lookup-delete other host (drop_quiet g.lockout now g.failures),
  lookup-drop_quiet g.lockout now other g.failures m,
)

-- A right password lets its address in, ends its run of failures, and leaves the others alone.
pub verify-accepted :
    (source : Bytes → Bool) (t u later : ℕ) (host other password : Bytes) (g : PasswordGuard)
    → locked_out g t host ≡ false
    → source password ≡ true
    → ((verify source true t u host password g).1 ≡ accepted)
      × (locked_out (verify source true t u host password g).0 later other
          ≡ (if bytes_eq host other then false else locked_out g later other))
unfolding verify locked_out forget
verify-accepted source t u later host other password g h k =
    ground (arith, lookup-delete other host g.failures)

-- Wrong passwords from one host, each at its own time.
unfoldable pub attempts : List ℕ → Bytes → PasswordGuard → PasswordGuard
attempts [] host g = g
attempts (t ∷ ts) host g = attempts ts host (verify (λ password. false) true t t host [] g).0

-- Each attempt comes within the lockout time of the one before it.
unfoldable pub IsRun : ℕ → ℕ → List ℕ → Type 0
IsRun lockout last [] = Unit {0}
IsRun lockout last (t ∷ ts) = (t < last + lockout) × IsRun lockout t ts

abbrev pub final : ℕ → List ℕ → ℕ
final last [] = last
final last (t ∷ ts) = final t ts

-- A failure of a host with a recent run that is not yet long enough makes the run one longer.
attempt_counts :
    (t n l : ℕ) (host : Bytes) (g : PasswordGuard)
    → IsMap g.failures
    → lookup host g.failures ≡ some (record { count = n; last = l })
    → n < g.lockout_failures
    → t < l + g.lockout
    → lookup host (verify (λ password. false) true t t host [] g).0.failures
      ≡ some (record { count = n + 1; last = t })
unfolding verify locked_out record_failure lookup is_recent
attempt_counts t n l host g m e lt recent =
    ground (arith, bytes_eq_refl host, lookup-drop_quiet g.lockout t host g.failures m)

IsMap-delete : (host : Bytes) (fs : Failures) → IsMap fs → IsMap (delete host fs)
unfolding delete IsMap
IsMap-delete host [] m = tt
IsMap-delete host ((h, f) ∷ fs) m =
    ground (arith, IsMap-delete host fs m.1, lookup-delete h host fs)

IsMap-drop_quiet : (lockout now : ℕ) (fs : Failures) → IsMap fs → IsMap (drop_quiet lockout now fs)
unfolding drop_quiet IsMap
IsMap-drop_quiet lockout now [] m = tt
IsMap-drop_quiet lockout now ((h, f) ∷ fs) m =
    ground (arith, IsMap-drop_quiet lockout now fs m.1, lookup-drop_quiet lockout now h fs m.1)

-- Every check keeps one entry for a host.
pub verify-IsMap :
    (source : Bytes → Bool) (slot : Bool) (t u : ℕ) (host password : Bytes) (g : PasswordGuard)
    → IsMap g.failures
    → IsMap (verify source slot t u host password g).0.failures
unfolding verify record_failure forget IsMap
verify-IsMap source slot t u host password g m = ground (
  arith,
  IsMap-delete host g.failures m,
  IsMap-delete host (drop_quiet g.lockout u g.failures) (IsMap-drop_quiet g.lockout u g.failures m),
  lookup-delete host host (drop_quiet g.lockout u g.failures),
  bytes_eq_refl host,
)

verify-settings :
    (t : ℕ) (host : Bytes) (g : PasswordGuard)
    → ((verify (λ password. false) true t t host [] g).0.lockout ≡ g.lockout)
      × ((verify (λ password. false) true t t host [] g).0.lockout_failures ≡ g.lockout_failures)
unfolding verify record_failure
verify-settings t host g = ground arith

attempts_count :
    (ts : List ℕ) (n l : ℕ) (host : Bytes) (g : PasswordGuard)
    → IsMap g.failures
    → lookup host g.failures ≡ some (record { count = n; last = l })
    → n + length ts ≤ g.lockout_failures
    → IsRun g.lockout l ts
    → (lookup host (attempts ts host g).failures
        ≡ some (record { count = n + length ts; last = final l ts }))
      × ((attempts ts host g).lockout ≡ g.lockout)
      × ((attempts ts host g).lockout_failures ≡ g.lockout_failures)
unfolding attempts IsRun
attempts_count [] n l host g m e le run = ground arith
attempts_count (t ∷ ts) n l host g m e le run = ground (
  arith,
  attempt_counts t n l host g m e (omega arith) run.0,
  verify-settings t host g,
  attempts_count ts (n + 1) t host (verify (λ password. false) true t t host [] g).0
      (verify-IsMap (λ password. false) true t t host [] g m),
)

first_attempt :
    (t : ℕ) (host : Bytes) (g : PasswordGuard)
    → IsMap g.failures
    → lookup host g.failures ≡ none
    → lookup host (verify (λ password. false) true t t host [] g).0.failures
      ≡ some (record { count = 1; last = t })
unfolding verify locked_out record_failure lookup
first_attempt t host g m e =
    ground (arith, bytes_eq_refl host, lookup-drop_quiet g.lockout t host g.failures m)

-- An address that has no failures yet and then gets lockout_failures passwords wrong, each within
-- the lockout time of the one before, is locked out until that time has passed since the last.
pub attempts-locked_out :
    (t now : ℕ) (ts : List ℕ) (host : Bytes) (g : PasswordGuard)
    → IsMap g.failures
    → lookup host g.failures ≡ none
    → length (t ∷ ts) ≡ g.lockout_failures
    → IsRun g.lockout t ts
    → locked_out (attempts (t ∷ ts) host g) now host ≡ ltb now (final t ts + g.lockout)
unfolding attempts locked_out is_recent
attempts-locked_out t now ts host g m e len run = ground (
  arith,
  verify-settings t host g,
  attempts_count ts 1 t host (verify (λ password. false) true t t host [] g).0
      (verify-IsMap (λ password. false) true t t host [] g m) (first_attempt t host g m e),
)
