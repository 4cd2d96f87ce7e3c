-- ===== src/PasswordGuard.antt =====
-- internal/server/password_guard.go: the lockout of an address after failed passwords. The delay
-- after a failure takes time and changes nothing; a waiting check either gets a slot or the client
-- has left, which is an input here. Times are nanoseconds of the clock.
pub mod Lockout
use sshush.Prelude.{
  ℕ, ◌+◌, ◌-◌, ◌*◌, Bool, true, false, ◌&&◌, not, Option, none, some, List, [], ◌∷◌, Bytes,
  bytes_eq, leb, ltb, ◌==◌, if◌then◌else◌,
}

abbrev pub max_concurrent_password_checks : ℕ
max_concurrent_password_checks = 2

abbrev pub password_failure_delay : ℕ
password_failure_delay = 1000000000

abbrev pub password_lockout_failures : ℕ
password_lockout_failures = 5

abbrev pub password_lockout : ℕ
password_lockout = 60000000000

pub record AddressFailures : Type 0 where
  pub count : ℕ
  pub last : ℕ

-- The map from hosts to their failures: one entry for a host.
abbrev pub Failures : Type 0
Failures = List (Bytes × AddressFailures)

unfoldable pub lookup : Bytes → Failures → Option AddressFailures
lookup host [] = none
lookup host ((h, f) ∷ fs) = if bytes_eq h host then some f else lookup host fs

unfoldable pub delete : Bytes → Failures → Failures
delete host [] = []
delete host ((h, f) ∷ fs) =
    let rest = delete host fs in if bytes_eq h host then rest else (h, f) ∷ rest

pub record PasswordGuard : Type 0 where
  pub failure_delay : ℕ
  pub lockout_failures : ℕ
  pub lockout : ℕ
  pub failures : Failures

unfoldable pub new_password_guard : PasswordGuard
new_password_guard = record {
  failure_delay = password_failure_delay;
  lockout_failures = password_lockout_failures;
  lockout = password_lockout;
  failures = [];
}

-- `now.Sub(last) < lockout`, where the clock may have been set back.
unfoldable pub is_recent : ℕ → ℕ → AddressFailures → Bool
is_recent lockout now f = ltb now (f.last + lockout)

abbrev is_shut : PasswordGuard → ℕ → Option AddressFailures → Bool
is_shut g now none = false
is_shut g now (some f) = leb g.lockout_failures f.count && is_recent g.lockout now f

unfoldable pub locked_out : PasswordGuard → ℕ → Bytes → Bool
unfolding is_recent
locked_out g now host = is_shut g now (lookup host g.failures)

-- The loop of recordFailure that forgets the runs that have gone quiet.
unfoldable pub drop_quiet : ℕ → ℕ → Failures → Failures
drop_quiet lockout now [] = []
drop_quiet lockout now ((h, f) ∷ fs) =
    let rest = drop_quiet lockout now fs in if is_recent lockout now f then (h, f) ∷ rest else rest

abbrev pub count_of : Option AddressFailures → ℕ
count_of none = 0
count_of (some f) = f.count

-- The new failures, and whether this failure is the one that locks the host out.
unfoldable pub record_failure : ℕ → Bytes → PasswordGuard → PasswordGuard × Bool
record_failure now host g =
    let kept : Failures = drop_quiet g.lockout now g.failures in
    let n : ℕ = count_of (lookup host kept) + 1 in
    (
      record g { failures = (host, record { count = n; last = now }) ∷ delete host kept },
      n == g.lockout_failures,
    )

unfoldable pub forget : Bytes → PasswordGuard → PasswordGuard
forget host g = record g { failures = delete host g.failures }

pub data Verdict : Type 0 where
  accepted refused_locked_out refused_client_left : Verdict
  -- Whether this failure locked the address out.
  wrong : Bool → Verdict

abbrev failed : PasswordGuard × Bool → PasswordGuard × Verdict
failed (g, now_locked_out) = (g, wrong now_locked_out)

-- `slot` tells whether the check got its turn, `verify` is the source's answer to the password.
-- `checked_at` is the clock at the check of the lockout, `failed_at` that of recordFailure.
unfoldable pub verify :
    (Bytes → Bool) → Bool → ℕ → ℕ → Bytes → Bytes → PasswordGuard → PasswordGuard × Verdict
unfolding locked_out record_failure forget
verify source slot checked_at failed_at host password g =
    if locked_out g checked_at host
    then (g, refused_locked_out)
    else if not slot
    then (g, refused_client_left)
    else if source password
    then (forget host g, accepted)
    else failed (record_failure failed_at host g)

-- The host of an address: `none` is a nil address, and `split_host_port` is net.SplitHostPort.
unfoldable pub address_host : (Bytes → Option Bytes) → Option Bytes → Bytes
address_host split_host_port none = []
address_host split_host_port (some addr) = elim (split_host_port addr) [
  | none ↦ addr
  | some host ↦ host
]
