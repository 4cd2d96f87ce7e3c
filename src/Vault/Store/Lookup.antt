-- ===== src/Vault/Store/Lookup.antt =====
-- internal/vault/store.go: what an identity lookup finds after a change, and unique fingerprints.
use sshush.Prelude.{
  ◌≡◌, refl, Bool, true, false, ◌||◌, Option, none, some, List, [], ◌∷◌, Bytes, bytes_eq,
  bytes_eq_iff, if◌then◌else◌, arith,
}
use sshush.Vault.Types.{Identity}
use sshush.Vault.Store.{find_identity, replace_or_append, without, has_identity}

pub find_identity-replace_or_append :
    (fp : Bytes) (id : Identity) (is : List Identity)
    → find_identity fp (replace_or_append id is)
      ≡ (if bytes_eq id.fingerprint fp then some id else find_identity fp is)
unfolding find_identity replace_or_append
find_identity-replace_or_append fp id [] = refl
find_identity-replace_or_append fp id (i ∷ is) = ground (
  arith,
  find_identity-replace_or_append fp id is,
  bytes_eq_iff i.fingerprint id.fingerprint,
  bytes_eq_iff i.fingerprint fp,
  bytes_eq_iff id.fingerprint fp,
)

pub find_identity-without :
    (fp k : Bytes) (is : List Identity)
    → find_identity fp (without k is) ≡ (if bytes_eq k fp then none else find_identity fp is)
unfolding find_identity without
find_identity-without fp k [] = ground arith
find_identity-without fp k (i ∷ is) = ground (
  arith,
  find_identity-without fp k is,
  bytes_eq_iff i.fingerprint k,
  bytes_eq_iff i.fingerprint fp,
  bytes_eq_iff k fp,
)

abbrev pub is_some {ℓ} : {A : Type ℓ} → Option A → Bool
is_some none = false
is_some (some a) = true

pub has_identity-eq-find :
    (fp : Bytes) (is : List Identity) → has_identity fp is ≡ is_some (find_identity fp is)
unfolding find_identity has_identity
has_identity-eq-find fp [] = refl
has_identity-eq-find fp (i ∷ is) = ground (arith, has_identity-eq-find fp is)

-- The identity that a lookup finds has the fingerprint that was looked up.
pub fingerprint-find :
    (fp : Bytes) (is : List Identity) {i : Identity}
    → find_identity fp is ≡ some i
    → i.fingerprint ≡ fp
unfolding find_identity
fingerprint-find fp [] h = cc
fingerprint-find fp (j ∷ is) {i} h =
    ground (arith, fingerprint-find fp is {i = i}, bytes_eq_iff j.fingerprint fp)

-- No two identities have one fingerprint.
abbrev pub Distinct : List Identity → Type 0
Distinct [] = Unit {0}
Distinct (i ∷ is) = (find_identity i.fingerprint is ≡ none) × Distinct is

pub replace_or_append-Distinct :
    (id : Identity) (is : List Identity) → Distinct is → Distinct (replace_or_append id is)
unfolding replace_or_append find_identity
replace_or_append-Distinct id [] d = (refl, tt)
replace_or_append-Distinct id (i ∷ is) d = ground (
  arith,
  replace_or_append-Distinct id is d.1,
  find_identity-replace_or_append i.fingerprint id is,
  bytes_eq_iff i.fingerprint id.fingerprint,
  bytes_eq_iff id.fingerprint i.fingerprint,
)

pub without-Distinct : (k : Bytes) (is : List Identity) → Distinct is → Distinct (without k is)
unfolding without
without-Distinct k [] d = tt
without-Distinct k (i ∷ is) d = ground (
  arith,
  without-Distinct k is d.1,
  find_identity-without i.fingerprint k is,
  bytes_eq_iff k i.fingerprint,
)

pub has_identity-replace_or_append :
    (fp : Bytes) (id : Identity) (is : List Identity)
    → has_identity fp (replace_or_append id is) ≡ (bytes_eq id.fingerprint fp || has_identity fp is)
unfolding has_identity replace_or_append
has_identity-replace_or_append fp id [] = refl
has_identity-replace_or_append fp id (i ∷ is) = ground (
  arith,
  has_identity-replace_or_append fp id is,
  bytes_eq_iff i.fingerprint id.fingerprint,
  bytes_eq_iff i.fingerprint fp,
  bytes_eq_iff id.fingerprint fp,
)

pub has_identity-without :
    (fp k : Bytes) (is : List Identity)
    → has_identity fp (without k is) ≡ (if bytes_eq k fp then false else has_identity fp is)
unfolding has_identity without
has_identity-without fp k [] = ground arith
has_identity-without fp k (i ∷ is) = ground (
  arith,
  has_identity-without fp k is,
  bytes_eq_iff i.fingerprint k,
  bytes_eq_iff i.fingerprint fp,
  bytes_eq_iff k fp,
)
