-- ===== src/Examples/Toy.antt =====
-- External code on which the laws hold: a derived key is the passphrase and the salt, padded; a
-- sealed text is the text behind its key; an Ed25519 key is its seed twice, and its public key and
-- its fingerprint are the seed.
use sshush.Prelude.{
  ℕ, ◌≡◌, refl, Bool, true, false, Option, none, some, [], ◌∷◌, ◌++◌, Bytes, length, take, drop,
  replicate, bytes_eq, bytes_eq_refl, codes, if◌then◌else◌, arith, length-take, length-append,
  take-append, drop-append, suc, zero,
}
use sshush.External.{
  External, CryptoLaws, KeyLaws, PublicKey, PrivateKey, ed25519, ed25519_pointer, ed25519_nil,
  other_key, Unicode,
}
use sshush.Vault.Types.{Identity, VaultStore, absent}
use sshush.Vault.Store.{Io}
use sshush.Vault.State.{World, VaultAgent}
use sshush.Vault.Agent.{AddedKey}

abbrev toy_derive : Bytes → Bytes → ℕ → ℕ → ℕ → ℕ → Bytes
toy_derive password salt time memory threads n = take n (password ++ salt ++ replicate n 0)

abbrev toy_open : Bytes → Bytes → Bytes → Option Bytes
toy_open key nonce text =
    if bytes_eq (take (length key) text) key then some (drop (length key) text) else none

abbrev public_of : Bytes → PublicKey
public_of k = record { key_type = codes "ssh-ed25519"; blob = take 32 k }

abbrev toy_public : PrivateKey → Option PublicKey
toy_public (ed25519 k) = some (public_of k)
toy_public (ed25519_pointer k) = some (public_of k)
toy_public ed25519_nil = none
toy_public (other_key k) = none

abbrev pub toy : External
toy = record {
  argon2_id_key = toy_derive;
  gcm_seal = λ key nonce plain. key ++ plain;
  gcm_open = toy_open;
  ed25519_seed = λ key. take 32 key;
  ed25519_from_seed = λ seed. seed ++ seed;
  marshal_pkcs8 = λ key. none;
  parse_pkcs8 = λ bytes. none;
  signer_public_key = toy_public;
  fingerprint_sha256 = λ (key : PublicKey). key.blob;
  sign = λ key message. some message;
  is_algorithm_signer = λ key. false;
  sign_with_algorithm = λ key message algorithm. none;
  parse_raw_private_key = λ pem. some (ed25519 (pem ++ pem));
  pem_decode = λ pem. none;
  unmarshal_outer = λ bytes. none;
  unmarshal_inner = λ bytes. none;
  unmarshal_ed25519_comment = λ bytes. none;
  unmarshal_rsa_comment = λ bytes. none;
  unmarshal_ecdsa_comment = λ bytes. none;
}

toy_open-seal : (key nonce plain : Bytes) → toy_open key nonce (key ++ plain) ≡ some plain
toy_open-seal key nonce plain =
    rw (take-append key plain, drop-append key plain, bytes_eq_refl key) refl

length-replicate : (n a : ℕ) → length (replicate n a) ≡ n
length-replicate zero a = refl
length-replicate (suc n) a = omega (arith, length-replicate n a)

length-toy_derive :
    (password salt : Bytes) (time memory threads n : ℕ)
    → length (toy_derive password salt time memory threads n) ≡ n
length-toy_derive password salt time memory threads n =
    length-take {0} n (password ++ salt ++ replicate n 0) (
      omega (
        arith,
        length-append {0} (password ++ salt) (replicate n 0),
        length-append {0} password salt,
        length-replicate n 0,
      ))

pub toy_crypto : CryptoLaws toy
toy_crypto = record { open-seal = toy_open-seal; length-argon2 = length-toy_derive }

take_all : (xs : Bytes) (n : ℕ) → length xs ≡ n → take n (xs ++ xs) ≡ xs
take_all xs n h = rw (← h) (take-append xs xs)

pub toy_keys : KeyLaws toy
toy_keys = record { seed-from_seed = λ seed h. take_all seed 32 h }

-- Every letter counts as lower case.
abbrev pub ascii : Unicode
ascii = record {
  is_upper = λ r. false;
  is_lower = λ r. true;
  is_letter = λ r. true;
  is_digit = λ r. false;
  is_space = λ r. false;
}

abbrev pub all_well : Io
all_well step = false

abbrev pub nonce : Bytes
nonce = codes "0123456789ab"

abbrev pub master : Bytes
master = codes "the master key with its 32 bytes"

abbrev pub world : World
world = record { now = 1000; timestamp = codes "now"; random = some nonce; io = all_well }

abbrev pub seed : Bytes
seed = codes "a seed of an ed25519 key: 32 byt"

abbrev pub key : Bytes
key = seed ++ seed

abbrev pub public : PublicKey
public = record { key_type = codes "ssh-ed25519"; blob = seed }

-- A stored identity; its private key is sealed under the master key.
abbrev pub identity : Bytes → Bytes → Bool → Option ℕ → Identity
identity fp comment autoload expires = record {
  fingerprint = fp;
  public_key = fp;
  encrypted_blob = nonce ++ master ++ seed;
  comment = comment;
  filepath = [];
  access_time = [];
  added_at = codes "then";
  autoload = autoload;
  expires_at = expires;
}

abbrev pub work : Identity
work = identity seed (codes "work") true none

abbrev pub home : Identity
home = identity (codes "SHA256:home") (codes "home") false none

abbrev pub store : VaultStore
store = record {
  metadata = none;
  identities = work ∷ home ∷ [];
  path_file = absent;
  tmp_file = absent;
}

abbrev pub locked_agent : VaultAgent
locked_agent = record {
  store = store;
  master_key = none;
  session_autoload0 = [];
  session_unloaded = [];
}

abbrev pub open_agent : VaultAgent
open_agent = record locked_agent { master_key = some master }

abbrev pub added : AddedKey
added = record {
  private_key = ed25519 key;
  certificate = none;
  comment = codes "new";
  lifetime_secs = 0;
  confirm_before_use = false;
  constraint_extensions = [];
}
