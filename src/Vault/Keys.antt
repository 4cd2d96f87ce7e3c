-- ===== src/Vault/Keys.antt =====
-- internal/vault/keys.go: private keys to bytes and back.
use sshush.Prelude.{
  ℕ, ◌≡◌, refl, Bytes, length, ◌==◌, ==_iff, bytes_eq, bytes_eq_refl, codes, if◌then◌else◌,
}
use sshush.External.{
  External, KeyLaws, IsEd25519Key, PrivateKey, ed25519, ed25519_pointer, ed25519_nil, other_key,
  PublicKey,
}
use sshush.Vault.Cipher.{
  Result, ok, err, failed, nil_private_key, marshal_key, parse_key, bad_seed_length, or_err,
  require, ◌>>◌,
}

abbrev pub seed_size : ℕ
seed_size = 32

abbrev pub ed25519_name : Bytes
ed25519_name = codes "ssh-ed25519"

unfoldable pub marshal_private_key : External → PrivateKey → Result Bytes
marshal_private_key x (ed25519 k) = ok (x.ed25519_seed k)
marshal_private_key x (ed25519_pointer k) = ok (x.ed25519_seed k)
marshal_private_key x ed25519_nil = err (failed nil_private_key)
marshal_private_key x (other_key k) = or_err (x.marshal_pkcs8 (other_key k)) (failed marshal_key)

unfoldable pub unmarshal_private_key : External → Bytes → Bytes → Result PrivateKey
unmarshal_private_key x seed key_type =
    if bytes_eq key_type ed25519_name
    then (do
      require (length seed == seed_size) (failed bad_seed_length)
      ok (ed25519 (x.ed25519_from_seed seed)))
    else or_err (x.parse_pkcs8 seed) (failed parse_key)

unfoldable pub fingerprint : External → PublicKey → Bytes
fingerprint x pub_key = x.fingerprint_sha256 pub_key

-- An ed25519 key, given by value or by pointer, comes back from its stored form.
pub unmarshal-marshal_ed25519 :
    (x : External) (key : Bytes)
    → KeyLaws x
    → IsEd25519Key x key
    → (marshal_private_key x (ed25519 key) ≡ ok (x.ed25519_seed key))
      × (marshal_private_key x (ed25519_pointer key) ≡ ok (x.ed25519_seed key))
      × (unmarshal_private_key x (x.ed25519_seed key) ed25519_name ≡ ok (ed25519 key))
unfolding marshal_private_key unmarshal_private_key
unmarshal-marshal_ed25519 x key laws (seed, len, made) = (
  refl,
  refl,
  rw
      (
        made,
        laws.seed-from_seed seed len,
        bytes_eq_refl ed25519_name,
        (==_iff (length seed) 32).1 len,
      )
      refl,
)
