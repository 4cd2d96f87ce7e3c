-- ===== src/External.antt =====
-- What the program calls and does not implement: golang.org/x/crypto (Argon2id, ssh, ssh/agent) and
-- the standard library's AES-GCM, Ed25519 and X.509. They are parameters of the model, and what the
-- program relies on is stated as named laws.
use sshush.Prelude.{ℕ, ◌≡◌, Bool, Option, some, Bytes, length}

-- An `ssh.PublicKey`: Type() and Marshal().
pub record PublicKey : Type 0 where
  pub key_type : Bytes
  pub blob : Bytes

-- The values that the type switch of marshalPrivateKey tells apart. Of a key of another type the
-- model knows only a handle.
pub data PrivateKey : Type 0 where
  ed25519 : Bytes → PrivateKey
  ed25519_pointer : Bytes → PrivateKey
  ed25519_nil : PrivateKey
  other_key : Bytes → PrivateKey

pub record PemBlock : Type 0 where
  pub block_type : Bytes
  pub contents : Bytes

pub record OuterKey : Type 0 where
  pub cipher_name : Bytes
  pub num_keys : ℕ
  pub public_key : Bytes
  pub private_key : Bytes

pub record InnerKey : Type 0 where
  pub check1 : ℕ
  pub check2 : ℕ
  pub key_type : Bytes
  pub rest : Bytes

pub record External : Type 0 where
  -- argon2.IDKey(password, salt, time, memory, threads, keyLen)
  pub argon2_id_key : Bytes → Bytes → ℕ → ℕ → ℕ → ℕ → Bytes
  -- aead.Seal and aead.Open of AES-GCM: key, nonce, text
  pub gcm_seal : Bytes → Bytes → Bytes → Bytes
  pub gcm_open : Bytes → Bytes → Bytes → Option Bytes
  -- ed25519.PrivateKey.Seed and ed25519.NewKeyFromSeed
  pub ed25519_seed : Bytes → Bytes
  pub ed25519_from_seed : Bytes → Bytes
  -- x509.MarshalPKCS8PrivateKey and x509.ParsePKCS8PrivateKey
  pub marshal_pkcs8 : PrivateKey → Option Bytes
  pub parse_pkcs8 : Bytes → Option PrivateKey
  -- ssh.NewSignerFromKey(key).PublicKey(), and ssh.FingerprintSHA256
  pub signer_public_key : PrivateKey → Option PublicKey
  pub fingerprint_sha256 : PublicKey → Bytes
  -- signer.Sign, and SignWithAlgorithm where the signer is an ssh.AlgorithmSigner
  pub sign : PrivateKey → Bytes → Option Bytes
  pub is_algorithm_signer : PrivateKey → Bool
  pub sign_with_algorithm : PrivateKey → Bytes → Bytes → Option Bytes
  pub parse_raw_private_key : Bytes → Option PrivateKey
  -- pem.Decode's block, and ssh.Unmarshal at the structures of openssh.ParsePrivateKeyBlob: the
  -- outer one, the one behind its PrivateKey, and the comment of the three key structures
  pub pem_decode : Bytes → Option PemBlock
  pub unmarshal_outer : Bytes → Option OuterKey
  pub unmarshal_inner : Bytes → Option InnerKey
  pub unmarshal_ed25519_comment : Bytes → Option Bytes
  pub unmarshal_rsa_comment : Bytes → Option Bytes
  pub unmarshal_ecdsa_comment : Bytes → Option Bytes

-- Documented behaviour of AES-GCM and Argon2id: opening what was sealed under the same key and
-- nonce gives the text back, and a derived key has the length that was asked for.
pub record CryptoLaws (x : External) : Type 0 where
  pub open-seal :
      (key nonce plain : Bytes) → x.gcm_open key nonce (x.gcm_seal key nonce plain) ≡ some plain
  pub length-argon2 :
      (password salt : Bytes) (time memory threads n : ℕ)
      → length (x.argon2_id_key password salt time memory threads n) ≡ n

-- Documented behaviour of crypto/ed25519: Seed is the inverse of NewKeyFromSeed on seeds of 32
-- bytes, which it takes.
pub record KeyLaws (x : External) : Type 0 where
  pub seed-from_seed :
      (seed : Bytes) → length seed ≡ 32 → x.ed25519_seed (x.ed25519_from_seed seed) ≡ seed

-- A key that NewKeyFromSeed makes.
abbrev pub IsEd25519Key : External → Bytes → Type 0
IsEd25519Key x key = (seed : Bytes) × (length seed ≡ 32) × (key ≡ x.ed25519_from_seed seed)

-- The classes of code points of the standard library's package unicode.
pub record Unicode : Type 0 where
  pub is_upper : ℕ → Bool
  pub is_lower : ℕ → Bool
  pub is_letter : ℕ → Bool
  pub is_digit : ℕ → Bool
  pub is_space : ℕ → Bool
