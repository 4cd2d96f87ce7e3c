-- ===== src/KeyPairs.antt =====
-- internal/keys: key pairs that are generated, read from a file and written to files. The drawing of
-- keys, their encoding and the file system are parameters.
use sshush.Prelude.{
  ℕ, Bool, true, false, ◌||◌, ◌==◌, Option, none, some, ◌++◌, Bytes, codes, bytes_eq, is_empty,
  if◌then◌else◌, ltb,
}
use sshush.Prelude.Text.{trim_space}
use sshush.Prelude.FilePath.{join_path}
use sshush.Prelude.Outcome.{Outcome, ok, err, panic, ◌>>=◌}
use sshush.External.{External, PublicKey, PrivateKey}
use sshush.Openssh.{Parse, ParsedKey, encrypted_private_key, parse_private_key_blob}
use sshush.Paths.{Host}
use sshush.KeyFiles.{KeyReader, RawKey, raw_key, passphrase_missing, not_parsed}

pub data Curve : Type 0 where
  p256 p384 p521 : Curve

-- What the crypto packages and x/crypto/ssh give; `none` is an error.
pub record KeyMaker : Type 0 where
  pub generate_ed25519 : Option PrivateKey
  pub generate_rsa : ℕ → Option PrivateKey
  pub generate_ecdsa : Curve → Option PrivateKey
  -- ssh.MarshalPrivateKey, and pem.EncodeToMemory of its block
  pub marshal_private_key : PrivateKey → Bytes → Option Bytes
  pub marshal_authorized_key : PublicKey → Bytes

pub data KeyError : Type 0 where
  not_generated rsa_too_small rsa_unsupported curve_unsupported type_unsupported : KeyError
  not_marshalled no_signer not_read encrypted not_openssh not_parsed_raw : KeyError

abbrev pub Made : Type 0 → Type 0
Made = Outcome KeyError

abbrev or_fail : {A : Type 0} → Option A → KeyError → Made A
or_fail none e = err e
or_fail (some a) e = ok a

-- `user_name` and `host_name` are what user.Current and os.Hostname give.
unfoldable pub default_comment : Option Bytes → Option Bytes → Bytes
default_comment none none = codes "user@localhost"
default_comment none (some host) = codes "user" ++ codes "@" ++ host
default_comment (some name) none = name ++ codes "@" ++ codes "localhost"
default_comment (some name) (some host) = name ++ codes "@" ++ host

pub record KeyPair : Type 0 where
  pub private_pem : Bytes
  pub public_line : Bytes

module _ (x : External) (m : KeyMaker) where
  unfoldable pub format_public_key : PublicKey → Bytes → Bytes
  unfolding trim_space
  format_public_key k comment =
      let line = trim_space (m.marshal_authorized_key k) in
      let trimmed = trim_space comment in
      if is_empty trimmed then line ++ codes "\n" else line ++ codes " " ++ trimmed ++ codes "\n"

  abbrev rsa_key : ℕ → Made PrivateKey
  rsa_key bits =
      if ltb bits 2048
      then err rsa_too_small
      else if bits == 2048 || bits == 3072 || bits == 4096
      then or_fail (m.generate_rsa bits) not_generated
      else err rsa_unsupported

  abbrev ecdsa_key : ℕ → Made PrivateKey
  ecdsa_key bits =
      if bits == 256 || bits == 0
      then or_fail (m.generate_ecdsa p256) not_generated
      else if bits == 384
      then or_fail (m.generate_ecdsa p384) not_generated
      else if bits == 521
      then or_fail (m.generate_ecdsa p521) not_generated
      else err curve_unsupported

  -- The switch on the key type, with a size that is not negative.
  abbrev new_key : Bytes → ℕ → Made PrivateKey
  new_key key_type bits =
      if bytes_eq key_type (codes "ed25519")
      then or_fail m.generate_ed25519 not_generated
      else if bytes_eq key_type (codes "rsa")
      then rsa_key (if bits == 0 then 4096 else bits)
      else if bytes_eq key_type (codes "ecdsa")
      then ecdsa_key bits
      else err type_unsupported

  unfoldable pub generate : Bytes → ℕ → Bytes → Made KeyPair
  unfolding trim_space
  generate key_type bits comment = do
    key ← new_key key_type bits
    pem ← or_fail (m.marshal_private_key key comment) not_marshalled
    public_key ← or_fail (x.signer_public_key key) no_signer
    let line = trim_space (m.marshal_authorized_key public_key)
    ok (record { private_pem = pem; public_line = line ++ codes " " ++ comment ++ codes "\n" })

abbrev material_of : Bytes → Parse ParsedKey → Made ParsedKey
material_of path (ok parsed) = ok (record parsed { filepath = path })
material_of path (err encrypted_private_key) = err encrypted
material_of path (err other) = err not_openssh
material_of path panic = panic

abbrev raw_material : RawKey → Made PrivateKey
raw_material (raw_key k) = ok k
raw_material passphrase_missing = err encrypted
raw_material not_parsed = err not_parsed_raw

pub record KeyMaterial : Type 0 where
  pub parsed : ParsedKey
  pub key : PrivateKey
  pub signer : PublicKey

unfoldable pub load_key_material : External → KeyReader → Host → Bytes → Made KeyMaterial
load_key_material x r h path = do
  content ← or_fail (h.read_file path) not_read
  parsed ← material_of path (parse_private_key_blob x content)
  key ← raw_material (r.parse_raw_key content)
  signer ← or_fail (x.signer_public_key key) no_signer
  ok (record { parsed = parsed; key = key; signer = signer })

unfoldable pub public_key_from_pem : External → KeyReader → Bytes → Made (PublicKey × PrivateKey)
public_key_from_pem x r pem = do
  key ← raw_material (r.parse_raw_key pem)
  signer ← or_fail (x.signer_public_key key) no_signer
  ok (signer, key)

-- The calls of package os, each with whether it succeeds; a file is written with its permissions.
pub record Disk (S : Type 0) : Type 0 where
  pub mkdir_all : Bytes → ℕ → S → S × Bool
  pub write_file : Bytes → Bytes → ℕ → S → S × Bool
  pub exists : Bytes → S → Bool

pub data SaveError : Type 0 where
  directory_failed private_failed public_failed marshal_failed signer_failed : SaveError

-- 0o700, 0o600 and 0o644
abbrev private_dir : ℕ
private_dir = 448

abbrev private_file : ℕ
private_file = 384

abbrev public_file : ℕ
public_file = 420

module _ {S : Type 0} (d : Disk S) where
  -- A step that failed ends the saving.
  abbrev and_then : SaveError → (S → S × Option SaveError) → S × Bool → S × Option SaveError
  and_then e next (s, true) = next s
  and_then e next (s, false) = (s, some e)

  abbrev write_public : Bytes → Bytes → S → S × Option SaveError
  write_public path line s =
      and_then public_failed (λ t. (t, none)) (d.write_file path line public_file s)

  unfoldable pub save_pair : Bytes → Bytes → Bytes → Bytes → S → S × Option SaveError
  unfolding join_path
  save_pair dir filename pem line s =
      let path = join_path dir filename in
      and_then directory_failed
        (λ t.
          and_then private_failed (write_public (path ++ codes ".pub") line)
            (d.write_file path pem private_file t))
        (d.mkdir_all dir private_dir s)

  module _ (x : External) (m : KeyMaker) where
    abbrev write_signed : Option PublicKey → Bytes → Bytes → S → S × Option SaveError
    write_signed none comment path s = (s, some signer_failed)
    write_signed (some k) comment path s = write_public path (format_public_key x m k comment) s

    unfoldable pub write_pub : PrivateKey → Bytes → Bytes → S → S × Option SaveError
    unfolding format_public_key
    write_pub key comment path s = write_signed (x.signer_public_key key) comment path s

    abbrev write_companion : PrivateKey → Bytes → Bytes → S → S × Option SaveError
    write_companion key comment path s =
        let written = write_pub key comment path s in if d.exists path s then written else (s, none)

    abbrev save_marshalled : Option Bytes → PrivateKey → Bytes → Bytes → S → S × Option SaveError
    save_marshalled none key comment path s = (s, some marshal_failed)
    save_marshalled (some pem) key comment path s =
        and_then private_failed (write_companion key comment (path ++ codes ".pub"))
          (d.write_file path pem private_file s)

    unfoldable pub save_with_comment : PrivateKey → Bytes → Bytes → S → S × Option SaveError
    unfolding write_pub
    save_with_comment key comment path s =
        save_marshalled (m.marshal_private_key key comment) key comment path s
