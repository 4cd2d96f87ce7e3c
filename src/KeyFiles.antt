-- ===== src/KeyFiles.antt =====
-- internal/agent/keys.go: private keys read from files, and the registry of the file that each
-- fingerprint came from. The files are those of Paths.Host.
pub mod Registry
use sshush.Prelude.{
  Bool, true, false, ◌||◌, Option, none, some, List, [], ◌∷◌, Bytes, bytes_eq, is_empty,
  if◌then◌else◌,
}
use sshush.Prelude.FilePath.{base}
use sshush.Prelude.Outcome.{Outcome, ok, err, panic, require, ◌>>=◌, ◌>>◌}
use sshush.External.{External, PublicKey, PrivateKey}
use sshush.Openssh.{Parse, ParsedKey, ParseError, encrypted_private_key, parse_private_key_blob}
use sshush.Paths.{Host}

-- What ssh.ParseRawPrivateKey comes back with; a PassphraseMissingError is told apart.
pub data RawKey : Type 0 where
  raw_key : PrivateKey → RawKey
  passphrase_missing not_parsed : RawKey

-- The two further calls of ParseKeyFromPath.
pub record KeyReader : Type 0 where
  -- whether pem.Decode finds a block whose header Proc-Type is `4,ENCRYPTED`
  pub has_encrypted_header : Bytes → Bool
  pub parse_raw_key : Bytes → RawKey

pub data KeyFileError : Type 0 where
  read_failed encrypted_key not_a_key no_signer : KeyFileError

pub record FileKey : Type 0 where
  pub public_key : PublicKey
  pub comment : Bytes
  pub private_key : PrivateKey

abbrev pub Read : Type 0 → Type 0
Read = Outcome KeyFileError

abbrev contents_of : Option Bytes → Read Bytes
contents_of none = err read_failed
contents_of (some content) = ok content

-- `errors.Is(err, ErrEncryptedPrivateKey)` ends the reading; another error leaves no comment.
abbrev open_comment : Parse ParsedKey → Read Bytes
open_comment (ok parsed) = ok parsed.comment
open_comment (err encrypted_private_key) = err encrypted_key
open_comment (err other) = ok []
open_comment panic = panic

abbrev raw_of : RawKey → Read PrivateKey
raw_of (raw_key k) = ok k
raw_of passphrase_missing = err encrypted_key
raw_of not_parsed = err not_a_key

abbrev signer_of : Option PublicKey → Read PublicKey
signer_of none = err no_signer
signer_of (some k) = ok k

abbrev or_base : Bytes → Bytes → Bytes
or_base comment path = if is_empty comment then base path else comment

unfoldable pub parse_key_from_path : External → KeyReader → Host → Bytes → Read FileKey
unfolding base
parse_key_from_path x r h path = do
  content ← contents_of (h.read_file path)
  require (if r.has_encrypted_header content then false else true) encrypted_key
  comment ← open_comment (parse_private_key_blob x content)
  key ← raw_of (r.parse_raw_key content)
  public_key ← signer_of (x.signer_public_key key)
  ok (record { public_key = public_key; comment = or_base comment path; private_key = key })

-- The sync.Map, the last entry for a key first.
abbrev pub Registry : Type 0
Registry = List (Bytes × Bytes)

unfoldable pub register_filepath : Bytes → Bytes → Registry → Registry
register_filepath fp path reg = (fp, path) ∷ reg

unfoldable pub get_filepath : Bytes → Registry → Bytes
get_filepath fp [] = []
get_filepath fp ((f, path) ∷ reg) =
    let rest = get_filepath fp reg in if bytes_eq f fp then path else rest

module _ (x : External) (r : KeyReader) (h : Host) where
  -- Whether the loop of ResolveFilepath stops at a path.
  abbrev pub matches : Bytes → Read FileKey → Bool
  matches fp (ok k) = bytes_eq (x.fingerprint_sha256 k.public_key) fp
  matches fp (err e) = false
  matches fp panic = false

  unfoldable pub search_paths : Bytes → List Bytes → Registry → Registry × Bytes
  unfolding parse_key_from_path
  search_paths fp [] reg = (reg, [])
  search_paths fp (path ∷ paths) reg =
      let rest = search_paths fp paths reg in
      if matches fp (parse_key_from_path x r h path)
      then (register_filepath fp path reg, path)
      else rest

  unfoldable pub resolve_filepath : Bytes → List Bytes → Registry → Registry × Bytes
  unfolding get_filepath search_paths
  resolve_filepath fp cfg_paths reg =
      let searched = search_paths fp cfg_paths reg in
      let known = get_filepath fp reg in if is_empty known then searched else (reg, known)

-- Adding to a keyring: sshagent.Agent's Add of the key and its comment, on the agent's state.
abbrev pub AddKey : Type 0 → Type 0
AddKey S = PrivateKey → Bytes → S → S × Bool

module _ (x : External) (r : KeyReader) (h : Host) {S : Type 0} where
  -- Whether the key was added; the file is registered before it is.
  abbrev add_file_key : AddKey S → Bytes → Read FileKey → S × Registry → (S × Registry) × Bool
  add_file_key add path (ok k) (s, reg) =
      let (after, added) = add k.private_key k.comment s in
      ((after, register_filepath (x.fingerprint_sha256 k.public_key) path reg), added)
  add_file_key add path (err e) world = (world, false)
  add_file_key add path panic world = (world, false)

  unfoldable pub add_key_from_path : AddKey S → Bytes → S × Registry → (S × Registry) × Bool
  unfolding register_filepath
  add_key_from_path add path world = add_file_key add path (parse_key_from_path x r h path) world

  -- With the paths whose errors are written to errOut; the error it returns is always nil.
  unfoldable pub load_keys : AddKey S → List Bytes → S × Registry → (S × Registry) × List Bytes
  unfolding add_key_from_path
  load_keys add [] world = (world, [])
  load_keys add (path ∷ paths) world =
      let (after, added) = add_key_from_path add path world in
      let (last, failed) = load_keys add paths after in
      (last, if added then failed else path ∷ failed)
