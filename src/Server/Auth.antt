-- ===== src/Server/Auth.antt =====
-- internal/server/auth_agent.go, auth_file.go and auth_vault.go: the keys and the password that the
-- SSH server accepts. ssh.ParseAuthorizedKey, the agent and the file system are inputs.
use sshush.Prelude.{
  ℕ, Bool, true, false, not, ◌&&◌, ◌||◌, ◌⊎◌, inl, inr, Option, none, some, List, [], ◌∷◌, Bytes,
  codes, bytes_eq, leb, ◌==◌, length, is_empty, if◌then◌else◌,
}
use sshush.Prelude.Text.{split_on, trim_space}
use sshush.Prelude.FilePath.{has_prefix}
use sshush.External.{External, PublicKey}
use sshush.Session.{Client}
use sshush.Paths.{Stat, no_entry, is_directory, is_other}
use sshush.Vault.Store.{OpenResult, opened, open_failed}
use sshush.Vault.Verify.{verify_passphrase}

-- The loops of both Authorized methods.
unfoldable pub holds_blob : Bytes → List Bytes → Bool
holds_blob blob [] = false
holds_blob blob (b ∷ bs) = (length b == length blob && bytes_eq b blob) || holds_blob blob bs

abbrev pub key_blobs : List PublicKey → List Bytes
key_blobs [] = []
key_blobs (k ∷ ks) = k.blob ∷ key_blobs ks

abbrev in_listed : Bytes → Option (List PublicKey) → Bool
in_listed blob none = false
in_listed blob (some ks) = holds_blob blob (key_blobs ks)

module _ {S : Type 0} where
  -- AgentAuth's Authorized; the agent is asked at each call.
  unfoldable pub agent_authorized : Client S → PublicKey → S → S × Bool
  unfolding holds_blob
  agent_authorized c key s = let (t, listed) = c.list s in (t, in_listed key.blob listed)

  -- SocketAuth's Authorized; `dial` is whether the socket answers.
  unfoldable pub socket_authorized :
      (Bytes → S → Bool) → Client S → Bytes → PublicKey → S → S × Bool
  unfolding agent_authorized
  socket_authorized dial c path key s =
      let asked = agent_authorized c key s in
      if is_empty path || not (dial path s) then (s, false) else asked

-- bufio.ScanLines: a carriage return at the end of a line is dropped, and what follows the last line
-- feed is a line only where it is not empty.
drop_return : Bytes → Bytes
drop_return [] = []
drop_return (c ∷ []) = if c == 13 then [] else c ∷ []
drop_return (c ∷ d ∷ s) = c ∷ drop_return (d ∷ s)

drop_last_empty : List Bytes → List Bytes
drop_last_empty [] = []
drop_last_empty (l ∷ []) = if is_empty l then [] else l ∷ []
drop_last_empty (l ∷ m ∷ ls) = l ∷ drop_last_empty (m ∷ ls)

unfoldable pub scan_lines : Bytes → List Bytes
unfolding drop_last_empty split_on
scan_lines content = drop_last_empty (split_on 10 content)

-- bufio.MaxScanTokenSize; the buffer is full before a line of this length ends.
abbrev pub max_scan_token_size : ℕ
max_scan_token_size = 65536

unfoldable pub has_long_line : List Bytes → Bool
has_long_line [] = false
has_long_line (l ∷ ls) = leb max_scan_token_size (length l) || has_long_line ls

abbrev cons_blob : Option PublicKey → List Bytes → List Bytes
cons_blob none bs = bs
cons_blob (some k) bs = k.blob ∷ bs

unfoldable pub line_text : Bytes → Bytes
unfolding drop_return trim_space
line_text line = trim_space (drop_return line)

-- `line == "" || strings.HasPrefix(line, "#")`
unfoldable pub is_skipped : Bytes → Bool
unfolding has_prefix
is_skipped text = is_empty text || has_prefix text (codes "#")

-- `parse` is ssh.ParseAuthorizedKey.
unfoldable pub parse_lines : (Bytes → Option PublicKey) → List Bytes → List Bytes
unfolding line_text is_skipped
parse_lines parse [] = []
parse_lines parse (line ∷ lines) =
    let rest = parse_lines parse lines in
    if is_skipped (line_text line) then rest else cons_blob (parse (line_text line)) rest

pub data FileAuthError : Type 0 where
  not_read too_long : FileAuthError

-- The blobs of NewFileAuth, of what was read of the file.
unfoldable pub new_file_auth :
    (Bytes → Option PublicKey) → Option Bytes → List Bytes ⊎ FileAuthError
unfolding parse_lines scan_lines has_long_line
new_file_auth parse none = inr not_read
new_file_auth parse (some content) =
    let blobs = parse_lines parse (scan_lines content) in
    if has_long_line (scan_lines content) then inr too_long else inl blobs

unfoldable pub file_authorized : List Bytes → PublicKey → Bool
unfolding holds_blob
file_authorized blobs key = holds_blob key.blob blobs

-- `err != nil` of os.Stat
abbrev is_missing : Stat → Bool
is_missing no_entry = true
is_missing is_directory = false
is_missing is_other = false

abbrev verify_opened : External → OpenResult → Bytes → Bool
verify_opened x (opened store) password = verify_passphrase x store password
verify_opened x (open_failed e) password = false

-- VaultPassphraseAuth's Verify.
unfoldable pub vault_verify :
    External → (Bytes → Stat) → (Bytes → OpenResult) → Bytes → Bytes → Bool
unfolding verify_passphrase
vault_verify x stat open_vault path password =
    if is_empty path || is_missing (stat path)
    then false
    else verify_opened x (open_vault path) password
