-- ===== src/Vault/Store.antt =====
-- internal/vault/store.go: the identities and the metadata in memory, and the file that they are
-- saved to. The mutex makes each of these operations one step.
pub mod Save
pub mod Lookup
use sshush.Prelude.{
  ℕ, Bool, true, false, ◌||◌, not, Option, none, some, List, [], ◌∷◌, ◌++◌, map, Bytes, bytes_eq,
  if◌then◌else◌,
}
use sshush.Prelude.Utf8.{to_valid_utf8}
use sshush.Prelude.KeySet.{KeySet, contains}
use sshush.Vault.Types.{
  VaultMetadata, Identity, VaultFile, FileContent, absent, holds, corrupt, VaultStore, IdentityRow,
}

abbrev pub vault_file_version : ℕ
vault_file_version = 1

-- The system calls of Open and of Save that may fail.
pub data IoStep : Type 0 where
  mkdir read marshal write open_tmp sync close rename chmod : IoStep

-- Which of the calls fail this time.
abbrev pub Io : Type 0
Io = IoStep → Bool

pub data StoreError : Type 0 where
  io_failed : IoStep → StoreError
  parse_failed : StoreError

pub data OpenResult : Type 0 where
  opened : VaultStore → OpenResult
  open_failed : StoreError → OpenResult

-- A missing file gives an empty store, ready for Init.
open_file : FileContent → FileContent → OpenResult
open_file absent tmp =
    opened (record { metadata = none; identities = []; path_file = absent; tmp_file = tmp })
open_file (holds f) tmp = opened (record {
  metadata = f.metadata;
  identities = f.identities;
  path_file = holds f;
  tmp_file = tmp;
})
open_file corrupt tmp = open_failed parse_failed

unfoldable pub open_store : Io → FileContent → FileContent → OpenResult
unfolding open_file
open_store io path tmp =
    if io mkdir
    then open_failed (io_failed mkdir)
    else if io read
    then open_failed (io_failed read)
    else open_file path tmp

-- An identity as the file has it: encoding/json replaces what is not UTF-8 in its texts. The
-- fingerprint and the times are ASCII, and byte slices are written in base64.
abbrev pub json_identity : Identity → Identity
json_identity i = record i {
  comment = to_valid_utf8 i.comment;
  filepath = to_valid_utf8 i.filepath;
}

unfoldable pub json_identities : List Identity → List Identity
unfolding to_valid_utf8
json_identities [] = []
json_identities (i ∷ is) = json_identity i ∷ json_identities is

-- What Save writes, as Open reads it.
abbrev pub vault_file : VaultStore → VaultFile
vault_file s = record {
  version = vault_file_version;
  metadata = s.metadata;
  identities = json_identities s.identities;
}

-- The write goes to the temporary file, which is removed again where a later step fails, and the
-- rename puts it in the place of the vault file. `none` is success.
unfoldable pub save : Io → VaultStore → VaultStore × Option StoreError
save io s =
    let removed : VaultStore = record s { tmp_file = absent } in
    let renamed : VaultStore = record s { path_file = holds (vault_file s); tmp_file = absent } in
    if io marshal
    then (s, some (io_failed marshal))
    else if io write
    then (record s { tmp_file = corrupt }, some (io_failed write))
    else if io open_tmp
    then (removed, some (io_failed open_tmp))
    else if io sync
    then (removed, some (io_failed sync))
    else if io close
    then (removed, some (io_failed close))
    else if io rename
    then (removed, some (io_failed rename))
    else if io chmod
    then (renamed, some (io_failed chmod))
    else (renamed, none)

-- A copy, so that the caller cannot change the store.
unfoldable pub get_metadata : VaultStore → Option VaultMetadata
get_metadata s = s.metadata

unfoldable pub set_metadata : VaultMetadata → VaultStore → VaultStore
set_metadata m s = record s { metadata = some m }

-- The loop of ListIdentitiesForAgent: an autoload identity that is not hidden, or any other that
-- the session has loaded.
unfoldable pub is_listed : KeySet → KeySet → Identity → Bool
is_listed session hidden i =
    if i.autoload then not (contains i.fingerprint hidden) else contains i.fingerprint session

unfoldable pub list_identities_for_agent : KeySet → KeySet → List Identity → List IdentityRow
list_identities_for_agent session hidden [] = []
list_identities_for_agent session hidden (i ∷ is) =
    let rest = list_identities_for_agent session hidden is in
    if is_listed session hidden i
    then record { public_key = i.public_key; comment = i.comment } ∷ rest
    else rest

-- The first identity with the fingerprint, for the loops that break at it.
unfoldable pub find_identity : Bytes → List Identity → Option Identity
find_identity fp [] = none
find_identity fp (i ∷ is) = if bytes_eq i.fingerprint fp then some i else find_identity fp is

-- The blob and the autoload flag.
unfoldable pub get_identity : Bytes → VaultStore → Option (Bytes × Bool)
get_identity fp s = elim (find_identity fp s.identities) [
  | none ↦ none
  | some i ↦ some (i.encrypted_blob, i.autoload)
]

unfoldable pub replace_or_append : Identity → List Identity → List Identity
replace_or_append id [] = id ∷ []
replace_or_append id (i ∷ is) =
    if bytes_eq i.fingerprint id.fingerprint then id ∷ is else i ∷ replace_or_append id is

-- `added` is the current time, formatted.
unfoldable pub add_or_replace_identity : Bytes → Identity → VaultStore → VaultStore
add_or_replace_identity added id s = record s {
  identities = replace_or_append (record id { added_at = added }) s.identities;
}

unfoldable pub without : Bytes → List Identity → List Identity
without fp [] = []
without fp (i ∷ is) =
    let rest = without fp is in if bytes_eq i.fingerprint fp then rest else i ∷ rest

unfoldable pub has_identity : Bytes → List Identity → Bool
has_identity fp [] = false
has_identity fp (i ∷ is) = bytes_eq i.fingerprint fp || has_identity fp is

-- The compacted list, and whether an identity was removed.
unfoldable pub remove_identity : Bytes → VaultStore → VaultStore × Bool
remove_identity fp s =
    (record s { identities = without fp s.identities }, has_identity fp s.identities)

unfoldable pub remove_all_identities : VaultStore → VaultStore
remove_all_identities s = record s { identities = [] }
