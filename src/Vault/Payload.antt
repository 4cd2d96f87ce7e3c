-- ===== src/Vault/Payload.antt =====
-- internal/vault/payload.go builds the bodies of the vault's requests, and the parsers of
-- internal/vault/op.go read them. A parser indexes and slices as the source does, so that a bound
-- out of range is a panic of the model too.
pub mod RoundTrip
pub mod AddKey
pub mod Panics
use sshush.Prelude.{
  ℕ, ◌+◌, ◌-◌, Bool, true, false, ◌&&◌, ◌||◌, not, Option, none, some, List, [], ◌∷◌, ◌++◌, Bytes,
  length, ltb, leb, ◌==◌, if◌then◌else◌,
}
use sshush.Prelude.Outcome.{Outcome, ok, err, panic, require, index, slice, ◌>>=◌, ◌>>◌}
use sshush.Prelude.BigEndian.{put_uint32, uint32}

-- Why a body is refused: the texts of the source's errors, less their numbers.
pub data PayloadError : Type 0 where
  too_short length_mismatch length_exceeds bad_flag bad_pem : PayloadError

abbrev pub Parsed : Type 0 → Type 0
Parsed = Outcome PayloadError

unfoldable pub flag_byte : Bool → ℕ
flag_byte true = 1
flag_byte false = 0

-- `copy` fills the buffer section by section, in the order of the offsets.
unfoldable pub build_set_autoload : Bytes → Bool → Bytes
unfolding flag_byte
build_set_autoload fingerprint autoload =
    put_uint32 (length fingerprint) ++ fingerprint ++ flag_byte autoload ∷ []

unfoldable pub build_set_comment : Bytes → Bytes → Bytes
build_set_comment fingerprint comment =
    put_uint32 (length fingerprint) ++ fingerprint ++ put_uint32 (length comment) ++ comment

-- `pem` is what os.ReadFile gave for `path`.
unfoldable pub build_add_key_opts : Bytes → Bytes → Bool → Bytes
unfolding flag_byte
build_add_key_opts pem path autoload =
    1 ∷ put_uint32 (length pem) ++ pem ++ flag_byte autoload ∷ put_uint32 (length path) ++ path

unfoldable pub is_flag : ℕ → Bool
is_flag b = b == 0 || b == 1

unfoldable pub parse_set_autoload : Bytes → Parsed (Bytes × Bool)
parse_set_autoload contents = do
  require (not (ltb (length contents) 5)) too_short
  header ← slice contents 0 4
  fp_len ← uint32 header
  require (fp_len + 5 == length contents) length_mismatch
  flag ← index contents (4 + fp_len)
  require (is_flag flag) bad_flag
  fingerprint ← slice contents 4 (4 + fp_len)
  ok (fingerprint, flag == 1)

unfoldable pub parse_set_comment : Bytes → Parsed (Bytes × Bytes)
parse_set_comment contents = do
  require (not (ltb (length contents) 8)) too_short
  header ← slice contents 0 4
  fp_len ← uint32 header
  require (leb (8 + fp_len) (length contents)) length_exceeds
  fingerprint ← slice contents 4 (4 + fp_len)
  let offset = 4 + fp_len
  comment_header ← slice contents offset (offset + 4)
  comment_len ← uint32 comment_header
  require (offset + 4 + comment_len == length contents) length_mismatch
  comment ← slice contents (offset + 4) (offset + 4 + comment_len)
  ok (fingerprint, comment)

-- The file path of the versioned layout; one that does not fit is passed over.
unfoldable pub read_filepath : Bytes → ℕ → Parsed Bytes
read_filepath contents offset =
    if leb (offset + 4) (length contents)
    then (do
      header ← slice contents offset (offset + 4)
      fp_len ← uint32 header
      if leb (offset + 4 + fp_len) (length contents)
          then slice contents (offset + 4) (offset + 4 + fp_len)
          else ok [])
    else ok []

-- [1 version][4 PEM len][PEM][1 autoload][4 filepath len][filepath]
unfoldable pub split_versioned : Bytes → Parsed (Bytes × Bool × Bytes)
split_versioned contents = do
  header ← slice contents 1 5
  pem_len ← uint32 header
  require (leb (5 + pem_len) (length contents)) length_exceeds
  pem ← slice contents 5 (5 + pem_len)
  flag ← index contents (5 + pem_len)
  require (is_flag flag) bad_flag
  filepath ← read_filepath contents (5 + pem_len + 1)
  ok (pem, flag == 1, filepath)

-- [4 PEM len][PEM][1 autoload]; `pemLen > len(contents) - 5`, where the length is 5 or more.
unfoldable pub split_legacy : Bytes → Parsed (Bytes × Bool × Bytes)
split_legacy contents = do
  header ← slice contents 0 4
  pem_len ← uint32 header
  require (leb pem_len (length contents - 5)) length_exceeds
  flag ← index contents (4 + pem_len)
  require (is_flag flag) bad_flag
  pem ← slice contents 4 (4 + pem_len)
  ok (pem, flag == 1, [])

unfoldable pub split_add_key_opts : Bytes → Parsed (Bytes × Bool × Bytes)
split_add_key_opts contents = do
  require (not (ltb (length contents) 5)) too_short
  first ← index contents 0
  if first == 1 && leb 10 (length contents) then split_versioned contents else split_legacy contents
