-- ===== src/Version.antt =====
-- internal/version/check.go: whether a release is newer than this program, and whether the program's
-- file has the checksum of its release. HTTP, JSON and SHA-256 are inputs.
pub mod Order
use sshush.Prelude.{
  ℕ, ◌+◌, ◌-◌, ◌*◌, Bool, true, false, ◌&&◌, ◌⊎◌, inl, inr, Option, none, some, List, [], ◌∷◌, ◌++◌,
  Bytes, codes, bytes_eq, ltb, leb, length, drop, is_empty, if◌then◌else◌,
}
use sshush.Prelude.Text.{split_on, before, trim_space}
use sshush.Prelude.FilePath.{has_prefix, base}

-- The largest int of a 64-bit platform.
abbrev pub max_int : ℕ
max_int = 9223372036854775807

abbrev max_uint : ℕ
max_uint = 18446744073709551615

-- The loop of strconv.ParseUint in base 10, which stops at the first digit that is too much, whatever
-- follows it; the value is then the largest uint64, which is no int. `none` is a syntax error.
unfoldable pub digits_value : ℕ → Bytes → Option ℕ
digits_value value [] = some value
digits_value value (c ∷ s) =
    let next = 10 * value + (c - 48) in
    let rest = digits_value next s in
    if leb 48 c && leb c 57 then if ltb max_uint next then some max_uint else rest else none

abbrev clamped : Option ℕ → ℕ
clamped none = 0
clamped (some n) = if leb n max_int then n else max_int

abbrev unsigned_atoi : Bytes → ℕ
unsigned_atoi [] = 0
unsigned_atoi (c ∷ s) = clamped (digits_value 0 (c ∷ s))

-- The int of strconv.Atoi, whose error is dropped, on a text with no `-`: 0 where the text is no
-- number, and the largest int where it is out of range.
unfoldable pub atoi : Bytes → ℕ
unfolding digits_value
atoi [] = 0
atoi (c ∷ s) = if bytes_eq (c ∷ []) (codes "+") then unsigned_atoi s else unsigned_atoi (c ∷ s)

-- The -1, 0 and 1 of compareSemver.
pub data Comparison : Type 0 where
  less equal greater : Comparison

abbrev pub compare_part : ℕ → ℕ → Comparison → Comparison
compare_part a b rest = if ltb a b then less else if ltb b a then greater else rest

-- The loop, on the numbers of the parts; a part that is missing counts as 0.
unfoldable pub compare_parts : List ℕ → List ℕ → Comparison
compare_parts [] [] = equal
compare_parts [] (b ∷ bs) = compare_part 0 b (compare_parts [] bs)
compare_parts (a ∷ as') [] = compare_part a 0 (compare_parts as' [])
compare_parts (a ∷ as') (b ∷ bs) = compare_part a b (compare_parts as' bs)

unfoldable pub numbers : List Bytes → List ℕ
unfolding atoi
numbers [] = []
numbers (p ∷ ps) = atoi p ∷ numbers ps

-- Without what follows the first `-`.
unfoldable pub parts_of : Bytes → List ℕ
unfolding numbers split_on before
parts_of version = numbers (split_on 46 (before 45 version))

unfoldable pub compare_semver : Bytes → Bytes → Comparison
unfolding parts_of compare_parts
compare_semver a b = compare_parts (parts_of a) (parts_of b)

pub data VersionError : Type 0 where
  fetch_failed no_executable no_checksum hash_failed read_failed checksum_mismatch : VersionError

-- strings.TrimPrefix(tag, "v")
abbrev trim_v : Bytes → Bytes
trim_v tag = if has_prefix tag (codes "v") then drop 1 tag else tag

abbrev announcement : Bytes → Bytes → Bytes
announcement tag version =
    codes "New version available: "
    ++ tag
    ++ codes " (current: "
    ++ version
    ++ codes ") "
    ++ (0xe2
        ∷ 0x80
        ∷ 0x94
        ∷ codes " run `go install github.com/ollykeran/sshush/cmd/sshush@latest` to upgrade")

abbrev is_less : Comparison → Bool
is_less less = true
is_less equal = false
is_less greater = false

abbrev latest_message : Bytes → Option Bytes → Bytes ⊎ VersionError
latest_message version none = inr fetch_failed
latest_message version (some tag) =
    if is_less (compare_semver version (trim_v tag)) then inl (announcement tag version) else inl []

-- `tag` is the tag name of the latest release, where it could be fetched; an empty message is none.
unfoldable pub check_latest : Bytes → Option Bytes → Bytes ⊎ VersionError
unfolding compare_semver has_prefix
check_latest version tag =
    if bytes_eq version (codes "dev") then inl [] else latest_message version tag

-- `local` is the hexadecimal SHA-256 of the file and `remote` what was read of the response.
unfoldable pub verify_checksum : Option Bytes → Option Bytes → Option VersionError
unfolding trim_space
verify_checksum none remote = some hash_failed
verify_checksum (some local_hash) none = some read_failed
verify_checksum (some local_hash) (some remote) =
    if bytes_eq local_hash (trim_space remote) then none else some checksum_mismatch

unfoldable pub platform_key_for : Bytes → Bytes → Bytes → Bytes
unfolding base
platform_key_for bin_path goos goarch = base bin_path ++ codes "-" ++ goos ++ codes "-" ++ goarch
