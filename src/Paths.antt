-- ===== src/Paths.antt =====
-- internal/utils/path.go and ResolveToFile of internal/vault/path.go: home directories in paths, the
-- vault file that a path means, and the private keys that lie in some directories. The operating
-- system is a parameter: what package os and the walk of path/filepath report.
pub mod Home
pub mod Discovery
pub mod Distinct
pub mod Index
use sshush.Prelude.{
  ℕ, zero, suc, Bool, true, false, not, ◌&&◌, ◌||◌, Option, none, some, List, [], ◌∷◌, ◌++◌, ◌+◌,
  Bytes, codes, bytes_eq, is_empty, if◌then◌else◌, length, drop, get_elem?,
}
use sshush.Prelude.Text.{trim_space}
use sshush.Prelude.FilePath.{has_prefix, has_suffix, join_path, separator}
use sshush.Prelude.KeySet.{KeySet, contains, insert}
use sshush.Prelude.Outcome.{ok, err, panic}
use sshush.External.{External}
use sshush.Openssh.{Parse, ParsedKey, parse_private_key_blob}

-- What os.Stat tells of a path: an error, or whether a directory is there.
pub data Stat : Type 0 where
  no_entry is_directory is_other : Stat

-- An entry of os.ReadDir, or a visit of filepath.WalkDir, with its path.
pub record Entry : Type 0 where
  pub path : Bytes
  pub name : Bytes
  pub is_dir : Bool

pub record Host : Type 0 where
  -- os.UserHomeDir and os.Getwd
  pub home_dir : Option Bytes
  pub working_dir : Option Bytes
  pub stat : Bytes → Stat
  -- whether os.Lstat finds a symbolic link, and filepath.EvalSymlinks
  pub is_symlink : Bytes → Option Bool
  pub eval_symlinks : Bytes → Option Bytes
  -- filepath.Abs
  pub absolute : Bytes → Option Bytes
  pub read_file : Bytes → Option Bytes
  -- the entries of os.ReadDir, and the visits of filepath.WalkDir that carry no error
  pub read_dir : Bytes → List (Bytes × Bool)
  pub walk_dir : Bytes → List Entry

abbrev pub with_default {ℓ} : {A : Type ℓ} → A → Option A → A
with_default a none = a
with_default a (some b) = b

abbrev expand_from : Option Bytes → Bytes → Bytes
expand_from none path = []
expand_from (some home) path =
    if bytes_eq path (codes "~")
    then home
    else if has_prefix path (codes "~/")
    then join_path home (drop 2 path)
    else path

abbrev expand_trimmed : Host → Bytes → Bytes
expand_trimmed h path = if is_empty path then path else expand_from h.home_dir path

unfoldable pub expand_home_directory : Host → Bytes → Bytes
unfolding has_prefix
expand_home_directory h path = expand_trimmed h (trim_space path)

abbrev contract_from : Option Bytes → Bytes → Bytes
contract_from none path = path
contract_from (some home) path =
    if bytes_eq path home
    then codes "~"
    else if not (bytes_eq home (codes "/")) && has_prefix path (home ++ separator ∷ [])
    then codes "~/" ++ drop (length home + 1) path
    else path

unfoldable pub contract_home_directory : Host → Bytes → Bytes
unfolding has_prefix
contract_home_directory h path = contract_from h.home_dir path

unfoldable pub display_path : Host → Bytes → Bytes
unfolding contract_home_directory
display_path h path =
    if is_empty path then path else contract_home_directory h (with_default path (h.absolute path))

-- `err == nil && fi.IsDir()`
abbrev pub says_directory : Stat → Bool
says_directory is_directory = true
says_directory no_entry = false
says_directory is_other = false

unfoldable pub resolve_to_file : Host → Bytes → Bytes
unfolding has_suffix
resolve_to_file h path =
    if is_empty path
    then path
    else if has_suffix path (separator ∷ [])
    then join_path path (codes "vault.json")
    else if says_directory (h.stat path)
    then join_path path (codes "vault.json")
    else path

pub record KeyPath : Type 0 where
  pub path : Bytes
  pub real_path : Bytes
  pub is_link : Bool

-- The variables that addPath closes over.
pub record Discovered : Type 0 where
  pub seen : KeySet
  pub seen_real : List (Bytes × ℕ)
  pub paths : List KeyPath

unfoldable pub index_of_real : Bytes → List (Bytes × ℕ) → Option ℕ
index_of_real real [] = none
index_of_real real ((r, i) ∷ rs) =
    let rest = index_of_real real rs in if bytes_eq r real then some i else rest

unfoldable pub set_at : ℕ → KeyPath → List KeyPath → List KeyPath
set_at n k [] = []
set_at zero k (j ∷ js) = k ∷ js
set_at (suc n) k (j ∷ js) = j ∷ set_at n k js

-- The real path is known: a link takes the place of its target. `none` is a run-time panic.
abbrev pub replace_path : Bool → Bytes → Bytes → ℕ → Option KeyPath → Discovered → Option Discovered
replace_path link abs real i none d = none
replace_path link abs real i (some k) d =
    if link && not k.is_link
    then some (record {
      seen = d.seen;
      seen_real = d.seen_real;
      paths = set_at i (record { path = abs; real_path = real; is_link = true }) d.paths;
    })
    else some d

abbrev pub place_path : Bool → Bytes → Bytes → Option ℕ → Discovered → Option Discovered
place_path link abs real (some i) d = replace_path link abs real i (get_elem? d.paths i) d
place_path link abs real none d = some (record {
  seen = d.seen;
  seen_real = (real, length d.paths) ∷ d.seen_real;
  paths = d.paths ++ record { path = abs; real_path = real; is_link = link } ∷ [];
})

abbrev pub mark_seen : Bytes → Discovered → Discovered
mark_seen abs d = record { seen = insert abs d.seen; seen_real = d.seen_real; paths = d.paths }

abbrev pub add_entry : Host → Bytes → Option Bool → Discovered → Option Discovered
add_entry h abs none d = some d
add_entry h abs (some link) d =
    let real = with_default abs (h.eval_symlinks abs) in
    place_path link abs real (index_of_real real d.seen_real) (mark_seen abs d)

unfoldable pub add_path : Host → Bytes → Discovered → Option Discovered
add_path h p d =
    let abs = with_default p (h.absolute p) in
    if contains abs d.seen then some d else add_entry h abs (h.is_symlink abs) d

abbrev pub is_key : Parse ParsedKey → Bool
is_key (ok k) = true
is_key (err e) = false
is_key panic = false

-- `err != nil || len(data) == 0`, then the parse.
abbrev pub holds_key : External → Option Bytes → Bool
holds_key x none = false
holds_key x (some content) =
    if is_empty content then false else is_key (parse_private_key_blob x content)
