-- ===== src/Paths/Discovery.antt =====
-- DiscoverKeyPaths of internal/utils/path.go.
use sshush.Prelude.{
  Bool, ◌||◌, Option, none, some, List, [], ◌∷◌, ◌++◌, Bytes, codes, if◌then◌else◌,
}
use sshush.Prelude.FilePath.{has_suffix, join_path}
use sshush.Prelude.KeySet.{contains}
use sshush.External.{External}
use sshush.Paths.{Host, Entry, KeyPath, Discovered, add_path, holds_key}

-- What follows a step that may panic.
abbrev pub then_with : Option Discovered → (Discovered → Option Discovered) → Option Discovered
then_with none f = none
then_with (some d) f = f d

unfoldable pub try_add_key : External → Host → Bytes → Discovered → Option Discovered
unfolding add_path
try_add_key x h path d =
    if contains path d.seen
    then some d
    else if holds_key x (h.read_file path)
    then add_path h path d
    else some d

-- `d.IsDir() || strings.HasSuffix(d.Name(), ".pub")`
abbrev pub skipped : Entry → Bool
skipped e = e.is_dir || has_suffix e.name (codes ".pub")

unfoldable pub try_entries : External → Host → List Entry → Discovered → Option Discovered
unfolding try_add_key has_suffix
try_entries x h [] d = some d
try_entries x h (e ∷ es) d =
    then_with (if skipped e then some d else try_add_key x h e.path d) (try_entries x h es)

abbrev entries_in : Bytes → List (Bytes × Bool) → List Entry
entries_in folder [] = []
entries_in folder ((name, is_dir) ∷ es) =
    record { path = join_path folder name; name = name; is_dir = is_dir } ∷ entries_in folder es

abbrev pub entries_of : Host → Bool → Bytes → List Entry
entries_of h recursive folder =
    if recursive then h.walk_dir folder else entries_in folder (h.read_dir folder)

unfoldable pub search_dirs : External → Host → Bool → List Bytes → Discovered → Option Discovered
unfolding try_entries join_path
search_dirs x h recursive [] d = some d
search_dirs x h recursive (folder ∷ folders) d =
    then_with (try_entries x h (entries_of h recursive folder) d)
      (search_dirs x h recursive folders)

abbrev pub dir_list : Option Bytes → List Bytes
dir_list none = []
dir_list (some d) = d ∷ []

unfoldable pub ssh_dir : Option Bytes → List Bytes
unfolding join_path
ssh_dir none = []
ssh_dir (some home) = join_path home (codes ".ssh") ∷ []

abbrev pub found_paths : Option Discovered → Option (List KeyPath)
found_paths none = none
found_paths (some d) = some d.paths

abbrev pub searched_dirs : Host → List Bytes → Bool → Bool → List Bytes
searched_dirs h dirs cwd ssh =
    (dirs ++ (if ssh then ssh_dir h.home_dir else []))
    ++ (if cwd then dir_list h.working_dir else [])

abbrev pub nothing_found : Discovered
nothing_found = record { seen = []; seen_real = []; paths = [] }

-- `none` is a run-time panic.
unfoldable pub discover_key_paths :
    External → Host → List Bytes → Bool → Bool → Bool → Option (List KeyPath)
unfolding search_dirs
discover_key_paths x h dirs cwd ssh recursive =
    found_paths (search_dirs x h recursive (searched_dirs h dirs cwd ssh) nothing_found)
