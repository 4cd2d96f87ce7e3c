-- ===== src/Paths/Distinct.antt =====
-- DiscoverKeyPaths of internal/utils/path.go: the real paths of what it finds.
use sshush.Prelude.{
  ℕ, ◌≡◌, refl, Bool, not, ◌&&◌, Option, some, List, [], ◌∷◌, Bytes, if◌then◌else◌, get_elem?,
  arith, Bool-cases, Option-cases, inl, inr,
}
use sshush.Prelude.KeySet.{contains}
use sshush.External.{External}
use sshush.Paths.{
  Host, Entry, KeyPath, Discovered, add_path, holds_key, index_of_real, place_path, mark_seen,
  with_default, replace_path,
}
use sshush.Paths.Index.{HasPlaces, HasIndices, IsIndexed, IsIndexed-replaced, IsIndexed-appended}
use sshush.Paths.Discovery.{
  try_add_key, try_entries, search_dirs, discover_key_paths, then_with, entries_of, skipped,
  searched_dirs, nothing_found,
}

-- What a step may do: it does not panic and keeps the index right.
KeepsIndex : Option Discovered → Type 0
KeepsIndex r = (d : Discovered) × (r ≡ some d) × IsIndexed d

replace_path-KeepsIndex :
    (link : Bool) (abs real : Bytes) (i : ℕ) (k : KeyPath) (d : Discovered)
    → IsIndexed d
    → get_elem? d.paths i ≡ some k
    → k.real_path ≡ real
    → KeepsIndex (replace_path link abs real i (some k) d)
unfolding KeepsIndex
replace_path-KeepsIndex link abs real i k d h at e = elim (Bool-cases (link && not k.is_link)) [
  | inl replaces ↦ rw replaces (_, refl, IsIndexed-replaced d i abs real k h at e)
  | inr stays ↦ rw stays (d, refl, h)
]

place_path-KeepsIndex :
    (link : Bool) (abs real : Bytes) (d : Discovered)
    → IsIndexed d
    → KeepsIndex (place_path link abs real (index_of_real real d.seen_real) d)
unfolding KeepsIndex IsIndexed HasPlaces
place_path-KeepsIndex link abs real d v = elim (Option-cases (index_of_real real d.seen_real)) [
  | inl fresh ↦ rw fresh (_, refl, IsIndexed-appended d abs real link v fresh)
  | inr (i, known) ↦
      let (k, at, e) = v.0 real i known in
      rw (known, at) (replace_path-KeepsIndex link abs real i k d v at e)
]

IsIndexed-mark_seen : (abs : Bytes) (d : Discovered) → IsIndexed d → IsIndexed (mark_seen abs d)
unfolding IsIndexed HasPlaces HasIndices
IsIndexed-mark_seen abs d v = v

add_path-KeepsIndex :
    (h : Host) (p : Bytes) (d : Discovered) → IsIndexed d → KeepsIndex (add_path h p d)
unfolding add_path KeepsIndex
add_path-KeepsIndex h p d v = elim (Bool-cases (contains abs d.seen)) [
  | inl known ↦ rw known (d, refl, v)
  | inr new ↦ elim (Option-cases (h.is_symlink abs)) [
    | inl missing ↦ rw (new, missing) (d, refl, v)
    | inr (link, there) ↦
        rw (new, there)
          (place_path-KeepsIndex link abs (with_default abs (h.eval_symlinks abs)) (mark_seen abs d)
            (IsIndexed-mark_seen abs d v))
  ]
]
  where
    abs : Bytes
    abs = with_default p (h.absolute p)

then_with-KeepsIndex :
    (r : Option Discovered) (f : Discovered → Option Discovered)
    → KeepsIndex r
    → ((d : Discovered) → IsIndexed d → KeepsIndex (f d))
    → KeepsIndex (then_with r f)
unfolding KeepsIndex
then_with-KeepsIndex r f (d, e, v) step = rw e (step d v)

try_add_key-KeepsIndex :
    (x : External) (h : Host) (p : Bytes) (d : Discovered)
    → IsIndexed d
    → KeepsIndex (try_add_key x h p d)
unfolding try_add_key KeepsIndex
try_add_key-KeepsIndex x h p d v = elim (Bool-cases (contains p d.seen)) [
  | inl known ↦ rw known (d, refl, v)
  | inr new ↦ elim (Bool-cases (holds_key x (h.read_file p))) [
    | inl key ↦ rw (new, key) (add_path-KeepsIndex h p d v)
    | inr other ↦ rw (new, other) (d, refl, v)
  ]
]

try_entries-KeepsIndex :
    (x : External) (h : Host) (es : List Entry) (d : Discovered)
    → IsIndexed d
    → KeepsIndex (try_entries x h es d)
unfolding try_entries KeepsIndex
try_entries-KeepsIndex x h [] d v = (d, refl, v)
try_entries-KeepsIndex x h (e ∷ es) d v =
    then_with-KeepsIndex _ (try_entries x h es) tried (try_entries-KeepsIndex x h es)
  where
    tried : KeepsIndex (if skipped e then some d else try_add_key x h e.path d)
    tried = elim (Bool-cases (skipped e)) [
      | inl skips ↦ rw skips (d, refl, v)
      | inr tries ↦ rw tries (try_add_key-KeepsIndex x h e.path d v)
    ]

search_dirs-KeepsIndex :
    (x : External) (h : Host) (recursive : Bool) (ds : List Bytes) (d : Discovered)
    → IsIndexed d
    → KeepsIndex (search_dirs x h recursive ds d)
unfolding search_dirs KeepsIndex
search_dirs-KeepsIndex x h recursive [] d v = (d, refl, v)
search_dirs-KeepsIndex x h recursive (folder ∷ ds) d v =
    then_with-KeepsIndex _ (search_dirs x h recursive ds)
      (try_entries-KeepsIndex x h (entries_of h recursive folder) d v)
      (search_dirs-KeepsIndex x h recursive ds)

IsIndexed-nothing_found : IsIndexed nothing_found
unfolding IsIndexed HasPlaces HasIndices index_of_real
IsIndexed-nothing_found = (λ real i h. cc, λ i k h. cc)

-- DiscoverKeyPaths never indexes out of range, and no two of the paths it finds have the same real
-- path.
pub discover_key_paths-distinct :
    (x : External) (h : Host) (dirs : List Bytes) (cwd ssh recursive : Bool)
    → (ps : List KeyPath) × (discover_key_paths x h dirs cwd ssh recursive ≡ some ps)
      × ((i j : ℕ) (k l : KeyPath)
          → get_elem? ps i ≡ some k
          → get_elem? ps j ≡ some l
          → k.real_path ≡ l.real_path
          → i ≡ j)
unfolding discover_key_paths KeepsIndex IsIndexed HasPlaces HasIndices
discover_key_paths-distinct x h dirs cwd ssh recursive =
    let (d, e, v) =
      search_dirs-KeepsIndex x h recursive (searched_dirs h dirs cwd ssh) nothing_found
        IsIndexed-nothing_found in
    (d.paths, rw e refl, λ i j k l at_i at_j same. ground (arith, v.1 i k at_i, v.1 j l at_j))
