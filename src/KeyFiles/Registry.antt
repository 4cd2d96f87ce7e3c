-- ===== src/KeyFiles/Registry.antt =====
-- internal/agent/keys.go: LoadKeys and ResolveFilepath over the registry of paths.
use sshush.Prelude.{
  ◌≡◌, refl, sym, bytes_eq_sound, true, false, List, [], ◌∷◌, ◌++◌, Bytes, bytes_eq, bytes_eq_iff,
  is_empty, arith, Bool-cases, inl, inr, ◌⊎◌,
}
use sshush.Prelude.Outcome.{Outcome-cases, ok}
use sshush.External.{External}
use sshush.Paths.{Host}
use sshush.KeyFiles.{
  KeyReader, FileKey, Registry, parse_key_from_path, register_filepath, get_filepath, matches,
  search_paths, resolve_filepath, AddKey, add_key_from_path, load_keys,
}

module _ (x : External) (r : KeyReader) (h : Host) where
  -- The file at the path holds the key of the fingerprint.
  unfoldable pub HasKey : Bytes → Bytes → Type 0
  HasKey fp path =
      (k : FileKey) × (parse_key_from_path x r h path ≡ ok k)
      × (x.fingerprint_sha256 k.public_key ≡ fp)

  unfoldable pub IsTrueOf : Bytes → Bytes → Type 0
  IsTrueOf fp path = (path ≡ []) ⊎ HasKey fp path

  unfoldable pub IsTrue : Registry → Type 0
  IsTrue reg = (fp : Bytes) → IsTrueOf fp (get_filepath fp reg)

  IsTrue-register_filepath :
      (fp path : Bytes) (reg : Registry)
      → HasKey fp path
      → IsTrue reg
      → IsTrue (register_filepath fp path reg)
  unfolding IsTrue IsTrueOf register_filepath get_filepath
  IsTrue-register_filepath fp path reg has v q = elim (Bool-cases (bytes_eq fp q)) [
    | inl same ↦ rw (same, sym (bytes_eq_sound fp q same)) (inr has)
    | inr other ↦ rw other (v q)
  ]

  HasKey-matches :
      (fp path : Bytes) → matches x r h fp (parse_key_from_path x r h path) ≡ true → HasKey fp path
  unfolding HasKey
  HasKey-matches fp path m = elim (Outcome-cases (parse_key_from_path x r h path)) [
    | inl (k, e) ↦ (k, e, bytes_eq_sound _ fp (ground arith))
    | inr (inl (f, e)) ↦ absurd (ground arith)
    | inr (inr e) ↦ absurd (ground arith)
  ]

  search_paths-IsTrue :
      (fp : Bytes) (paths : List Bytes) (reg : Registry)
      → IsTrue reg
      → IsTrue (search_paths x r h fp paths reg).0 × IsTrueOf fp (search_paths x r h fp paths reg).1
  unfolding search_paths IsTrueOf
  search_paths-IsTrue fp [] reg v = (v, inl refl)
  search_paths-IsTrue fp (path ∷ paths) reg v =
      elim (Bool-cases (matches x r h fp (parse_key_from_path x r h path))) [
        | inl hit ↦ rw hit (
          IsTrue-register_filepath fp path reg (HasKey-matches fp path hit) v,
          inr (HasKey-matches fp path hit),
        )
        | inr miss ↦ rw miss (search_paths-IsTrue fp paths reg v)
      ]

  resolve_filepath-IsTrue :
      (fp : Bytes) (cfg_paths : List Bytes) (reg : Registry)
      → IsTrue reg
      → IsTrue (resolve_filepath x r h fp cfg_paths reg).0
        × IsTrueOf fp (resolve_filepath x r h fp cfg_paths reg).1
  unfolding resolve_filepath IsTrue
  resolve_filepath-IsTrue fp cfg_paths reg v = elim (Bool-cases (is_empty (get_filepath fp reg))) [
    | inl none_known ↦ rw none_known (search_paths-IsTrue fp cfg_paths reg v)
    | inr known ↦ rw known (v, v fp)
  ]

  module _ {S : Type 0} (add : AddKey S) where
    add_key_from_path-IsTrue :
        (path : Bytes) (s : S) (reg : Registry)
        → IsTrue reg
        → IsTrue (add_key_from_path x r h add path (s, reg)).0.1
    unfolding add_key_from_path HasKey
    add_key_from_path-IsTrue path s reg v = elim (Outcome-cases (parse_key_from_path x r h path)) [
      | inl (k, e) ↦ rw e (IsTrue-register_filepath _ path reg (k, e, refl) v)
      | inr (inl (f, e)) ↦ rw e v
      | inr (inr e) ↦ rw e v
    ]

    load_keys-IsTrue :
        (paths : List Bytes) (s : S) (reg : Registry)
        → IsTrue reg
        → IsTrue (load_keys x r h add paths (s, reg)).0.1
    unfolding load_keys
    load_keys-IsTrue [] s reg v = v
    load_keys-IsTrue (path ∷ paths) s reg v =
        load_keys-IsTrue paths _ _ (add_key_from_path-IsTrue path s reg v)

-- No path is empty.
unfoldable pub AreNamed : List Bytes → Type 0
AreNamed [] = Unit
AreNamed (path ∷ paths) = (is_empty path ≡ false) × AreNamed paths

module _ (x : External) (r : KeyReader) (h : Host) {S : Type 0} (add : AddKey S) (fp : Bytes) where
  HasEntry : Registry → Type 0
  HasEntry reg = is_empty (get_filepath fp reg) ≡ false

  HasEntry-register_filepath :
      (q path : Bytes) (reg : Registry)
      → is_empty path ≡ false
      → HasEntry reg ⊎ (q ≡ fp)
      → HasEntry (register_filepath q path reg)
  unfolding HasEntry register_filepath get_filepath
  HasEntry-register_filepath q path reg n (inl had) = ground arith
  HasEntry-register_filepath q path reg n (inr e) = ground (arith, bytes_eq_iff q fp)

  HasEntry-add_key_from_path :
      (path : Bytes) (s : S) (reg : Registry)
      → is_empty path ≡ false
      → HasEntry reg ⊎ HasKey x r h fp path
      → HasEntry (add_key_from_path x r h add path (s, reg)).0.1
  unfolding add_key_from_path HasKey
  HasEntry-add_key_from_path path s reg n (inr (k, e, same)) =
      rw e (HasEntry-register_filepath _ path reg n (inr same))
  HasEntry-add_key_from_path path s reg n (inl had) =
      elim (Outcome-cases (parse_key_from_path x r h path)) [
        | inl (k, e) ↦ rw e (HasEntry-register_filepath _ path reg n (inl had))
        | inr (inl (f, e)) ↦ rw e had
        | inr (inr e) ↦ rw e had
      ]

  HasEntry-load_keys_kept :
      (paths : List Bytes) (s : S) (reg : Registry)
      → AreNamed paths
      → HasEntry reg
      → HasEntry (load_keys x r h add paths (s, reg)).0.1
  unfolding load_keys AreNamed
  HasEntry-load_keys_kept [] s reg n had = had
  HasEntry-load_keys_kept (path ∷ paths) s reg (n, ns) had =
      HasEntry-load_keys_kept paths _ _ ns (HasEntry-add_key_from_path path s reg n (inl had))

  HasEntry-load_keys :
      (xs ys : List Bytes) (path : Bytes) (s : S) (reg : Registry)
      → AreNamed (xs ++ path ∷ ys)
      → HasKey x r h fp path
      → HasEntry (load_keys x r h add (xs ++ path ∷ ys) (s, reg)).0.1
  unfolding load_keys AreNamed
  HasEntry-load_keys [] ys path s reg (n, ns) has =
      HasEntry-load_keys_kept ys _ _ ns (HasEntry-add_key_from_path path s reg n (inr has))
  HasEntry-load_keys (x0 ∷ xs) ys path s reg (n, ns) has = HasEntry-load_keys xs ys path _ _ ns has

  -- When LoadKeys has gone through paths, none of them empty, of which one holds the key with a
  -- fingerprint, then ResolveFilepath of the fingerprint gives a file that holds that key, whatever
  -- the keyring answered, the other files are and the paths of the configuration are.
  pub resolve_filepath-load_keys :
      (xs ys cfg_paths : List Bytes) (path : Bytes) (s : S)
      → AreNamed (xs ++ path ∷ ys)
      → HasKey x r h fp path
      → HasKey x r h fp
          (resolve_filepath x r h fp cfg_paths
            (load_keys x r h add (xs ++ path ∷ ys) (s, [])).0.1).1
  unfolding resolve_filepath IsTrue IsTrueOf HasEntry get_filepath
  resolve_filepath-load_keys xs ys cfg_paths path s n has =
      rw entry (held (load_keys-IsTrue x r h add (xs ++ path ∷ ys) s [] (λ q. inl refl) fp))
    where
      reg : Registry
      reg = (load_keys x r h add (xs ++ path ∷ ys) (s, [])).0.1

      entry : is_empty (get_filepath fp reg) ≡ false
      entry = HasEntry-load_keys xs ys path s [] n has

      held : IsTrueOf x r h fp (get_filepath fp reg) → HasKey x r h fp (get_filepath fp reg)
      held (inl e) = absurd (ground (arith, entry))
      held (inr e) = e
