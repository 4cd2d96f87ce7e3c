-- ===== src/Paths/Home.antt =====
-- internal/utils/path.go: ContractHomeDirectory against ExpandHomeDirectory.
use sshush.Prelude.{
  ◌≡◌, refl, true, false, not, some, [], ◌∷◌, ◌++◌, ◌+◌, Bytes, codes, bytes_eq, is_empty, length,
  drop, arith, Bool-cases, inl, inr, append_assoc, ◌≢◌, append-nil, sym, ◌∙◌, ap, subst,
  bytes_eq_sound, if◌then◌else◌, length-append,
}
use sshush.Prelude.Text.{trim_space}
use sshush.Prelude.FilePath.{has_prefix, join_path, separator, clean, has_prefix-drop}
use sshush.Paths.{Host, expand_home_directory, contract_home_directory, contract_from, expand_from}

join_path-split :
    (a b : Bytes)
    → is_empty a ≡ false
    → is_empty b ≡ false
    → join_path a b ≡ clean ((a ++ separator ∷ []) ++ b)
unfolding join_path
join_path-split [] b h k = cc
join_path-split (c ∷ a) [] h k = cc
join_path-split (c ∷ a) (d ∷ b) h k = rw (append_assoc a (separator ∷ []) (d ∷ b)) refl

is_empty-eq-false : (a b : Bytes) → a ++ b ≢ a → is_empty b ≡ false
is_empty-eq-false a [] h = absurd (h (append-nil a))
is_empty-eq-false a (c ∷ b) h = refl

not_tilde :
    (path : Bytes)
    → has_prefix path (codes "~") ≡ false
    → (bytes_eq path (codes "~") ≡ false) × (has_prefix path (codes "~/") ≡ false)
unfolding has_prefix bytes_eq
not_tilde [] h = (refl, refl)
not_tilde (c ∷ path) h = (ground arith, ground arith)

expand_below :
    (home rest : Bytes) → expand_from (some home) (codes "~/" ++ rest) ≡ join_path home rest
unfolding has_prefix bytes_eq
expand_below home rest = refl

abbrev read_back : Bytes → Bytes → Bytes
read_back home shown = if is_empty shown then shown else expand_from (some home) shown

read_back-same : (home path : Bytes) → bytes_eq path home ≡ true → read_back home (codes "~") ≡ path
unfolding bytes_eq
read_back-same home path e = sym (bytes_eq_sound path home e)

read_back-plain :
    (home path : Bytes) → has_prefix path (codes "~") ≡ false → read_back home path ≡ path
read_back-plain home [] h = refl
read_back-plain home (c ∷ path) h = let (a, b) = not_tilde (c ∷ path) h in rw (a, b) refl

read_back-below :
    (home path : Bytes)
    → is_empty home ≡ false
    → clean path ≡ path
    → path ≢ home ++ separator ∷ []
    → has_prefix path (home ++ separator ∷ []) ≡ true
    → read_back home (codes "~/" ++ drop (length home + 1) path) ≡ path
unfolding has_prefix bytes_eq
read_back-below home path filled is_clean below inside =
    join_path-split home rest filled (is_empty-eq-false front rest (λ e. below (sym whole ∙ e)))
    ∙ ap clean whole
    ∙ is_clean
  where
    front : Bytes
    front = home ++ separator ∷ []

    rest : Bytes
    rest = drop (length home + 1) path

    whole : front ++ rest ≡ path
    whole =
        subst (λ n. front ++ drop n path ≡ path) (length-append home (separator ∷ []))
          (has_prefix-drop path front inside)

-- What ContractHomeDirectory shows of a clean path is expanded to that path again, where the home
-- directory is known and not empty, the path starts with no `~` and is not the home directory with
-- a separator at its end, and what is shown has no spaces at its ends.
pub expand-contract_home_directory :
    (h : Host) (home path : Bytes)
    → h.home_dir ≡ some home
    → is_empty home ≡ false
    → clean path ≡ path
    → path ≢ home ++ separator ∷ []
    → trim_space (contract_home_directory h path) ≡ contract_home_directory h path
    → has_prefix path (codes "~") ≡ false
    → expand_home_directory h (contract_home_directory h path) ≡ path
unfolding expand_home_directory contract_home_directory
expand-contract_home_directory h home path known filled is_clean below trimmed plain =
    rw (trimmed, known) shown_back
  where
    shown_back : read_back home (contract_from (some home) path) ≡ path
    shown_back = elim (Bool-cases (bytes_eq path home)) [
      | inl same ↦ rw same (read_back-same home path same)
      | inr other ↦ elim (Bool-cases (not (bytes_eq home (codes "/")))) [
        | inl not_root ↦ elim (Bool-cases (has_prefix path (home ++ separator ∷ []))) [
          | inl inside ↦
              rw (other, not_root, inside) (read_back-below home path filled is_clean below inside)
          | inr outside ↦ rw (other, not_root, outside) (read_back-plain home path plain)
        ]
        | inr root ↦ rw (other, root) (read_back-plain home path plain)
      ]
    ]
