-- ===== src/Vault/Resolve.antt =====
-- internal/vault/resolve.go, list.go and path.go: finding an identity by what the user typed, listing the
-- identities, and the vault file that a path means.
use sshush.Prelude.{
  ◌≡◌, refl, ap, subst, bytes_eq_refl, inl, inr, ◌⊎◌, Bool, false, Option, none, some, List, [],
  ◌∷◌, ◌++◌, Bytes, bytes_eq, bytes_eq_iff, codes, is_empty, if◌then◌else◌, arith, Bool-cases,
  Option-cases,
}
use sshush.External.{PublicKey}
use sshush.Vault.Types.{Identity, VaultStore}
use sshush.Vault.Store.{find_identity}
use sshush.Vault.Store.Lookup.{Distinct, fingerprint-find}

pub data Resolution : Type 0 where
  found : Identity → Resolution
  identity_not_found ambiguous_comment : Resolution

-- The loop that collects the matches.
unfoldable pub with_comment : Bytes → List Identity → List Identity
with_comment spec [] = []
with_comment spec (i ∷ is) =
    let rest = with_comment spec is in if bytes_eq i.comment spec then i ∷ rest else rest

-- The switch on the number of matches.
unfoldable pub only_match : List Identity → Resolution
only_match [] = identity_not_found
only_match (i ∷ []) = found i
only_match (i ∷ j ∷ is) = ambiguous_comment

abbrev found_or : Resolution → Option Identity → Resolution
found_or other none = other
found_or other (some i) = found i

unfoldable pub resolve_identity : VaultStore → Bytes → Resolution
resolve_identity s spec =
    if is_empty spec
    then identity_not_found
    else found_or (only_match (with_comment spec s.identities)) (find_identity spec s.identities)

unfoldable pub resolve_identity_by_fingerprint : VaultStore → Bytes → Resolution
resolve_identity_by_fingerprint s fp = found_or identity_not_found (find_identity fp s.identities)

pub record IdentityInfo : Type 0 where
  pub fingerprint : Bytes
  pub comment : Bytes
  pub key_type : Bytes
  pub autoload : Bool
  pub filepath : Bytes

abbrev type_of_key : Option PublicKey → Bytes
type_of_key none = codes "?"
type_of_key (some k) = k.key_type

-- The loop of ListIdentities; `parse_public_key` is ssh.ParsePublicKey.
unfoldable pub identity_infos : (Bytes → Option PublicKey) → List Identity → List IdentityInfo
identity_infos parse_public_key [] = []
identity_infos parse_public_key (i ∷ is) =
    record {
      fingerprint = i.fingerprint;
      comment = i.comment;
      key_type = type_of_key (parse_public_key i.public_key);
      autoload = i.autoload;
      filepath = i.filepath;
    }
    ∷ identity_infos parse_public_key is

unfoldable pub list_identities : (Bytes → Option PublicKey) → VaultStore → List IdentityInfo
list_identities parse_public_key s = identity_infos parse_public_key s.identities

-- The place of an identity in a list.
abbrev pub Among : Identity → List Identity → Type 0
Among i is = (xs : List Identity) × (ys : List Identity) × (is ≡ xs ++ i ∷ ys)

later : {i j : Identity} {is : List Identity} → Among i is → Among i (j ∷ is)
later {j = j} (xs, ys, e) = (j ∷ xs, ys, ap (◌∷◌ j) e)

Among-find :
    (fp : Bytes) (is : List Identity) {i : Identity} → find_identity fp is ≡ some i → Among i is
unfolding find_identity
Among-find fp [] h = cc
Among-find fp (j ∷ is) {i} h = elim (Bool-cases (bytes_eq j.fingerprint fp)) [
  | inl same ↦ ([], is, ground arith)
  | inr other ↦ later (Among-find fp is {i = i} (ground arith))
]

Among-with_comment :
    (spec : Bytes) (is : List Identity) {i : Identity} {rest : List Identity}
    → with_comment spec is ≡ i ∷ rest
    → Among i is × (i.comment ≡ spec)
unfolding with_comment
Among-with_comment spec [] h = cc
Among-with_comment spec (j ∷ is) {i} {rest} h = elim (Bool-cases (bytes_eq j.comment spec)) [
  | inl same ↦ (([], is, ground arith), ground (arith, bytes_eq_iff j.comment spec))
  | inr other ↦
      let (m, e) = Among-with_comment spec is {i = i} {rest = rest} (ground arith) in (later m, e)
]

only_match-eq-found : (is : List Identity) {i : Identity} → only_match is ≡ found i → is ≡ i ∷ []
unfolding only_match
only_match-eq-found [] h = cc
only_match-eq-found (i ∷ []) h = ground arith
only_match-eq-found (i ∷ j ∷ is) h = cc

-- What a selector resolves to is an identity of the vault with that fingerprint, or, where no
-- fingerprint is the selector, the only identity with that comment.
pub resolve_identity-found :
    (s : VaultStore) (spec : Bytes) (i : Identity)
    → resolve_identity s spec ≡ found i
    → Among i s.identities
      × ((i.fingerprint ≡ spec)
          ⊎ ((i.comment ≡ spec)
              × (find_identity spec s.identities ≡ none)
              × (with_comment spec s.identities ≡ i ∷ [])))
unfolding resolve_identity
resolve_identity-found s spec i h = elim (Option-cases (find_identity spec s.identities)) [
  | inl absent ↦
      let only : with_comment spec s.identities ≡ i ∷ [] =
        only_match-eq-found (with_comment spec s.identities) {i = i} (ground arith) in
      let (m, e) = Among-with_comment spec s.identities only in (m, inr (e, absent, only))
  | inr (j, held) ↦
      let same : find_identity spec s.identities ≡ some i = ground arith in
      (Among-find spec s.identities same, inl (fingerprint-find spec s.identities same))
]

find-middle :
    (xs ys : List Identity) (i : Identity)
    → Distinct (xs ++ i ∷ ys)
    → find_identity i.fingerprint (xs ++ i ∷ ys) ≡ some i
unfolding find_identity
find-middle [] ys i d = ground (arith, bytes_eq_refl i.fingerprint)
find-middle (x ∷ xs) ys i d =
    ground (arith, find-middle xs ys i d.1, bytes_eq_iff x.fingerprint i.fingerprint)

-- Every identity of a vault is what its own fingerprint resolves to, whatever the comments are,
-- provided the fingerprint is not empty and no two identities share one.
pub resolve_identity-fingerprint :
    (s : VaultStore) (xs ys : List Identity) (i : Identity)
    → s.identities ≡ xs ++ i ∷ ys
    → Distinct s.identities
    → is_empty i.fingerprint ≡ false
    → resolve_identity s i.fingerprint ≡ found i
unfolding resolve_identity
resolve_identity-fingerprint s xs ys i e d h = rw (h, found_at) refl
  where
    found_at : find_identity i.fingerprint s.identities ≡ some i
    found_at = rw e (find-middle xs ys i (subst Distinct e d))
