-- ===== src/VaultOps/Selectors.antt =====
-- internal/vaultops/conn.go: what a selector means, and what the agent holds.
use sshush.Prelude.{
  Bool, true, false, Option, none, some, List, [], ◌∷◌, ◌++◌, Bytes, codes, if◌then◌else◌,
}
use sshush.Prelude.FilePath.{has_prefix}
use sshush.Prelude.KeySet.{KeySet, insert}
use sshush.Prelude.Outcome.{ok, err, panic}
use sshush.External.{PublicKey}
use sshush.Paths.{Stat, no_entry, is_directory, is_other, expand_home_directory}
use sshush.KeyFiles.{Read, FileKey, encrypted_key, parse_key_from_path}
use sshush.Vault.Types.{VaultStore, Identity}
use sshush.Vault.Resolve.{
  Resolution, found, identity_not_found, resolve_identity, resolve_identity_by_fingerprint,
}
use sshush.Vault.Resolve
use sshush.VaultOps.Errors.{
  nil, sentinel, op_error, no_vault_path, ambiguous_comment, vault_identity_not_found,
  encrypted_private_key,
}
use sshush.VaultOps.Conn.{Site, Conn, Result, not_initialized_error}

abbrev resolved : Resolution → Result Identity
resolved (found i) = ok i
resolved identity_not_found = err (sentinel vault_identity_not_found)
resolved Resolve.ambiguous_comment = err (sentinel ambiguous_comment)

-- `err == nil && !fi.IsDir()`
abbrev names_file : Stat → Bool
names_file no_entry = false
names_file is_directory = false
names_file is_other = true

module _ {S : Type 0} (w : Site S) where
  -- A file that holds no key is not a reason to fail: the selector may be a comment.
  abbrev by_file : VaultStore → Bytes → Read FileKey → Result Identity
  by_file store selector (ok k) =
      resolved (resolve_identity_by_fingerprint store (w.external.fingerprint_sha256 k.public_key))
  by_file store selector (err encrypted_key) = err (sentinel encrypted_private_key)
  by_file store selector (err e) = resolved (resolve_identity store selector)
  by_file store selector panic = panic

  abbrev resolve_in : VaultStore → Bytes → Result Identity
  resolve_in store selector =
      let path = expand_home_directory w.host selector in
      if names_file (w.host.stat path)
      then by_file store selector (parse_key_from_path w.external w.reader w.host path)
      else resolved (resolve_identity store selector)

  -- An initialized conn has a store.
  abbrev resolve_with : Conn → Option VaultStore → Bytes → Result Identity
  resolve_with c none selector = err (not_initialized_error w c.vault_path)
  resolve_with c (some store) selector =
      if c.initialized
      then resolve_in store selector
      else err (not_initialized_error w c.vault_path)

  -- conn's resolveIdentity
  unfoldable pub resolve_selector : Conn → Bytes → Result Identity
  unfolding resolve_identity resolve_identity_by_fingerprint expand_home_directory
      parse_key_from_path not_initialized_error
  resolve_selector c selector = resolve_with c c.store selector

  abbrev only_fingerprint : Result Identity → Result Bytes
  only_fingerprint (ok i) = ok i.fingerprint
  only_fingerprint (err e) = err e
  only_fingerprint panic = panic

  abbrev fingerprint_with : Conn → Option VaultStore → Bytes → Result Bytes
  fingerprint_with c none selector =
      if has_prefix selector (codes "SHA256:")
      then ok selector
      else err (
          op_error no_vault_path (codes "vault path required to resolve " ++ selector)
            (codes "Set [vault].vault_path in config, or select by SHA256 fingerprint.") nil)
  fingerprint_with c (some store) selector = only_fingerprint (resolve_selector c selector)

  unfoldable pub resolve_fingerprint : Conn → Bytes → Result Bytes
  unfolding resolve_selector has_prefix
  resolve_fingerprint c selector = fingerprint_with c c.store selector

  abbrev or_no_keys : S × Option (List PublicKey) → S × List PublicKey
  or_no_keys (s, none) = (s, [])
  or_no_keys (s, some ks) = (s, ks)

  unfoldable pub agent_keys : Conn → S → S × List PublicKey
  agent_keys c s =
      let listed = or_no_keys (w.client.list s) in if c.session then listed else (s, [])

  -- `parse_public_key` is ssh.ParsePublicKey of a key's blob.
  unfoldable pub fingerprint_set : (Bytes → Option PublicKey) → List PublicKey → KeySet
  unfolding insert
  fingerprint_set parse_public_key [] = []
  fingerprint_set parse_public_key (k ∷ ks) =
      let rest = fingerprint_set parse_public_key ks in
      elim (parse_public_key k.blob) [
        | none ↦ rest
        | some pub_key ↦ insert (w.external.fingerprint_sha256 pub_key) rest
      ]

  abbrev set_of : (Bytes → Option PublicKey) → S × Option (List PublicKey) → S × Option KeySet
  set_of parse_public_key (s, none) = (s, none)
  set_of parse_public_key (s, some ks) = (s, some (fingerprint_set parse_public_key ks))

  -- `none` where there is no agent to ask, or it refuses.
  unfoldable pub loaded_fingerprints : (Bytes → Option PublicKey) → Conn → S → S × Option KeySet
  unfolding fingerprint_set
  loaded_fingerprints parse_public_key c s =
      let listed = set_of parse_public_key (w.client.list s) in
      if c.session then listed else (s, none)
