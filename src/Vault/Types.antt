-- ===== src/Vault/Types.antt =====
-- The records of internal/vault/store.go. A text is its bytes; a time is a number of nanoseconds,
-- and `none` is Go's zero time.
use sshush.Prelude.{ℕ, Bool, Option, List, Bytes}

pub record VaultMetadata : Type 0 where
  pub salt : Bytes
  pub canary : Bytes
  pub recovery_salt : Bytes
  pub wrapped_master_key : Bytes
  pub created_at : Bytes

pub record Identity : Type 0 where
  pub fingerprint : Bytes
  pub public_key : Bytes
  pub encrypted_blob : Bytes
  pub comment : Bytes
  pub filepath : Bytes
  pub access_time : Bytes
  pub added_at : Bytes
  pub autoload : Bool
  pub expires_at : Option ℕ

pub record VaultFile : Type 0 where
  pub version : ℕ
  pub metadata : Option VaultMetadata
  pub identities : List Identity

-- What stands under a path: nothing, a vault file, or bytes that do not parse as one.
pub data FileContent : Type 0 where
  absent : FileContent
  holds : VaultFile → FileContent
  corrupt : FileContent

-- The store, with what is under its path and under the path of its temporary file.
pub record VaultStore : Type 0 where
  pub metadata : Option VaultMetadata
  pub identities : List Identity
  pub path_file : FileContent
  pub tmp_file : FileContent

-- A row of ListIdentitiesForAgent.
pub record IdentityRow : Type 0 where
  pub public_key : Bytes
  pub comment : Bytes
