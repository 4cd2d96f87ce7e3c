-- ===== src/Vault/Store/Save.antt =====
-- Save of internal/vault/store.go, step by step, and Open after it.
use sshush.Prelude.{
  ◌≡◌, ◌≢◌, refl, ◌⊎◌, inl, inr, Bool-cases, false, none, some, arith, List, [], ◌∷◌, ap, map,
}
use sshush.Prelude.Utf8.{to_valid_utf8}
use sshush.Vault.Types.{Identity, VaultStore, holds, absent}
use sshush.Vault.Store.{
  Io, IoStep, io_failed, save, vault_file, open_store, opened, chmod, mkdir, read, write, marshal,
  json_identities, open_tmp, sync, close, rename,
}

module _ (io : Io) (s : VaultStore) where
  -- Memory is as it was, whatever fails.
  pub metadata-save : (save io s).0.metadata ≡ s.metadata
  unfolding save
  metadata-save = ground arith

  pub identities-save : (save io s).0.identities ≡ s.identities
  unfolding save
  identities-save = ground arith

  pub path_file-save : (save io s).1 ≡ none → (save io s).0.path_file ≡ holds (vault_file s)
  unfolding save
  path_file-save h = ground arith

-- The vault file after a Save is the new one in full, or the one from before.
abbrev pub FileReplaced : VaultStore → VaultStore → Type 0
FileReplaced s t = (t.path_file ≡ holds (vault_file s)) × (t.tmp_file ≡ absent)

save_file :
    (io : Io) (s : VaultStore)
    → (((save io s).1 ≡ none) × FileReplaced s (save io s).0)
      ⊎ (((save io s).1 ≡ some (io_failed chmod)) × FileReplaced s (save io s).0)
      ⊎ ((e : IoStep) × ((save io s).1 ≡ some (io_failed e))
          × (e ≢ chmod)
          × ((save io s).0.path_file ≡ s.path_file))
unfolding save
save_file io s = elim (Bool-cases (io marshal)) [
  | inl a ↦ inr (inr (marshal, ground arith, λ e. cc, ground arith))
  | inr a ↦ elim (Bool-cases (io write)) [
    | inl b ↦ inr (inr (write, ground arith, λ e. cc, ground arith))
    | inr b ↦ elim (Bool-cases (io open_tmp)) [
      | inl c ↦ inr (inr (open_tmp, ground arith, λ e. cc, ground arith))
      | inr c ↦ elim (Bool-cases (io sync)) [
        | inl d ↦ inr (inr (sync, ground arith, λ e. cc, ground arith))
        | inr d ↦ elim (Bool-cases (io close)) [
          | inl f ↦ inr (inr (close, ground arith, λ e. cc, ground arith))
          | inr f ↦ elim (Bool-cases (io rename)) [
            | inl g ↦ inr (inr (rename, ground arith, λ e. cc, ground arith))
            | inr g ↦ elim (Bool-cases (io chmod)) [
              | inl h ↦ inr (inl (ground arith))
              | inr h ↦ inl (ground arith)
            ]
          ]
        ]
      ]
    ]
  ]
]

-- Whatever step of Save fails, the vault file is the one from before or the new one in full: the
-- new one, with no temporary file left, after a reported success and where only the last step,
-- chmod, fails; the one from before where any other step fails. What is in memory does not change.
pub save_atomic :
    (io : Io) (s : VaultStore)
    → ((((save io s).1 ≡ none) × FileReplaced s (save io s).0)
        ⊎ (((save io s).1 ≡ some (io_failed chmod)) × FileReplaced s (save io s).0)
        ⊎ ((e : IoStep) × ((save io s).1 ≡ some (io_failed e))
            × (e ≢ chmod)
            × ((save io s).0.path_file ≡ s.path_file)))
      × ((save io s).0.metadata ≡ s.metadata)
      × ((save io s).0.identities ≡ s.identities)
save_atomic io s = (save_file io s, metadata-save io s, identities-save io s)

-- An identity with its comment and its file path as valid UTF-8.
abbrev pub with_valid_texts : Identity → Identity
with_valid_texts i = record i {
  comment = to_valid_utf8 i.comment;
  filepath = to_valid_utf8 i.filepath;
}

json_identities-map : (is : List Identity) → json_identities is ≡ map with_valid_texts is
unfolding json_identities
json_identities-map [] = refl
json_identities-map (i ∷ is) = ap (λ js. with_valid_texts i ∷ js) (json_identities-map is)

-- After a Save that reports success, Open at the same path gives a store with the metadata that was in
-- memory and the identities in their order, if it can read the file. Comments and file paths come back
-- as encoding/json writes them, with U+FFFD for each byte that is not part of valid UTF-8; all else is
-- as it was.
pub open-save :
    (io later : Io) (s : VaultStore)
    → (save io s).1 ≡ none
    → later mkdir ≡ false
    → later read ≡ false
    → (t : VaultStore) × (open_store later (save io s).0.path_file (save io s).0.tmp_file
        ≡ opened t)
      × (t.metadata ≡ s.metadata)
      × (t.identities ≡ map with_valid_texts s.identities)
unfolding open_store
open-save io later s h p q = (
  record {
    metadata = s.metadata;
    identities = json_identities s.identities;
    path_file = holds (vault_file s);
    tmp_file = (save io s).0.tmp_file;
  },
  ground (arith, path_file-save io s h),
  refl,
  json_identities-map s.identities,
)

-- Whatever store comes of it, it has the identities that were saved.
pub identities-open_save :
    (io later : Io) (s : VaultStore) {t : VaultStore}
    → (save io s).1 ≡ none
    → open_store later (save io s).0.path_file (save io s).0.tmp_file ≡ opened t
    → t.identities ≡ json_identities s.identities
unfolding open_store
identities-open_save io later s h e = ground (arith, path_file-save io s h)

-- Where no step fails, Save succeeds.
pub save-eq-none :
    (io : Io) (s : VaultStore) → ((step : IoStep) → io step ≡ false) → (save io s).1 ≡ none
unfolding save
save-eq-none io s h =
    ground (arith, h marshal, h write, h open_tmp, h sync, h close, h rename, h chmod)
