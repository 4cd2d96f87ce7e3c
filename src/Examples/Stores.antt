-- ===== src/Examples/Stores.antt =====
-- The vault store, its file, and the selectors of identities.
use sshush.Prelude.{◌≡◌, ◌≢◌, ◌⊎◌, refl, none, some, [], ◌∷◌, codes, bytes_eq}
use sshush.Vault.Types.{VaultStore, absent}
use sshush.Vault.Store.{IoStep, io_failed, chmod, save, open_store, opened, find_identity}
use sshush.Vault.Store.Save.{FileReplaced, save_atomic, open-save}
use sshush.Vault.Store.Lookup.{Distinct}
use sshush.Vault.Resolve.{
  found, resolve_identity, only_match, with_comment, Among, resolve_identity-found,
}
use sshush.Examples.Toy.{all_well, store, work, home}

save_atomic_example :
    ((((save all_well store).1 ≡ none) × FileReplaced store (save all_well store).0)
      ⊎ (((save all_well store).1 ≡ some (io_failed chmod))
          × FileReplaced store (save all_well store).0)
      ⊎ ((e : IoStep) × ((save all_well store).1 ≡ some (io_failed e))
          × (e ≢ chmod)
          × ((save all_well store).0.path_file ≡ absent)))
    × ((save all_well store).0.metadata ≡ none)
    × ((save all_well store).0.identities ≡ work ∷ home ∷ [])
save_atomic_example = save_atomic all_well store

saves : (save all_well store).1 ≡ none
unfolding save
saves = refl

open-save_example :
    (t : VaultStore) × (open_store all_well
        (save all_well store).0.path_file
        (save all_well store).0.tmp_file
      ≡ opened t)
    × (t.metadata ≡ none)
    × (t.identities ≡ work ∷ home ∷ [])
unfolding sshush.Prelude.Utf8.to_valid_utf8
open-save_example = open-save all_well all_well store saves refl refl

pub distinct : Distinct store.identities
unfolding find_identity bytes_eq
distinct = (refl, (refl, tt))

resolves_home : resolve_identity store (codes "home") ≡ found home
unfolding resolve_identity find_identity with_comment only_match bytes_eq
resolves_home = refl

resolve_identity-found_example :
    Among home store.identities
    × ((home.fingerprint ≡ codes "home")
        ⊎ ((home.comment ≡ codes "home")
            × (find_identity (codes "home") store.identities ≡ none)
            × (with_comment (codes "home") store.identities ≡ home ∷ [])))
resolve_identity-found_example = resolve_identity-found store (codes "home") home resolves_home
