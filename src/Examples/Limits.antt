-- ===== src/Examples/Limits.antt =====
-- A crashing request, an identity whose time is over, and a passphrase.
use sshush.Prelude.{ℕ, ◌≡◌, ◌↔◌, refl, Bool, true, none, some, List, [], ◌∷◌, Bytes, codes}
use sshush.Prelude.Outcome.{panic}
use sshush.Op.{encode_op_request, op_add_key}
use sshush.Vault.Types.{Identity}
use sshush.Vault.Store.{find_identity}
use sshush.Vault.Store.Lookup.{Distinct}
use sshush.Vault.State.{VaultAgent}
use sshush.Vault.Agent.{purge_expired}
use sshush.Vault.Serve.{handle_op, crashed}
use sshush.Vault.Payload.{split_add_key_opts}
use sshush.Vault.Crashes.{handle_op-crashed_iff}
use sshush.Vault.Expiry.{unexpired, find_identity-purge_expired}
use sshush.Vault.Policy.{validate_new, default_passphrase_policy}
use sshush.Vault.Strength.{acceptable, validate_new_iff}
use sshush.Examples.Toy.{toy, world, ascii, master, work, identity, open_agent}

-- A version byte, a PEM length of five, and just the five bytes.
abbrev no_flag : Bytes
no_flag = 1 ∷ 0 ∷ 0 ∷ 0 ∷ 5 ∷ 65 ∷ 66 ∷ 67 ∷ 68 ∷ 69 ∷ []

handle_op-crashed_iff_example :
    (handle_op toy world (encode_op_request op_add_key no_flag) open_agent ≡ crashed)
    ↔ ((op_add_key ≡ op_add_key) × (split_add_key_opts no_flag ≡ panic))
handle_op-crashed_iff_example = handle_op-crashed_iff toy world no_flag open_agent op_add_key

abbrev brief : Identity
brief = identity (codes "SHA256:brief") (codes "brief") true (some 999)

abbrev agent : VaultAgent
agent = record open_agent { store = record open_agent.store { identities = brief ∷ work ∷ [] } }

distinct : Distinct agent.store.identities
unfolding find_identity sshush.Prelude.bytes_eq
distinct = (refl, (refl, tt))

find_identity-purge_expired_example :
    find_identity (codes "SHA256:brief") (purge_expired world agent).0.store.identities
    ≡ unexpired 1000 (find_identity (codes "SHA256:brief") (brief ∷ work ∷ []))
find_identity-purge_expired_example =
    find_identity-purge_expired world agent master (codes "SHA256:brief") refl distinct

validate_new_iff_example :
    (validate_new ascii default_passphrase_policy (codes "long enough") ≡ none)
    ↔ (acceptable ascii default_passphrase_policy (codes "long enough") ≡ true)
validate_new_iff_example = validate_new_iff ascii default_passphrase_policy (codes "long enough")
