-- ===== src/Vault/Session.antt =====
-- internal/vault/agent.go: the session sets and the stored attributes of an identity.
use sshush.Prelude.{Bool, true, false, not, Bytes, if◌then◌else◌, bytes_eq}
use sshush.Prelude.KeySet.{insert, delete}
use sshush.Vault.Types.{Identity}
use sshush.Vault.Store.{find_identity}
use sshush.Vault.Cipher.{Result, ok, err, locked, key_not_found, or_err, ◌>>=◌}
use sshush.Vault.Agent.{store_identity}
use sshush.Vault.State.{World, VaultAgent, Step}

-- `masterKey == nil` and then the identity with the fingerprint.
abbrev pub stored : Bytes → VaultAgent → Result Identity
stored fp a = do
  master_key ← or_err a.master_key locked
  or_err (find_identity fp a.store.identities) key_not_found

abbrev pub load : Bytes → VaultAgent → Result Identity → Step
load fp a (err e) = (a, err e)
load fp a (ok i) =
    let b : VaultAgent = record a { session_unloaded = delete fp a.session_unloaded } in
    if i.autoload
    then (b, ok tt)
    else (record b { session_autoload0 = insert fp b.session_autoload0 }, ok tt)

unfoldable pub session_load : Bytes → VaultAgent → Step
session_load fp a = load fp a (stored fp a)

abbrev pub unload : Bytes → VaultAgent → Result Identity → Step
unload fp a (err e) = (a, err e)
unload fp a (ok i) = (
  record a {
    session_autoload0 = delete fp a.session_autoload0;
    session_unloaded = insert fp a.session_unloaded;
  },
  ok tt,
)

unfoldable pub session_unload : Bytes → VaultAgent → Step
session_unload fp a = unload fp a (stored fp a)

abbrev pub eq_bool : Bool → Bool → Bool
eq_bool true b = b
eq_bool false b = not b

-- What setIdentityAutoload does after the save.
unfoldable pub settle_autoload : Bytes → Bool → VaultAgent → VaultAgent
settle_autoload fp on a = record a {
  session_autoload0 = if on then delete fp a.session_autoload0 else a.session_autoload0;
  session_unloaded = delete fp a.session_unloaded;
}

abbrev pub change_autoload : World → Bytes → Bool → VaultAgent → Result Identity → Step
change_autoload w fp on a (err e) = (a, err e)
change_autoload w fp on a (ok i) =
    if eq_bool i.autoload on
    then (a, ok tt)
    else store_identity w (record i { autoload = on }) (settle_autoload fp on) a

unfoldable pub set_identity_autoload : World → Bytes → Bool → VaultAgent → Step
unfolding settle_autoload
set_identity_autoload w fp on a = change_autoload w fp on a (stored fp a)

abbrev pub change_comment : World → Bytes → VaultAgent → Result Identity → Step
change_comment w comment a (err e) = (a, err e)
change_comment w comment a (ok i) =
    if bytes_eq i.comment comment
    then (a, ok tt)
    else store_identity w (record i { comment = comment }) (λ b. b) a

unfoldable pub set_identity_comment : World → Bytes → Bytes → VaultAgent → Step
set_identity_comment w fp comment a = change_comment w comment a (stored fp a)
