-- ===== src/Vault/Calls.antt =====
-- Everything that a client can ask of the agent of internal/vault/agent.go, one call after another.
-- The mutex orders the calls of all connections.
use sshush.Prelude.{ℕ, Option, none, some, List, [], ◌∷◌, Bytes}
use sshush.External.{External, PublicKey}
use sshush.Vault.State.{World, VaultAgent}
use sshush.Vault.Agent.{AddedKey, list_keys, add, remove, remove_all}
use sshush.Vault.Lock.{lock, unlock}
use sshush.Vault.Sign.{sign, sign_with_flags}
use sshush.Vault.Serve.{Reply, answered, crashed, handle_op}

-- The methods of sshagent.ExtendedAgent; `op` is Extension with the contents of an sshush-op
-- request.
pub data Call : Type 0 where
  list_call remove_all_call : Call
  add_call : AddedKey → Call
  remove_call : PublicKey → Call
  lock_call unlock_call : Bytes → Call
  sign_call : PublicKey → Bytes → Call
  sign_flags_call : PublicKey → Bytes → ℕ → Call
  op_call : Bytes → Call

abbrev pub state_after : Reply → Option VaultAgent
state_after (answered a body) = some a
state_after crashed = none

-- The state after a call; `none` where the process has panicked.
unfoldable pub perform : External → World → Call → VaultAgent → Option VaultAgent
perform x w list_call a = some (list_keys w a).0
perform x w remove_all_call a = some (remove_all w a).0
perform x w (add_call key) a = some (add x w key a).0
perform x w (remove_call key) a = some (remove x w key a).0
perform x w (lock_call passphrase) a = some (lock passphrase a).0
perform x w (unlock_call passphrase) a = some (unlock x passphrase a).0
perform x w (sign_call key message) a = some (sign x w key message a).0
perform x w (sign_flags_call key message flags) a = some (sign_with_flags x w key message flags a).0
perform x w (op_call contents) a = state_after (handle_op x w contents a)

abbrev and_then : Option VaultAgent → (VaultAgent → Option VaultAgent) → Option VaultAgent
and_then none f = none
and_then (some a) f = f a

unfoldable pub run : External → List (World × Call) → VaultAgent → Option VaultAgent
run x [] a = some a
run x ((w, c) ∷ cs) a = and_then (perform x w c a) (run x cs)
