-- ===== src/Examples/Clients.antt =====
-- A session on the vault's agent.
use sshush.Prelude.{refl, false, Option, none, some, Bytes, bytes_eq, if◌then◌else◌}
use sshush.Op.{extension_op}
use sshush.Vault.State.{VaultAgent}
use sshush.Vault.Serve.{handle_op}
use sshush.Session.{Client, ExtensionReply, unsupported, broken}
use sshush.Session.VaultClient.{delivered, IsConnected}
use sshush.Examples.Toy.{toy, world}

-- The agent in the same process, which answers only sshush-op.
abbrev pub asked : Bytes → Bytes → Option VaultAgent → Option VaultAgent × ExtensionReply
asked name contents none = (none, broken)
asked name contents (some a) =
    if bytes_eq name extension_op
    then delivered (handle_op toy world contents a)
    else (some a, unsupported)

abbrev pub connection : Client (Option VaultAgent)
connection = record {
  extension = asked;
  lock = λ passphrase s. (s, false);
  unlock = λ passphrase s. (s, false);
  list = λ s. (s, none);
  remove = λ key s. (s, false);
}

pub connected : IsConnected toy world connection
unfolding IsConnected bytes_eq
connected contents a = refl
