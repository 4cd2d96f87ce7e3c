-- ===== src/Examples/Environments.antt =====
-- The environment of a session on a daemon that was started from a terminal.
use sshush.Prelude.{◌≡◌, false, Option, none, some, List, [], ◌∷◌, Bytes, codes}
use sshush.Environ.{is_set, session_env, split_addr}
use sshush.Environ.Variables.{both, session_env-variables}

-- Every address is a host on port 22.
abbrev on_port_22 : Bytes → Option (Bytes × Bytes)
on_port_22 addr = some (addr, codes "22")

abbrev user : Option (Bytes × Bytes)
user = some (codes "ann", codes "/home/ann")

abbrev daemon_env : List Bytes
daemon_env = codes "TERM=xterm" ∷ codes "PATH=/bin" ∷ []

abbrev remote : Option Bytes
remote = some (codes "192.0.2.1")

abbrev env : List Bytes
env = session_env on_port_22 user daemon_env remote none (codes "/bin/sh")

session_env-variables_example :
    (is_set (codes "TERM") env ≡ false)
    × (is_set (codes "SSH_TTY") env ≡ false)
    × (is_set (codes "SSH_CLIENT") env
        ≡ both (split_addr on_port_22 remote) (split_addr on_port_22 none))
    × (is_set (codes "SSH_CONNECTION") env
        ≡ both (split_addr on_port_22 remote) (split_addr on_port_22 none))
session_env-variables_example =
    session_env-variables on_port_22 user daemon_env remote none (codes "/bin/sh")
