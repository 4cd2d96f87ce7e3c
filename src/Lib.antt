-- ===== src/Lib.antt =====
-- sshush is an SSH agent with an encrypted vault, an SSH server and front ends over both. The
-- development models the parts that hold keys and decide who may use them, and what the front ends
-- do with them:
--
--   Op          internal/agent/op.go: the bodies of the sshush-op extension (EncodeOpRequest,
--               DecodeOpRequest, EncodeOpResponse, DecodeOpResponse, errorForStatus)
--   Kdf         internal/kdf/kdf.go: DeriveKey, GenerateSalt, ConstantTimeCompare
--   Openssh     internal/openssh/parse.go: ParsePrivateKeyBlob
--   Vault       internal/vault: Types and Store are store.go (the store, its file, Open and Save),
--               Cipher is cipher.go, Keys keys.go, Verify verify.go, Init init.go and recovery.go,
--               Policy passphrase_policy.go, Payload payload.go and the parsers of op.go, Resolve
--               resolve.go and list.go. State, Agent, Lock, Sign and Session are the methods of
--               VaultAgent in agent.go, Serve is handleOp and Extension.
--   Keyring     internal/agent/kdf_locked_keyring.go: the lock of the keys-only agent
--   Session     internal/agent/session.go and backend_kind.go, internal/vault/session_ops.go: the
--               client's side
--   PasswordGuard   internal/server/password_guard.go: the lockout of the SSH server
--   Environ     internal/server/environ.go: the environment of a session (sessionEnv)
--   KeyFiles    internal/agent/keys.go: key files and the registry of their paths; KeyFiles.Registry
--               has the proofs
--   VaultOps    internal/vaultops: Errors is errors.go (describe, CodeOf, HintOf), Conn and Attach
--               are conn.go (open, attachAgent, unlockIfLocked), Selectors its resolution of
--               selectors, Verbs keys.go, Settings lock.go and session.go, Listing list.go, Init
--               init.go, Loop the loop over several arguments. Codes, Connected, Shown and
--               Prompt have the proofs
--   Paths       internal/utils/path.go and internal/vault/path.go: Home is ExpandHomeDirectory and
--               ContractHomeDirectory, Discovery is DiscoverKeyPaths; Home, Index and Distinct
--               have the proofs
--   Server      internal/server: Auth is auth_agent.go, auth_file.go and auth_vault.go, ConnLog and
--               AuthLog are connlog.go, Accept the callbacks, the lifecycle, hostkey.go and log.go,
--               Requests is channels.go; AuthorizedKeys, Closing, SignedIn have the proofs
--   Theme       internal/theme: validate.go, themes.go and default.go; Colours has the proofs
--   Config      internal/config/config.go: the document of the file and the configuration that it
--               gives; Document has the proofs
--   Version     internal/version/check.go: the comparison of versions; Order has the proofs
--   ReadyPipe   internal/readypipe/readypipe.go: the two ends of the pipe; Signals has the proofs
--   Runtime     internal/runtime/runtime.go and internal/platform: the paths of the program's files
--   KeyPairs    internal/keys: key pairs that are generated, read and saved
--   Daemon      internal/sshushd/control.go and helpers.go: the start and stop of the daemons
--   EditComment     internal/editcomment: the editing of a key's comment, and SyncAgent
--   External    the code that the program calls: golang.org/x/crypto, crypto/aes, crypto/ed25519,
--               crypto/x509. It is a record of functions that the definitions take, with the laws
--               that theorems need (CryptoLaws, KeyLaws)
--   Prelude     shared types, tests, lists, byte strings, big-endian numbers, UTF-8, and path/filepath
--               and strings as far as the source uses them (FilePath, Case, Text)
--   Examples    external code on which the laws hold, and the theorems at concrete inputs
--
-- A client reaches the vault's agent by the methods of an SSH agent or by sshush-op, through a
-- Session; the verbs of VaultOps open such a session, ask for the passphrase when the vault of the
-- agent is locked, and turn its errors into codes with messages. Vault.Calls lists these calls,
-- and a run is a list of calls, since the agent's mutex makes each call one step (List, Sign and
-- signerForKey take it more than once, and their parts are one step here all the same). Each step
-- takes a World: the clock, what a read of randomness gives, and which system calls of Save fail.
-- A method is a function from the state to the state and a result, and the errors are values. The
-- proofs about it stand in Vault.Invariant, Vault.Locked, Vault.Visible, Vault.Served,
-- Vault.Signing, Vault.Unlocking, Vault.Expiry, Vault.Crashes and Vault.Strength.
--
-- A byte string is a list of natural numbers, a text is its bytes, a time is a number of
-- nanoseconds. Lengths go through four big-endian bytes with their wrap-around, so that the round
-- trips are stated for lengths below 2 ^ 32. Indexing and slicing out of range is a panic, which
-- ends the process. No definition runs on fuel that can run out: the three loops on a counted
-- budget, trimming, decoding runes and replacing what is not UTF-8, take the length of their input,
-- and each turn uses at least one byte (width-strip, runes_loop-fuel and valid_loop-fuel).
--
-- What asks the operating system or a library is a parameter: the files with what they hold, the
-- entries of a directory, the home directory and the environment, whether a socket answers, what a
-- prompt returns, and what x/crypto parses as a key.
--
-- Not modelled: the JSON and base64 encoding of the vault file, but for what encoding/json does to
-- comments and paths that are not UTF-8, TOML and the writing of the
-- configuration, HTTP and the replacement of the binary (internal/version), the erasure of memory,
-- the accept loops of the agent and of the SSH server (internal/agent/server.go, ListenAndServe),
-- its shells (internal/server/shell.go), what the daemons do once they run (internal/sshushd), the
-- contrast of colours, which is a number of floating point, the command line and the terminal user
-- interface (internal/cli, internal/tui).
pub mod Config
pub mod Daemon
pub mod EditComment
pub mod Environ
pub mod Examples
pub mod External
pub mod Kdf
pub mod KeyFiles
pub mod KeyPairs
pub mod Keyring
pub mod Op
pub mod Openssh
pub mod PasswordGuard
pub mod Paths
pub mod Prelude
pub mod ReadyPipe
pub mod Runtime
pub mod Server
pub mod Session
pub mod Theme
pub mod Vault
pub mod VaultOps
pub mod Version
