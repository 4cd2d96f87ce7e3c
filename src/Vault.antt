-- ===== src/Vault.antt =====
-- internal/vault: the encrypted identity store and the agent that serves it.
pub mod Payload
pub mod Types
pub mod Store
pub mod Cipher
pub mod Keys
pub mod Verify
pub mod State
pub mod Policy
pub mod Init
pub mod Agent
pub mod Lock
pub mod Sign
pub mod Session
pub mod Serve
pub mod Calls
pub mod Replies
pub mod Invariant
pub mod Locked
pub mod Visible
pub mod Signing
pub mod Resolve
pub mod Unlocking
pub mod Crashes
pub mod Strength
pub mod Expiry
pub mod Served
