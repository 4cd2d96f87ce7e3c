-- ===== src/VaultOps.antt =====
-- internal/vaultops: the vault operations as the front ends perform them, on one connection to the
-- agent and one reading of the vault file.
pub mod Errors
pub mod Conn
pub mod Attach
pub mod Selectors
pub mod Loop
pub mod Verbs
pub mod Settings
pub mod Listing
pub mod Init
pub mod Codes
pub mod Connected
pub mod Shown
pub mod Prompt
