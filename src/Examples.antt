-- ===== src/Examples.antt =====
-- The theorems at concrete inputs.
pub mod Toy
pub mod Stores
pub mod Agents
pub mod Secrets
pub mod Wire
pub mod Clients
pub mod Guards
pub mod Limits
pub mod Environments
pub mod Front
pub mod Services
