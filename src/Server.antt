-- ===== src/Server.antt =====
-- internal/server: who may sign in, what a client may open, and the log of its connections.
pub mod Auth
pub mod AuthorizedKeys
pub mod ConnLog
pub mod AuthLog
pub mod Closing
pub mod SignedIn
pub mod Accept
pub mod Requests
