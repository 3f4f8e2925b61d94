-- ===== src/Client.antt =====
-- src/chattice/client: the outgoing calls.
pub mod Names
pub mod Paging
pub mod Errors
pub mod Bot
pub mod Executor
pub mod Messages
pub mod Spaces
pub mod Memberships
pub mod Reactions
