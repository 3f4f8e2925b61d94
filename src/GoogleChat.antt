-- ===== src/GoogleChat.antt =====
-- src/chattice/adapters/google_chat: from the JSON of an interaction to a domain event.
pub mod Values
pub mod Envelope
pub mod Inputs
pub mod Models
pub mod Parser
