-- ===== src/Capabilities.antt =====
-- src/chattice/capabilities: what a response channel can do, and which outbound calls the local
-- configuration allows.
pub mod Operations
pub mod Specs
pub mod Registry
pub mod Response
