-- ===== src/Idempotency.antt =====
-- src/chattice/idempotency.py: which delivery attempt owns a message.
pub mod Memory
pub mod Redis
pub mod Contract
