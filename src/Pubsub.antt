-- ===== src/Pubsub.antt =====
-- src/chattice/transports/pubsub_runner.py: the streaming-pull subscriber.
pub mod Effects
pub mod Locks
pub mod Runner
