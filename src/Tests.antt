-- ===== src/Tests.antt =====
-- Runs of the models on concrete inputs, and the theorems at inputs that satisfy their hypotheses.
mod Filling
pub mod Parsing
mod Encoding
mod Calling
mod Storages
mod Dispatching
mod Delivery
mod Locking
mod Gateways
mod Redis
mod Including
