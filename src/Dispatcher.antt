-- ===== src/Dispatcher.antt =====
-- src/chattice/dispatcher and src/chattice/filters/base.py: from an event to a handler.
pub mod Scope
pub mod Filters
pub mod Handler
pub mod Middleware
pub mod Router
pub mod Inclusion
pub mod Routing
pub mod Feed
