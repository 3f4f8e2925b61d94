-- ===== src/Fsm.antt =====
-- src/chattice/fsm: where workflow state is kept, under which key, and how it is changed.
pub mod Key
pub mod Json
pub mod Memory
pub mod Record
pub mod Contract
pub mod Context
