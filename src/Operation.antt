-- ===== src/Operation.antt =====
-- internal/operation: the durable queue of CLI operations. The children follow the source's files.
pub mod Types
pub mod Build
pub mod Template
pub mod Journal
pub mod Manager
pub mod Admission
pub mod Lifecycle
pub mod Recovery
pub mod Target
pub mod Retention
pub mod Run
