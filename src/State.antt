-- ===== src/State.antt =====
-- internal/state: which providers the router may use, what the report shows of them, and what is kept
-- on disk.
pub mod Manager
pub mod Report
pub mod Persistence
mod Examples
