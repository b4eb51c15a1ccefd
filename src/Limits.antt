-- ===== src/Limits.antt =====
-- internal/limits/tracker.go: rate limits by fixed windows, cooldowns, concurrency slots.
pub mod Window
pub mod Concurrency
pub mod Tracker
pub mod Exhaustion
pub mod Admission
pub mod Restore
pub mod Cooldown
pub mod Interleaving
mod Examples
