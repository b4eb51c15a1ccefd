-- ===== src/Start.antt =====
-- cmd/localrouter/main.go: how the program puts its parts together, at the start and on a reload.
pub mod Build
pub mod Boot
pub mod Reload
pub mod Built
pub mod Slots
pub mod Probed
pub mod Loaded
pub mod Reloaded
pub mod Watched
pub mod Refused
mod Examples
