-- ===== src/Server.antt =====
-- internal/server: what the HTTP server answers, around the router.
pub mod Incoming
pub mod Relay
pub mod Pages
pub mod Relayed
pub mod Shown
mod Examples
