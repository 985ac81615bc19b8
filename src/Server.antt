-- ===== src/Server.antt =====
-- internal/server: the inbound server.
pub mod Config
pub mod Bounds
mod Examples
