-- ===== src/HttpApi.antt =====
-- internal/httpapi: the HTTP interface.
pub mod Limits
pub mod Config
pub mod Envelopes
pub mod PreDispatch
mod Examples
