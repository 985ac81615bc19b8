-- ===== src/Contract/Request.antt =====
-- internal/contract/request.go and decode.go: the parser of requests.
pub mod Types
pub mod Reading
pub mod Parsing
pub mod Messages
pub mod Fields
pub mod Accepted
pub mod Reserving
mod Examples
