-- ===== src/Contract.antt =====
-- internal/contract: requests, responses and event streams.
pub mod Getting
pub mod Completing
pub mod Hex
pub mod Reason
pub mod Course
pub mod Decoding
pub mod Json
pub mod Ending
pub mod Documents
pub mod Scanning
pub mod Verdict
pub mod Readers
pub mod Escapes
pub mod Escaping
pub mod Objects
pub mod Members
pub mod Sse
pub mod Request
pub mod Response
mod Scenes
mod Examples
