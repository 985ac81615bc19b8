-- ===== src/Contract/Sse.antt =====
-- internal/contract/sse.go: strict event streams.
pub mod Chunk
pub mod Wire
pub mod Decoder
pub mod Lines
pub mod Checks
pub mod Events
pub mod Streams
pub mod Transcripts
pub mod Completions
pub mod Delivery
mod Scenes
mod Examples
