-- ===== src/Publisher.antt =====
-- publisher.go.
pub mod State
pub mod Handlers
pub mod Effects
pub mod Track
pub mod Settles
pub mod Books
pub mod Run
pub mod Outcome
pub mod Publish
pub mod Encode
pub mod Entry
pub mod Attempts
pub mod Deferred
mod Tests
