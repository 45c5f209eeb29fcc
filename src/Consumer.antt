-- ===== src/Consumer.antt =====
-- consumer.go: message handling.
pub mod Delivery
pub mod Errors
pub mod Process
pub mod Settlement
pub mod Policy
pub mod Retries
pub mod Batch
mod Tests
