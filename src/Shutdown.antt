-- ===== src/Shutdown.antt =====
-- shutdown/shutdown.go: ShutdownManager and InFlightTracker, with the goroutines of a shutdown in any
-- order.
pub mod State
pub mod Run
pub mod Coherent
pub mod Once
pub mod Refusal
mod Tests
