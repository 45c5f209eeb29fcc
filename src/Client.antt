-- ===== src/Client.antt =====
-- client.go: the state of a connection, dialling and reconnecting; consume_guard.go.
pub mod State
pub mod Reconnect
pub mod Rounds
pub mod Ending
mod Tests
