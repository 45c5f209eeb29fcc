-- ===== src/Topology.antt =====
-- admin.go and topology_validation.go: what the client declares on the broker, what the registry keeps
-- of it, and how the validator restores it.
pub mod Config
pub mod Options
pub mod Registry
pub mod Broker
pub mod Literals
pub mod Admin
pub mod Declare
pub mod Settings
pub mod Validator
pub mod Adds
pub mod Grows
pub mod Loops
pub mod Accepting
pub mod Exist
pub mod Restored
pub mod Returned
pub mod Declared
pub mod Arguments
pub mod Quiet
pub mod Drift
pub mod Memory
mod Tests
