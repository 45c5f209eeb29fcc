-- ===== src/Saga.antt =====
-- saga/saga.go: sagas, their store and the manager that runs and compensates them.
pub mod State
pub mod Store
pub mod Manager
pub mod Handlers
pub mod Sending
pub mod Compensation
pub mod Progress
pub mod Ending
pub mod Run
pub mod Completion
pub mod Next
mod Tests
