-- ===== src/Health.antt =====
-- health.go: the levels, the client's state as the verdicts read it, and the restart-storm guard.
-- Times are nanoseconds from Go's zero time, which is 0; an elapsed time that would be negative is 0,
-- which the comparisons with positive durations below do not tell apart.
pub mod State
mod Guards
pub use State.*
pub use Guards.*
pub mod Consumer
pub mod Subscriptions
pub mod Publisher
pub mod Clock
mod Tests
