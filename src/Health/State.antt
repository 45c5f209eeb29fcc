-- ===== src/Health/State.antt =====
-- health.go, client.go: the verdicts' levels, a snapshot of the client, and time.
use go_rabbitmq.Base.{ℕ, Bool, ◌==◌}

pub data HealthLevel : Type 0 where
  health_ok health_degraded health_stalled : HealthLevel

-- What the verdicts read of it.
pub record ClientState : Type 0 where
  pub connected : Bool
  pub reconnecting : Bool
  pub connected_at : ℕ
  pub blocked : Bool
  pub unblocked_at : ℕ
  pub gave_up : Bool

abbrev pub second : ℕ
second = 1000000000

abbrev pub is_zero : ℕ → Bool
is_zero t = t == 0
