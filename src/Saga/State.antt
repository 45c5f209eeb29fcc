-- ===== src/Saga/State.antt =====
-- saga/saga.go: the data of a saga. Times are left out; `CompletedAt` is whether it is set.
use go_rabbitmq.Base.{String, Bool, true, false, List}
use go_rabbitmq.Message.{Table}

-- `State`, of a saga and of a step.
pub data State : Type 0 where
  started completed failed compensating compensated : State

pub record Step : Type 0 where
  pub id : String
  pub name : String
  pub action : String
  pub compensation : String
  pub input : Table
  pub output : Table
  pub status : State
  pub error : String

pub record Saga : Type 0 where
  pub id : String
  pub name : String
  pub state : State
  pub steps : List Step
  pub context : Table
  pub completed_at : Bool

abbrev pub is_started : State → Bool
is_started started = true
is_started _ = false

abbrev pub is_completed : State → Bool
is_completed completed = true
is_completed _ = false

abbrev pub is_failed : State → Bool
is_failed failed = true
is_failed _ = false

abbrev pub is_compensating : State → Bool
is_compensating compensating = true
is_compensating _ = false
