-- ===== src/Message.antt =====
-- types.go: the message, header values, and the types that delivery assurance shares.
pub mod Build
pub mod Convert
pub mod Properties
mod Tests
use go_rabbitmq.Base.{ℕ, String, Bool, Option, List}
use go_rabbitmq.Base.Int.{ℤ}

-- A header value: the integer types that the code tells apart, a text, or a value of another type.
pub data Value : Type 0 where
  int : ℤ → Value
  int32 : ℤ → Value
  int64 : ℤ → Value
  text : String → Value
  other : ℕ → Value

-- A nil map and an empty one differ where the code tests for nil.
abbrev pub Table : Type 0
Table = Option (List (String × Value))

pub record Message : Type 0 where
  pub body : List ℕ
  pub content_type : String
  pub headers : Table
  pub exchange : String
  pub routing_key : String
  pub persistent : Bool
  pub message_id : String
  pub correlation_id : String
  pub reply_to : String
  pub type_name : String
  pub app_id : String
  pub user_id : String
  pub timestamp : ℕ
  pub expiration : String
  pub priority : ℕ

pub data DeliveryOutcome : Type 0 where
  success failed nacked timeout : DeliveryOutcome

-- A callback is known by a number; `none` is nil. A duration of 0 selects the publisher's default.
pub record DeliveryOptions : Type 0 where
  pub message_id : String
  pub mandatory : Bool
  pub callback : Option ℕ
  pub timeout : ℕ

pub record DeliveryStats : Type 0 where
  pub total_published : ℕ
  pub total_confirmed : ℕ
  pub total_returned : ℕ
  pub total_nacked : ℕ
  pub total_timed_out : ℕ
  pub total_orphaned : ℕ
  pub pending_messages : ℕ
