-- ===== src/Publisher/State.antt =====
-- publisher.go: the state of delivery assurance. Pending messages are shared by the pending map,
-- timers and goroutines, so they live on a heap and are known by their address, the position on it.
-- Times and logging are left out; texts that the code formats are constructors of `ErrorText`.
use go_rabbitmq.Base.{ℕ, String, Bool, Option, List}
use go_rabbitmq.Message.{Message, DeliveryOutcome, DeliveryOptions, DeliveryStats}
use go_rabbitmq.PendingMap.{ShardedPendingMap}

pub data ErrorText : Type 0 where
  no_error : ErrorText
  negatively_acknowledged : ErrorText
  message_returned : String → ℕ → ErrorText
  channel_closed : String → ErrorText
  confirmation_timeout : ℕ → ErrorText
  nacked_after_retries : ℕ → ErrorText

-- `TimeoutTimer`: not created, armed for one of its two callbacks under a key, or stopped.
pub data Timer : Type 0 where
  unset stopped : Timer
  armed_timeout : ℕ → Timer
  armed_grace : ℕ → Timer

pub record PendingMessage : Type 0 where
  pub message_id : String
  pub callback : Option ℕ
  pub timeout_timer : Timer
  pub key : ℕ
  pub broker_tag : ℕ
  pub generation : ℕ
  pub timeout : ℕ
  pub in_flight : Bool
  pub orphan_deferred : Bool
  pub orphan_reason : String
  pub timeout_deferred : Bool
  pub exchange : String
  pub routing_key : String
  pub mandatory : Bool
  pub original_message : Option Message
  pub original_context : Option ℕ
  pub retry_count : ℕ
  pub retry_options : DeliveryOptions
  pub confirmed : Bool
  pub returned : Bool
  pub return_reason : ErrorText
  pub was_nacked : Bool
  pub callback_fired : Bool
  pub final_outcome : Option DeliveryOutcome
  pub final_error : ErrorText

pub record PublisherConfig : Type 0 where
  pub default_exchange : String
  pub default_delivery_callback : Option ℕ
  pub delivery_timeout : ℕ
  pub default_mandatory : Bool
  pub enable_automatic_retries : Bool
  pub max_retry_attempts : ℕ

pub record ConfirmGeneration : Type 0 where
  pub id : ℕ
  pub ch_closed : Bool
  pub published : ℕ
  pub dead : Bool

-- The goroutines that a handler starts: `finishAsync`, with what it captured, and `retryMessage`.
pub data Task : Type 0 where
  finish_async : String → ℕ → Option ℕ → DeliveryOutcome → ErrorText → Task
  retry_message : Task

pub data Counter : Type 0 where
  total_confirmed total_returned total_nacked total_timed_out total_orphaned : Counter

-- What a section under a message's lock does to the rest of the publisher, in program order.
pub data Effect : Type 0 where
  bump : Counter → Effect
  note_failure : ℕ → ErrorText → Effect
  go : Task → Effect

-- What became of one publish attempt: its callback was called (`none` is a nil callback, which is
-- skipped), its publish call returned an error, or a retry took it over.
pub data Signal : Type 0 where
  called : Option ℕ → String → DeliveryOutcome → ErrorText → Signal
  send_error : Signal
  republished : Option Message → DeliveryOptions → ℕ → Signal

pub record Publisher : Type 0 where
  pub config : PublisherConfig
  pub closed : Bool
  pub generations : List ConfirmGeneration
  pub confirm_gen : ℕ
  pub heap : List PendingMessage
  pub pending_messages : ShardedPendingMap
  pub stats : DeliveryStats
  pub failures_since_response : ℕ
  pub last_err : ErrorText
  -- The message whose send is in progress: its publisher holds `publishMu`.
  pub sending : Option ℕ
  -- The goroutines that have not run, and the signals given, each with the message's address.
  pub tasks : List (ℕ × Task)
  pub signals : List (ℕ × Signal)
