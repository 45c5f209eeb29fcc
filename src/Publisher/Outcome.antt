-- ===== src/Publisher/Outcome.antt =====
-- What a reported outcome says of the message: the invariant of a pending message, and that each
-- locked section keeps it.
pub mod Effects
pub mod Reached
pub mod Backed
pub mod Locked
pub mod Sections
pub mod Reports
pub mod Truthful
use go_rabbitmq.Base.{ℕ, ◌≡◌, ◌⊎◌, String, Bool, true, false, none, some, arith}
use go_rabbitmq.Message.{success, nacked, failed, timeout}
use go_rabbitmq.Publisher.State.{
  ErrorText, channel_closed, confirmation_timeout, Timer, armed_grace, PendingMessage,
  PublisherConfig, ConfirmGeneration,
}
use go_rabbitmq.Publisher.Handlers.{
  attempt, confirmation_locked, return_locked, grace_locked, timeout_locked, settle_orphan,
  send_returned,
}
use go_rabbitmq.Publisher.Track.{tracked, counted_retry}

abbrev pub is_grace : Timer → Bool
is_grace (armed_grace k) = true
is_grace _ = false

abbrev pub is_channel_closed : ErrorText → Bool
is_channel_closed (channel_closed r) = true
is_channel_closed _ = false

abbrev pub is_timeout : ErrorText → Bool
is_timeout (confirmation_timeout d) = true
is_timeout _ = false

pub record Sound (m : PendingMessage) : Type 0 where
  pub undecided : m.callback_fired ≡ false → m.final_outcome ≡ none
  pub success_confirmed : m.final_outcome ≡ some success → m.confirmed ≡ true
  pub nack_received : m.final_outcome ≡ some nacked → m.was_nacked ≡ true
  pub failure_known :
      m.final_outcome ≡ some failed
      → ((m.returned ≡ true) × (m.final_error ≡ m.return_reason))
        ⊎ (is_channel_closed m.final_error ≡ true)
  pub timeout_known : m.final_outcome ≡ some timeout → is_timeout m.final_error ≡ true
  pub grace_confirmed : is_grace m.timeout_timer ≡ true → m.confirmed ≡ true

module _ (c : PublisherConfig) where
  pub confirmation-Sound :
      (ack : Bool) (m : PendingMessage) → Sound m → Sound (confirmation_locked c ack m).0
  unfolding confirmation_locked
  confirmation-Sound ack m h = ground arith

  pub return-Sound :
      (text : String) (code : ℕ) (m : PendingMessage)
      → Sound m
      → Sound (return_locked c text code m).0
  unfolding return_locked
  return-Sound text code m h = ground arith

  pub timeout-Sound : (tag : ℕ) (m : PendingMessage) → Sound m → Sound (timeout_locked c tag m).0
  unfolding timeout_locked
  timeout-Sound tag m h = ground arith

pub grace-Sound :
    (tag key : ℕ) (m : PendingMessage)
    → m.timeout_timer ≡ armed_grace key
    → Sound m
    → Sound (grace_locked tag m).0
unfolding grace_locked
grace-Sound tag key m e h = ground arith

pub orphan-Sound :
    (reason : String) (m : PendingMessage) → Sound m → Sound (settle_orphan reason m).0
unfolding settle_orphan
orphan-Sound reason m h = ground arith

pub attempt-Sound :
    (gen : ConfirmGeneration) (duration : ℕ) (m : PendingMessage)
    → Sound (tracked gen duration (attempt m))
unfolding tracked attempt
attempt-Sound gen duration m = ground arith

pub send_returned-Sound :
    (sent : Bool) (m : PendingMessage) → Sound m → Sound (send_returned sent m)
unfolding send_returned
send_returned-Sound sent m h = ground arith

pub counted_retry-Sound : (m : PendingMessage) → Sound m → Sound (counted_retry m)
counted_retry-Sound m h = ground arith
