-- ===== src/Publisher/Outcome/Truthful.antt =====
-- On every run, what callbacks are told of a message is true of it.
use go_rabbitmq.Base.{◌≡◌, ◌⊎◌, true}
use go_rabbitmq.Message.{DeliveryOutcome, success, failed, nacked, timeout}
use go_rabbitmq.Publisher.State.{
  ErrorText, PendingMessage, Signal, called, send_error, republished, Publisher,
}
use go_rabbitmq.Publisher.Outcome.{is_channel_closed, is_timeout}

-- What has to be known of a message for an outcome to be reported with a text.
abbrev pub Evidence : DeliveryOutcome → ErrorText → PendingMessage → Type 0
Evidence success error m = m.confirmed ≡ true
Evidence nacked error m = m.was_nacked ≡ true
Evidence failed error m =
    ((m.returned ≡ true) × (error ≡ m.return_reason)) ⊎ (is_channel_closed error ≡ true)
Evidence timeout error m = is_timeout error ≡ true

-- A signal about a message: a callback is the message's own, is told its ID, and an outcome for which there
-- is evidence; only a message that was nacked is published again; and the message is decided.
abbrev pub IsTruthful : Signal → PendingMessage → Type 0
IsTruthful (called callback id outcome error) m =
    (id ≡ m.message_id)
    × (callback ≡ m.callback)
    × (m.callback_fired ≡ true)
    × Evidence outcome error m
IsTruthful send_error m = m.callback_fired ≡ true
IsTruthful (republished original options n) m = (m.was_nacked ≡ true) × (m.callback_fired ≡ true)
