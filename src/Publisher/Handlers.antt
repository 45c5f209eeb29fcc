-- ===== src/Publisher/Handlers.antt =====
-- publisher.go: the sections that run under a pending message's lock. Each takes the message and
-- returns it as it leaves it, with the effects on the rest of the publisher.
use go_rabbitmq.Base.{
  ℕ, String, Bool, true, false, not, ◌&&◌, ◌||◌, none, some, is_some, List, [], ◌∷◌, ltb,
  if◌then◌else◌,
}
use go_rabbitmq.Message.{DeliveryOutcome, success, failed, nacked, timeout}
use go_rabbitmq.Publisher.State.{
  ErrorText, no_error, negatively_acknowledged, message_returned, channel_closed,
  confirmation_timeout, Timer, unset, stopped, armed_grace, PendingMessage, PublisherConfig,
  finish_async, retry_message, Counter, total_confirmed, total_returned, total_nacked,
  total_timed_out, total_orphaned, Effect, bump, note_failure, go,
}

abbrev pub Locked : Type 0
Locked = PendingMessage × List Effect

-- `Stop` on a timer that may be nil.
abbrev pub stop : Timer → Timer
stop unset = unset
stop _ = stopped

-- `attempt`: the description of the message, with a clean outcome state.
unfoldable pub attempt : PendingMessage → PendingMessage
attempt m = record m {
  timeout_timer = unset;
  key = 0;
  broker_tag = 0;
  generation = 0;
  in_flight = false;
  orphan_deferred = false;
  orphan_reason = "";
  timeout_deferred = false;
  confirmed = false;
  returned = false;
  return_reason = no_error;
  was_nacked = false;
  callback_fired = false;
  final_outcome = none;
  final_error = no_error;
}

-- What `tryFinalizeMessage` concludes from the flags.
pub data Verdict : Type 0 where
  finalize : DeliveryOutcome → ErrorText → Verdict
  grace wait : Verdict

unfoldable pub verdict : PendingMessage → Verdict
verdict m =
    if m.was_nacked
    then finalize nacked negatively_acknowledged
    else if m.returned
    then finalize failed m.return_reason
    else if m.confirmed && not m.mandatory
    then finalize success no_error
    else if m.confirmed && m.mandatory
    then grace
    else wait

abbrev pub counter_of : DeliveryOutcome → Counter
counter_of success = total_confirmed
counter_of failed = total_returned
counter_of nacked = total_nacked
counter_of timeout = total_timed_out

abbrev pub is_nacked : DeliveryOutcome → Bool
is_nacked nacked = true
is_nacked _ = false

unfoldable pub should_retry : PublisherConfig → DeliveryOutcome → PendingMessage → Bool
should_retry c outcome m =
    is_nacked outcome
    && c.enable_automatic_retries
    && is_some m.original_message
    && ltb m.retry_count c.max_retry_attempts

unfoldable pub conclude : PublisherConfig → PendingMessage → Verdict → Locked
unfolding should_retry
conclude c m wait = (m, [])
conclude c m grace = (record m { timeout_timer = armed_grace m.key }, [])
conclude c m (finalize outcome error) = (
  record m {
    callback_fired = true;
    final_outcome = some outcome;
    final_error = error;
    timeout_timer = stop m.timeout_timer;
  },
  bump (counter_of outcome)
      ∷ go (
          if should_retry c outcome m
          then retry_message
          else finish_async m.message_id m.key m.callback outcome error)
      ∷ [],
)

unfoldable pub try_finalize_message : PublisherConfig → PendingMessage → Locked
unfolding verdict conclude
try_finalize_message c m = if m.callback_fired then (m, []) else conclude c m (verdict m)

-- `handleConfirmation` from its lock on.
unfoldable pub confirmation_locked : PublisherConfig → Bool → PendingMessage → Locked
unfolding try_finalize_message
confirmation_locked c ack m =
    try_finalize_message c
      (if ack then record m { confirmed = true } else record m { was_nacked = true })

-- `handleReturn` from its lock on.
unfoldable pub return_locked : PublisherConfig → String → ℕ → PendingMessage → Locked
unfolding try_finalize_message
return_locked c reply_text reply_code m =
    if m.callback_fired
    then (m, [])
    else try_finalize_message c
        (record m { returned = true; return_reason = message_returned reply_text reply_code })

-- `handleMandatoryGracePeriodExpired` from its lock on; `tag` is the timer's argument.
unfoldable pub grace_locked : ℕ → PendingMessage → Locked
grace_locked tag m = if m.callback_fired then (m, []) else if m.returned then (m, []) else (
  record m { callback_fired = true; final_outcome = some success; final_error = no_error },
  bump total_confirmed ∷ go (finish_async m.message_id tag m.callback success no_error) ∷ [],
)

-- `handleTimeout` from its lock on.
unfoldable pub timeout_locked : PublisherConfig → ℕ → PendingMessage → Locked
timeout_locked c tag m =
    if m.callback_fired
    then (m, [])
    else if m.in_flight
    then (record m { timeout_deferred = true }, [])
    else let error = confirmation_timeout c.delivery_timeout in
      (
        record m { callback_fired = true; final_outcome = some timeout; final_error = error },
        bump total_timed_out
            ∷ note_failure m.generation error
            ∷ go (finish_async m.message_id tag m.callback timeout error)
            ∷ [],
      )

-- `settleOrphan`.
unfoldable pub settle_orphan : String → PendingMessage → Locked
settle_orphan reason m =
    if m.callback_fired || m.confirmed || m.was_nacked || m.returned
    then (m, [])
    else if m.in_flight
    then (record m { orphan_deferred = true; orphan_reason = reason }, [])
    else let error = channel_closed reason in
      (
        record m {
          callback_fired = true;
          final_outcome = some failed;
          final_error = error;
          timeout_timer = stop m.timeout_timer;
        },
        bump total_orphaned
            ∷ note_failure m.generation error
            ∷ go (finish_async m.message_id m.key m.callback failed error)
            ∷ [],
      )

-- The section of `publishTracked` after the send returned.
unfoldable pub send_returned : Bool → PendingMessage → PendingMessage
send_returned sent m =
    if sent
    then record m { in_flight = false }
    else record m { in_flight = false; callback_fired = true; timeout_timer = stop m.timeout_timer }
