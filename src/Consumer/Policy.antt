-- ===== src/Consumer/Policy.antt =====
-- consumer.go: what a failed message becomes, under each configuration.
use go_rabbitmq.Base.{◌≡◌, String, Bool, true, false, List, [], ◌∷◌, arith, if◌then◌else◌}
use go_rabbitmq.Base.Int.{ℤ, pos, ltb_ℤ}
use go_rabbitmq.Message.{Message}
use go_rabbitmq.Consumer.Delivery.{
  Wire, ack, nack, publish, new_delivery, is_settled, ack_delivery, nack_delivery,
}
use go_rabbitmq.Consumer.Errors.{
  ConsumerConfig, HandlerError, reject_error, other_error, get_retry_count, succ_ℤ, retry_message,
  retry, handle_plain_error, republish_with_retry, handle_processing_error,
}

-- What the documentation of the retry options promises.
pub data Fate : Type 0 where
  nothing : Fate
  requeued dead_lettered : Fate
  -- Published again with the count, and acknowledged.
  counted_retry : ℤ → Fate
  -- That, but the publish failed.
  failed_retry : ℤ → Fate

abbrev pub requeued_if : Bool → Fate
requeued_if b = if b then requeued else dead_lettered

abbrev pub retried : Bool → Bool → ℤ → Fate
retried is_classic published retry_count =
    if is_classic
    then (if published
        then counted_retry (succ_ℤ retry_count)
        else failed_retry (succ_ℤ retry_count))
    else requeued

abbrev pub published_again : (Wire → Bool) → String → Message → Bool
published_again wire queue m =
    wire (publish "" queue (retry_message (succ_ℤ (get_retry_count m.headers)) m))

abbrev pub fate : (Wire → Bool) → ConsumerConfig → String → HandlerError → Message → Fate
fate wire c queue (reject_error requeue) m = if c.auto_ack then nothing else requeued_if requeue
fate wire c queue other_error m =
    if c.auto_ack
    then nothing
    else if ltb_ℤ (pos 0) c.max_retries
    then (if ltb_ℤ (get_retry_count m.headers) c.max_retries
        then retried c.is_classic (published_again wire queue m) (get_retry_count m.headers)
        else dead_lettered)
    else requeued_if c.reject_requeue

-- The operations on the broker that a fate stands for, newest first.
abbrev pub carried_out : String → Message → Fate → List Wire
carried_out queue m nothing = []
carried_out queue m requeued = nack true ∷ []
carried_out queue m dead_lettered = nack false ∷ []
carried_out queue m (counted_retry n) = ack ∷ publish "" queue (retry_message n m) ∷ []
carried_out queue m (failed_retry n) = nack false ∷ publish "" queue (retry_message n m) ∷ []

-- What a failed message causes on the broker is its fate's operations and no other: nothing under
-- automatic acknowledgment; a nack as the handler's RejectError says; while retries are left, a requeue
-- on a quorum queue, and on a classic queue a republish with the next count that is followed by the
-- acknowledgment, or by a nack without requeue if the publish failed; a nack without requeue when the
-- retries are exhausted; and a nack as RejectRequeue says when none are configured.
pub error_fate :
    (wire : Wire → Bool) (c : ConsumerConfig) (queue : String) (e : HandlerError) (m : Message)
    → (handle_processing_error wire c queue e (new_delivery m)).log
      ≡ carried_out queue m (fate wire c queue e m)
unfolding handle_processing_error handle_plain_error retry republish_with_retry ack_delivery
    nack_delivery is_settled new_delivery
error_fate wire c queue (reject_error b) m = ground arith
error_fate wire c queue other_error m = ground arith
