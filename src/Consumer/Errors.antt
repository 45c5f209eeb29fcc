-- ===== src/Consumer/Errors.antt =====
-- consumer.go: what a consumer does with a message after its handler, and the retry strategies.
use go_rabbitmq.Base.{◌+◌, String, Bool, true, false, Option, none, some, List, [], if◌then◌else◌}
use go_rabbitmq.Base.Int.{ℤ, pos, ltb_ℤ, ◌-ℤ◌, pos_part, neg_part, sub_ℕ}
use go_rabbitmq.Base.Eq.{String_eq}
use go_rabbitmq.Base.Dict.{lookup, insert}
use go_rabbitmq.Message.{Value, int, int32, int64, Table, Message}
use go_rabbitmq.Consumer.Delivery.{
  Wire, publish, Delivery, send, is_settled, ack_delivery, nack_delivery,
}

-- The part of the configuration that decides about failures. `QueueTypeClassic` is one of the queue
-- types; all others take the quorum strategy.
pub record ConsumerConfig : Type 0 where
  pub auto_ack : Bool
  pub max_retries : ℤ
  pub is_classic : Bool
  pub reject_requeue : Bool

-- An error of the handler: a `*RejectError`, or any other.
pub data HandlerError : Type 0 where
  reject_error : Bool → HandlerError
  other_error : HandlerError

abbrev pub field : String → Table → Option Value
field k none = none
field k (some t) = lookup k t

-- The integer in a header value, if it has one of the three types that the switches name.
abbrev pub integer : Option Value → Option ℤ
integer (some (int n)) = some n
integer (some (int32 n)) = some n
integer (some (int64 n)) = some n
integer _ = none

abbrev pub or_else {ℓ κ} : {A : Type ℓ} {B : Type κ} → Option A → (A → B) → B → B
or_else none f b = b
or_else (some a) f b = f a

-- Quorum queues first: the broker's delivery count less one; then the count of classic queues.
unfoldable pub get_retry_count : Table → ℤ
unfolding lookup
get_retry_count headers =
    or_else (integer (field "x-delivery-count" headers)) (λ v. v -ℤ pos 1)
      (or_else (integer (field "x-retry-count" headers)) (λ v. v) (pos 0))

abbrev pub entries : Table → List (String × Value)
entries none = []
entries (some t) = t

-- `v + 1`.
abbrev pub succ_ℤ : ℤ → ℤ
succ_ℤ v = sub_ℕ (pos_part v + 1) (neg_part v)

unfoldable pub retry_message : ℤ → Message → Message
unfolding insert
retry_message retry_count m = record m {
  headers = some (insert "x-retry-count" (int retry_count) (entries m.headers));
}

-- To the default exchange, with the queue's name as the routing key.
unfoldable pub republish_with_retry : (Wire → Bool) → String → ℤ → Delivery → Delivery × Bool
unfolding retry_message
republish_with_retry wire queue retry_count d =
    let w = publish "" queue (retry_message retry_count d.message) in (send w d, wire w)

abbrev pub count_requeue : Bool → Delivery → Delivery
count_requeue b d = if b then record d { requeued = d.requeued + 1 } else d

-- There are retries left. The backoff is a wait without effect.
unfoldable pub retry : (Wire → Bool) → ConsumerConfig → String → ℤ → Delivery → Delivery
unfolding republish_with_retry
retry wire c queue retry_count d =
    if c.is_classic
    then (let (d', published) = republish_with_retry wire queue (succ_ℤ retry_count) d in
        if published then count_requeue true (ack_delivery wire d') else nack_delivery false d')
    else count_requeue true (nack_delivery true d)

unfoldable pub handle_plain_error : (Wire → Bool) → ConsumerConfig → String → Delivery → Delivery
handle_plain_error wire c queue d =
    if ltb_ℤ (pos 0) c.max_retries
    then (let retry_count = get_retry_count d.message.headers in
        if ltb_ℤ retry_count c.max_retries
        then retry wire c queue retry_count d
        else nack_delivery false d)
    else count_requeue c.reject_requeue (nack_delivery c.reject_requeue d)

unfoldable pub handle_processing_error :
    (Wire → Bool) → ConsumerConfig → String → HandlerError → Delivery → Delivery
handle_processing_error wire c queue (reject_error requeue) d =
    if c.auto_ack
    then d
    else if is_settled d
    then d
    else count_requeue requeue (nack_delivery requeue d)
handle_processing_error wire c queue other_error d =
    if c.auto_ack then d else if is_settled d then d else handle_plain_error wire c queue d
