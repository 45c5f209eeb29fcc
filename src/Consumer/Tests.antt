-- ===== src/Consumer/Tests.antt =====
-- Messages through the consumer, and its theorems at concrete inputs.
use go_rabbitmq.Base.{
  ◌+◌, ◌≡◌, refl, arith, true, false, none, some, List, [], ◌∷◌, map, if◌then◌else◌, leb, length,
  All,
}
use go_rabbitmq.Base.Int.{pos}
use go_rabbitmq.Base.Dict.{lookup}
use go_rabbitmq.Message.{Message, int64, text}
use go_rabbitmq.Consumer.Delivery.{nack, Delivery, new_delivery}
use go_rabbitmq.Consumer.Errors.{
  ConsumerConfig, other_error, handle_processing_error, get_retry_count, field,
}
use go_rabbitmq.Consumer.Process.{
  acks, nacks, Handler, panics, Codec, decode_message, process_message,
}
use go_rabbitmq.Consumer.Settlement.{settlements_in, to_ℕ, handler_settles, process_message_settles}
use go_rabbitmq.Consumer.Policy.{fate, carried_out, error_fate}
use go_rabbitmq.Consumer.Retries.{
  reliable, classic_life, retries_then_nack, classic_retries, quorum_retries,
}
use go_rabbitmq.Consumer.Batch.{BatchRun, returns, process_batch, process_batch_settles}

abbrev order : Message
order = record {
  body = 1 ∷ 2 ∷ [];
  content_type = "application/json";
  headers = none;
  exchange = "events";
  routing_key = "order.created";
  persistent = true;
  message_id = "m1";
  correlation_id = "";
  reply_to = "";
  type_name = "order";
  app_id = "shop";
  user_id = "";
  timestamp = 0;
  expiration = "";
  priority = 0;
}

-- The third redelivery of a quorum queue.
abbrev redelivered : Message
redelivered = record order { headers = some (("x-delivery-count", int64 (pos 3)) ∷ []) }

abbrev encrypted : Message
encrypted = record order { headers = some (("x-encryption", text "aes") ∷ []) }

abbrev quorum : ConsumerConfig
quorum = record { auto_ack = false; max_retries = pos 3; is_classic = false; reject_requeue = true }

abbrev classic : ConsumerConfig
classic = record { auto_ack = false; max_retries = pos 2; is_classic = true; reject_requeue = true }

-- It acknowledges, tries to nack as well, and panics.
abbrev careless : Message → Handler
careless m = record { settlements = acks ∷ nacks true ∷ []; ending = panics }

abbrev stripper : Codec
stripper = record { algorithm = "aes"; decode = λ body. some [] }

process_message_settles_example :
    settlements_in
      (process_message reliable quorum (some stripper) none "orders" careless encrypted).log
    ≡ (if quorum.auto_ack
        then to_ℕ (handler_settles careless (decode_message (some stripper) none encrypted))
        else 1)
process_message_settles_example =
    process_message_settles reliable quorum (some stripper) none "orders" careless encrypted

error_fate_example :
    (handle_processing_error reliable classic "orders" other_error (new_delivery order)).log
    ≡ carried_out "orders" order (fate reliable classic "orders" other_error order)
error_fate_example = error_fate reliable classic "orders" other_error order

not_retried_yet : get_retry_count order.headers ≡ pos 0
unfolding get_retry_count
not_retried_yet = refl

classic_retries_example :
    classic_life 3 classic "orders" order ≡ retries_then_nack 2 0 "orders" order
classic_retries_example =
    classic_retries classic "orders" 2 0 order refl refl refl (omega arith) not_retried_yet refl 3
      (omega arith)

third_redelivery : field "x-delivery-count" redelivered.headers ≡ some (int64 (pos 3))
unfolding lookup
third_redelivery = refl

no_other_count : field "x-retry-count" redelivered.headers ≡ none
unfolding lookup
no_other_count = refl

-- A fourth failure with `max_retries` 3 is still requeued.
quorum_retries_example :
    (handle_processing_error reliable quorum "orders" other_error (new_delivery redelivered)).log
    ≡ nack (leb 3 3) ∷ []
quorum_retries_example =
    quorum_retries reliable quorum "orders" 3 2 redelivered refl refl refl third_redelivery
      no_other_count

-- It settles the first of two messages itself, and returns one error too few.
abbrev short_of_errors : List Delivery → BatchRun
short_of_errors ds = record { settlements = (acks ∷ []) ∷ []; ending = returns (true ∷ []) }

process_batch_settles_example :
    let result =
      process_batch reliable false true short_of_errors
        (map new_delivery (order ∷ encrypted ∷ [])) in
    All (λ d. settlements_in d.log ≡ 1) result.deliveries
    × (length result.deliveries ≡ 2)
    × (result.success_count + result.failure_count ≡ 2)
process_batch_settles_example =
    process_batch_settles reliable true short_of_errors (order ∷ encrypted ∷ [])
