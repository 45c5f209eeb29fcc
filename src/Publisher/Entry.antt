-- ===== src/Publisher/Entry.antt =====
-- publisher.go: publishWithDeliveryAssurance before its attempts, and what retryMessage calls it with.
use go_rabbitmq.Base.{
  ◌⊎◌, inl, inr, ℕ, String, Bool, true, false, not, ◌||◌, Option, none, some, ◌==◌, if◌then◌else◌,
}
use go_rabbitmq.Base.Eq.{String_eq}
use go_rabbitmq.Message.{Message, DeliveryOptions}
use go_rabbitmq.Message.Build.{clone}
use go_rabbitmq.Message.Convert.{Publishing, to_amqp_publishing, or_default}
use go_rabbitmq.Publisher.State.{no_error, unset, PendingMessage, PublisherConfig}
use go_rabbitmq.Publisher.Encode.{EncodeConfig, encode_message}

pub record Request : Type 0 where
  pub exchange : String
  pub routing_key : String
  pub message : Message
  pub options : DeliveryOptions
  pub retry_count : ℕ
  pub context : ℕ

pub data EntryError : Type 0 where
  not_enabled topology_invalid no_message_id no_callback encoding_failed : EntryError

-- What the attempts share: the entry that each of them copies, and what is sent.
pub record Prepared : Type 0 where
  pub template : PendingMessage
  pub publishing : Publishing

abbrev no_options : DeliveryOptions
no_options = record { message_id = ""; mandatory = false; callback = none; timeout = 0 }

abbrev pub first_given : Option ℕ → Option ℕ → Option ℕ
first_given none b = b
first_given (some a) b = some a

-- `exists` is ValidateExchange, where the client has a validator; `enabled` is
-- deliveryAssuranceEnabled. The publisher's configuration is in two records.
module _ (enabled : Bool) (exists : Option (String → Bool)) (c : PublisherConfig)
    (k : EncodeConfig) where
  abbrev pub passes : Option (String → Bool) → String → Bool
  passes none exchange = true
  passes (some valid) exchange = String_eq.beq exchange "" || valid exchange

  unfoldable pub template_of : Request → String → String → ℕ → Message → PendingMessage
  template_of q exchange message_id callback m = record {
    message_id = message_id;
    callback = some callback;
    timeout_timer = unset;
    key = 0;
    broker_tag = 0;
    generation = 0;
    timeout = if q.options.timeout == 0 then c.delivery_timeout else q.options.timeout;
    in_flight = false;
    orphan_deferred = false;
    orphan_reason = "";
    timeout_deferred = false;
    exchange = exchange;
    routing_key = q.routing_key;
    mandatory = q.options.mandatory || c.default_mandatory;
    original_message = if c.enable_automatic_retries then some (clone m) else none;
    original_context = if c.enable_automatic_retries then some q.context else none;
    retry_count = q.retry_count;
    retry_options = if c.enable_automatic_retries then q.options else no_options;
    confirmed = false;
    returned = false;
    return_reason = no_error;
    was_nacked = false;
    callback_fired = false;
    final_outcome = none;
    final_error = no_error;
  }

  abbrev pub prepared : Request → String → String → ℕ → Option Message → EntryError ⊎ Prepared
  prepared q exchange message_id callback none = inl encoding_failed
  prepared q exchange message_id callback (some m) = inr (record {
    template = template_of q exchange message_id callback m;
    publishing = record (to_amqp_publishing m) { message_id = message_id };
  })

  abbrev pub with_callback : Request → String → String → Option ℕ → EntryError ⊎ Prepared
  with_callback q exchange message_id none = inl no_callback
  with_callback q exchange message_id (some callback) =
      prepared q exchange message_id callback (encode_message k q.message)

  unfoldable pub prepare_publish : Request → EntryError ⊎ Prepared
  prepare_publish q =
      let exchange = or_default q.exchange c.default_exchange in
      let message_id = or_default q.options.message_id q.message.message_id in
      if not enabled
      then inl not_enabled
      else if not (passes exists exchange)
      then inl topology_invalid
      else if String_eq.beq message_id ""
      then inl no_message_id
      else with_callback q exchange message_id
          (first_given q.options.callback c.default_delivery_callback)

-- `attempt` keeps the description of the message and clears the outcome.
unfoldable pub attempt : PendingMessage → PendingMessage
attempt m = record m {
  timeout_timer = unset;
  key = 0;
  broker_tag = 0;
  generation = 0;
  in_flight = false;
  orphan_deferred = false;
  orphan_reason = "";
  timeout_deferred = false;
  confirmed = false;
  returned = false;
  return_reason = no_error;
  was_nacked = false;
  callback_fired = false;
  final_outcome = none;
  final_error = no_error;
}

abbrev pub context_or_background : Option ℕ → ℕ
context_or_background none = 0
context_or_background (some n) = n

-- What `retryMessage` publishes again: the message that the entry keeps, with the retries spent.
unfoldable pub retry_request : PendingMessage → Message → Request
retry_request m original = record {
  exchange = m.exchange;
  routing_key = m.routing_key;
  message = original;
  options = m.retry_options;
  retry_count = m.retry_count;
  context = context_or_background m.original_context;
}
