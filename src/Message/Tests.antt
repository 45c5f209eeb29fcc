-- ===== src/Message/Tests.antt =====
-- Runs of the conversions of a message.
use go_rabbitmq.Base.{◌≡◌, refl, true, false, some, none, [], ◌∷◌}
use go_rabbitmq.Base.Int.{pos}
use go_rabbitmq.Base.Dict.{insert}
use go_rabbitmq.Message.{Message, int}
use go_rabbitmq.Message.Build.{
  new_message, new_message_with_id, with_content_type, with_header, with_transient, validate,
  empty_content_type,
}
use go_rabbitmq.Message.Convert.{
  AmqpDelivery, to_amqp_publishing, to_publishing, from_amqp_delivery,
}
use go_rabbitmq.Message.Properties.{filled, message_back}

abbrev transient : Message
transient =
    with_transient
      (with_header "attempt" (int (pos 1)) (new_message 1700000000 "01H" (104 ∷ 105 ∷ [])))

abbrev delivery : AmqpDelivery
delivery = record {
  properties = to_amqp_publishing transient;
  message_count = 3;
  exchange = "events";
  routing_key = "order.new";
  redelivered = false;
  delivery_tag = 7;
}

message_back_example :
    (from_amqp_delivery (record delivery { properties = to_amqp_publishing transient })
      ≡ record transient { exchange = ""; routing_key = "" })
    × (from_amqp_delivery (record delivery { properties = to_publishing "01J" transient })
        ≡ record (filled "01J" transient) { exchange = ""; routing_key = "" })
message_back_example = message_back transient "01J" delivery

-- A new message is valid; one without a content type is not.
valid :
    (validate (λ s. true) transient ≡ none)
    × (validate (λ s. true) (with_content_type "" transient) ≡ some empty_content_type)
unfolding validate new_message new_message_with_id with_transient with_header with_content_type
    insert
valid = (refl, refl)
