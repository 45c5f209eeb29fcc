-- ===== src/Message/Properties.antt =====
-- types.go: what survives the way of a message through a broker.
use go_rabbitmq.Base.{◌≡◌, refl, ◌∙◌, ap, ℕ, String, Bool, true, false, ◌==◌, if◌then◌else◌, arith}
use go_rabbitmq.Base.Eq.{String_eq}
use go_rabbitmq.Message.{Message}
use go_rabbitmq.Message.Build.{content_type_json}
use go_rabbitmq.Message.Convert.{
  of_unix, to_unix, AmqpDelivery, to_amqp_publishing, to_publishing, from_amqp_delivery, or_default,
}

persistent-back : (b : Bool) → ((if b then 2 else 1) == 2) ≡ b
persistent-back true = refl
persistent-back false = refl

unix-back : (n : ℕ) → to_unix (of_unix n) ≡ n
unix-back n = omega arith

pub amqp-back :
    (m : Message) (d : AmqpDelivery)
    → d.properties ≡ to_amqp_publishing m
    → from_amqp_delivery d ≡ record m { exchange = ""; routing_key = "" }
unfolding from_amqp_delivery to_amqp_publishing
amqp-back m d e =
    ap (λ p. from_amqp_delivery (record d { properties = p })) e
    ∙ ap
        (λ b. record m {
          exchange = "";
          routing_key = "";
          persistent = b;
          timestamp = to_unix (of_unix m.timestamp);
        })
        (persistent-back m.persistent)
    ∙ ap (λ t. record m { exchange = ""; routing_key = ""; timestamp = t }) (unix-back m.timestamp)

-- The message with its gaps filled.
abbrev pub filled : String → Message → Message
filled new_id m = record m {
  content_type = or_default m.content_type content_type_json;
  message_id = or_default m.message_id new_id;
}

to_publishing-filled :
    (new_id : String) (m : Message) → to_publishing new_id m ≡ to_amqp_publishing (filled new_id m)
unfolding to_publishing to_amqp_publishing
to_publishing-filled new_id m = refl

-- A message that `ToAMQPPublishing` converts, and whose delivery has the same properties whatever else
-- it adds, comes back as it was, apart from its exchange and its routing key, which are empty. One
-- that `ToPublishing` converts comes back with its gaps filled too: JSON as the content type and the
-- new identifier, each only where it had none.
pub message_back :
    (m : Message) (new_id : String) (d : AmqpDelivery)
    → (from_amqp_delivery (record d { properties = to_amqp_publishing m })
        ≡ record m { exchange = ""; routing_key = "" })
      × (from_amqp_delivery (record d { properties = to_publishing new_id m })
          ≡ record (filled new_id m) { exchange = ""; routing_key = "" })
message_back m new_id d = (
  amqp-back m (record d { properties = to_amqp_publishing m }) refl,
  amqp-back (filled new_id m) (record d { properties = to_publishing new_id m })
      (to_publishing-filled new_id m),
)
