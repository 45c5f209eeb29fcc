-- ===== src/Message/Convert.antt =====
-- types.go: a message as a publishing of amqp091-go, and a delivery as a message.
use go_rabbitmq.Base.{ℕ, ◌*◌, ◌/◌, String, Bool, List, ◌==◌, if◌then◌else◌}
use go_rabbitmq.Base.Eq.{String_eq}
use go_rabbitmq.Message.{Table, Message}
use go_rabbitmq.Message.Build.{content_type_json}

-- `time.Unix(seconds, 0)` in nanoseconds, and `Unix()` of it.
abbrev pub of_unix : ℕ → ℕ
of_unix seconds = seconds * 1000000000

abbrev pub to_unix : ℕ → ℕ
to_unix time = time / 1000000000

-- amqp091-go: the fields that the code sets or reads.
pub record Publishing : Type 0 where
  pub headers : Table
  pub content_type : String
  pub body : List ℕ
  pub message_id : String
  pub correlation_id : String
  pub reply_to : String
  pub expiration : String
  pub timestamp : ℕ
  pub type_name : String
  pub user_id : String
  pub app_id : String
  pub priority : ℕ
  pub delivery_mode : ℕ

pub record AmqpDelivery : Type 0 where
  pub properties : Publishing
  pub message_count : ℕ
  pub exchange : String
  pub routing_key : String
  pub redelivered : Bool
  pub delivery_tag : ℕ

unfoldable pub to_amqp_publishing : Message → Publishing
to_amqp_publishing m = record {
  headers = m.headers;
  content_type = m.content_type;
  body = m.body;
  message_id = m.message_id;
  correlation_id = m.correlation_id;
  reply_to = m.reply_to;
  expiration = m.expiration;
  timestamp = of_unix m.timestamp;
  type_name = m.type_name;
  user_id = m.user_id;
  app_id = m.app_id;
  priority = m.priority;
  delivery_mode = if m.persistent then 2 else 1;
}

abbrev pub or_default : String → String → String
or_default s d = if String_eq.beq s "" then d else s

-- `new_id` is the identifier that is drawn if the message has none.
unfoldable pub to_publishing : String → Message → Publishing
to_publishing new_id m = record {
  headers = m.headers;
  content_type = or_default m.content_type content_type_json;
  body = m.body;
  message_id = or_default m.message_id new_id;
  correlation_id = m.correlation_id;
  reply_to = m.reply_to;
  expiration = m.expiration;
  timestamp = of_unix m.timestamp;
  type_name = m.type_name;
  user_id = m.user_id;
  app_id = m.app_id;
  priority = m.priority;
  delivery_mode = if m.persistent then 2 else 1;
}

-- The exchange and the routing key of the delivery are not taken over.
unfoldable pub from_amqp_delivery : AmqpDelivery → Message
from_amqp_delivery d = record {
  body = d.properties.body;
  content_type = d.properties.content_type;
  headers = d.properties.headers;
  exchange = "";
  routing_key = "";
  persistent = d.properties.delivery_mode == 2;
  message_id = d.properties.message_id;
  correlation_id = d.properties.correlation_id;
  reply_to = d.properties.reply_to;
  type_name = d.properties.type_name;
  app_id = d.properties.app_id;
  user_id = d.properties.user_id;
  timestamp = to_unix d.properties.timestamp;
  expiration = d.properties.expiration;
  priority = d.properties.priority;
}

pub record DeliveryInfo : Type 0 where
  pub message_count : ℕ
  pub exchange : String
  pub routing_key : String
  pub redelivered : Bool
  pub delivery_tag : ℕ
  pub message_id : String
  pub correlation_id : String
  pub reply_to : String
  pub type_name : String
  pub app_id : String
  pub user_id : String
  pub timestamp : ℕ
  pub content_type : String
  pub priority : ℕ
  pub headers : Table

unfoldable pub extract_delivery_info : AmqpDelivery → DeliveryInfo
extract_delivery_info d = record {
  message_count = d.message_count;
  exchange = d.exchange;
  routing_key = d.routing_key;
  redelivered = d.redelivered;
  delivery_tag = d.delivery_tag;
  message_id = d.properties.message_id;
  correlation_id = d.properties.correlation_id;
  reply_to = d.properties.reply_to;
  type_name = d.properties.type_name;
  app_id = d.properties.app_id;
  user_id = d.properties.user_id;
  timestamp = d.properties.timestamp;
  content_type = d.properties.content_type;
  priority = d.properties.priority;
  headers = d.properties.headers;
}
