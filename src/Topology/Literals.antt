-- ===== src/Topology/Literals.antt =====
-- admin.go: the literals of AdminService. A queue of the registry has the zero values in the fields that its literal leaves out.
-- queue of the registry has the zero values in the fields that its literal leaves out.

use go_rabbitmq.Base.{ℕ, String, Bool, true, false, some, []}
use go_rabbitmq.Base.Int.{pos}
use go_rabbitmq.Base.Eq.{String_eq}
use go_rabbitmq.Message.{Table}
use go_rabbitmq.Topology.Config.{QueueType, QueueConfig, ExchangeConfig, BindingConfig, plain_queue}
use go_rabbitmq.Topology.Options.{QueueSettings, ExchangeSettings, BindingSettings}
use go_rabbitmq.Topology.Broker.{QueueDeclaration, ExchangeDeclaration, Bind, Queue}

abbrev pub default_queue_settings : Table → QueueSettings
default_queue_settings arguments = record {
  durable = true;
  auto_delete = false;
  exclusive = false;
  no_wait = false;
  arguments = arguments;
  ttl = pos 0;
  max_length = pos 0;
  max_length_bytes = pos 0;
  dead_letter_exchange = "";
  dead_letter_routing_key = "";
  use_classic_queue = false;
}

abbrev pub declaration : String → QueueSettings → QueueDeclaration
declaration name c = record {
  name = name;
  durable = c.durable;
  auto_delete = c.auto_delete;
  exclusive = c.exclusive;
  no_wait = c.no_wait;
  arguments = c.arguments;
}

-- What the registry keeps of a declared queue.
abbrev pub queue_entry : String → QueueType → QueueSettings → QueueConfig
queue_entry name t c = record (plain_queue name t) {
  durable = c.durable;
  auto_delete = c.auto_delete;
  exclusive = c.exclusive;
  arguments = c.arguments;
  dead_letter_exchange = c.dead_letter_exchange;
  dead_letter_routing_key = c.dead_letter_routing_key;
}

abbrev pub exchange_declaration : String → String → ExchangeSettings → ExchangeDeclaration
exchange_declaration name kind c = record {
  name = name;
  kind = kind;
  durable = c.durable;
  auto_delete = c.auto_delete;
  internal = c.internal;
  no_wait = c.no_wait;
  arguments = c.arguments;
}

abbrev pub exchange_entry : String → String → ExchangeSettings → ExchangeConfig
exchange_entry name kind c = record {
  name = name;
  kind = kind;
  durable = c.durable;
  auto_delete = c.auto_delete;
  internal = c.internal;
  no_wait = false;
  arguments = c.arguments;
}

abbrev pub default_exchange_settings : ExchangeSettings
default_exchange_settings = record {
  durable = true;
  auto_delete = false;
  internal = false;
  no_wait = false;
  arguments = some [];
}

abbrev pub default_binding_settings : BindingSettings
default_binding_settings = record { no_wait = false; arguments = some [] }

abbrev pub bind_of : String → String → String → BindingSettings → Bind
bind_of queue exchange routing_key c = record {
  queue_name = queue;
  routing_key = routing_key;
  exchange_name = exchange;
  no_wait = c.no_wait;
  arguments = c.arguments;
}

abbrev pub binding_entry : String → String → String → BindingSettings → BindingConfig
binding_entry queue exchange routing_key c = record {
  queue_name = queue;
  exchange_name = exchange;
  routing_key = routing_key;
  no_wait = false;
  arguments = c.arguments;
}

-- `InspectQueue` learns only the name and the counts; the rest has fixed values.
pub record QueueInfo : Type 0 where
  pub name : String
  pub messages : ℕ
  pub consumers : ℕ
  pub memory : ℕ
  pub durable : Bool
  pub auto_delete : Bool
  pub exclusive : Bool
  pub arguments : Table
  pub vhost : String
  pub node : String

abbrev pub queue_info : Queue → QueueInfo
queue_info q = record {
  name = q.name;
  messages = q.messages;
  consumers = q.consumers;
  memory = 0;
  durable = false;
  auto_delete = false;
  exclusive = false;
  arguments = some [];
  vhost = "/";
  node = "";
}
