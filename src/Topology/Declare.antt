-- ===== src/Topology/Declare.antt =====
-- admin.go: whole topologies, and the declarations of a QueueConfig.
use go_rabbitmq.Base.{String, Bool, some, List, [], is_some}
use go_rabbitmq.Base.Int.{ℤ}
use go_rabbitmq.Message.{Table}
use go_rabbitmq.Topology.Config.{
  QueueConfig, ExchangeConfig, BindingConfig, to_arguments, is_positive, is_named,
  default_quorum_queue_config, default_ha_queue_config, default_classic_queue_config,
}
use go_rabbitmq.Topology.Options.{
  QueueOption, ExchangeOption, BindingOption, with_durable, with_auto_delete, with_exclusive_queue,
  with_ttl, with_dead_letter, with_arguments, with_exchange_durable, with_exchange_auto_delete,
  with_exchange_internal, with_exchange_arguments, with_binding_arguments, when, apply_each,
}
use go_rabbitmq.Topology.Broker.{
  Queue, Broker, Action, Done, pure, ◌>>=◌, ◌>>◌, or_fail, on_channel, for_each,
}
use go_rabbitmq.Topology.Admin.{declare_queue, declare_exchange, bind_queue}

-- A queue of a topology; its exchanges and bindings have fields that those of `ExchangeConfig` and
-- `BindingConfig` include, and the service reads no other.
pub record TopologyQueue : Type 0 where
  pub name : String
  pub durable : Bool
  pub auto_delete : Bool
  pub exclusive : Bool
  pub arguments : Table
  pub ttl : ℤ
  pub dead_letter : String

pub record Topology : Type 0 where
  pub exchanges : List ExchangeConfig
  pub queues : List TopologyQueue
  pub bindings : List BindingConfig

-- `if args != nil { opts = append(opts, opt(args)) }`
abbrev pub when_arguments {ℓ} : {A : Type ℓ} → Table → (Table → A) → List A → List A
when_arguments args opt opts = when (is_some args) (opt args) opts

unfoldable pub exchange_options : ExchangeConfig → List ExchangeOption
exchange_options c = when c.durable with_exchange_durable (
    when c.auto_delete with_exchange_auto_delete (
      when c.internal with_exchange_internal
        (when_arguments c.arguments with_exchange_arguments [])))

unfoldable pub topology_queue_options : TopologyQueue → List QueueOption
topology_queue_options c = when c.durable with_durable (
    when c.auto_delete with_auto_delete (
      when c.exclusive with_exclusive_queue (
        when (is_positive c.ttl) (with_ttl c.ttl) (
          when (is_named c.dead_letter) (with_dead_letter c.dead_letter "")
            (when_arguments c.arguments with_arguments [])))))

unfoldable pub setup_queue_options : QueueConfig → List QueueOption
setup_queue_options c = when c.durable with_durable (
    when c.auto_delete with_auto_delete
      (when c.exclusive with_exclusive_queue (when_arguments c.arguments with_arguments [])))

unfoldable pub binding_options : BindingConfig → List BindingOption
binding_options c = when_arguments c.arguments with_binding_arguments []

module _ (B : Broker) where
  unfoldable pub declare_exchange_of : ExchangeConfig → Action B Done
  declare_exchange_of c = declare_exchange B c.name c.kind (exchange_options c)

  unfoldable pub declare_topology_queue : TopologyQueue → Action B Done
  declare_topology_queue c = do declare_queue B c.name (topology_queue_options c); pure tt

  unfoldable pub setup_queue : QueueConfig → Action B Done
  setup_queue c = do declare_queue B c.name (setup_queue_options c); pure tt

  unfoldable pub bind_of_config : BindingConfig → Action B Done
  bind_of_config c = bind_queue B c.queue_name c.exchange_name c.routing_key (binding_options c)

  unfoldable pub declare_topology : Topology → Action B Done
  declare_topology t = do
    for_each declare_exchange_of t.exchanges
    for_each declare_topology_queue t.queues
    for_each bind_of_config t.bindings

  -- Of a QueueConfig this reads the flags and the arguments: not its type, limits and dead letters.
  unfoldable pub setup_topology :
      List ExchangeConfig → List QueueConfig → List BindingConfig → Action B Done
  setup_topology exchanges queues bindings = do
    for_each declare_exchange_of exchanges
    for_each setup_queue queues
    for_each bind_of_config bindings

  -- The registry is not told of these queues.
  unfoldable pub declare_queue_with_dlq : QueueConfig → Action B Queue
  declare_queue_with_dlq c = do
    or_fail
        (← on_channel (
          B.queue_declare record {
            name = c.name;
            durable = c.durable;
            auto_delete = c.auto_delete;
            exclusive = c.exclusive;
            no_wait = c.no_wait;
            arguments = some (to_arguments c);
          }))

  -- The options are functions of the caller.
  unfoldable pub declare_quorum_queue_with_dlq :
      String → List (QueueConfig → QueueConfig) → Action B Queue
  declare_quorum_queue_with_dlq name opts =
      declare_queue_with_dlq (apply_each (λ f c. f c) opts (default_quorum_queue_config name))

  unfoldable pub declare_ha_queue_with_dlq :
      String → List (QueueConfig → QueueConfig) → Action B Queue
  declare_ha_queue_with_dlq name opts =
      declare_queue_with_dlq (apply_each (λ f c. f c) opts (default_ha_queue_config name))

  unfoldable pub declare_classic_queue_with_dlq :
      String → List (QueueConfig → QueueConfig) → Action B Queue
  declare_classic_queue_with_dlq name opts =
      declare_queue_with_dlq (apply_each (λ f c. f c) opts (default_classic_queue_config name))
