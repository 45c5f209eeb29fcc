-- ===== src/Topology/Admin.antt =====
-- admin.go: the operations of AdminService. A channel is asked for after the options are applied.
-- queue of the registry has the zero values in the fields that its literal leaves out.

use go_rabbitmq.Topology.Literals.{
  default_queue_settings, declaration, queue_entry, exchange_declaration, exchange_entry,
  default_exchange_settings, default_binding_settings, bind_of, binding_entry, QueueInfo,
  queue_info,
}
use go_rabbitmq.Base.{ℕ, String, Bool, false, some, List, [], ◌∷◌, is_some, if◌then◌else◌}
use go_rabbitmq.Base.Int.{pos}
use go_rabbitmq.Base.Eq.{String_eq}
use go_rabbitmq.Base.Dict.{insert}
use go_rabbitmq.Message.{text, Table}
use go_rabbitmq.Topology.Config.{QueueType, classic, quorum}
use go_rabbitmq.Topology.Options.{
  QueueSettings, QuorumQueueSettings, QueueOption, QuorumQueueOption, ExchangeOption, BindingOption,
  apply_each, apply_queue_option, apply_quorum_option, apply_exchange_option, apply_binding_option,
  change_arguments,
}
use go_rabbitmq.Topology.Registry.{register_exchange, register_queue, register_binding}
use go_rabbitmq.Topology.Broker.{
  Queue, Broker, Action, Done, pure, ◌>>=◌, ◌>>◌, or_fail, on_channel, demand, track,
}

module _ (B : Broker) where
  -- The queue in the registry is of the type that the caller states.
  unfoldable pub declare_as : QueueType → String → QueueSettings → Action B Queue
  declare_as t name c = do
    answer ← on_channel (B.queue_declare (declaration name c))
    declared ← or_fail answer
    track (register_queue (queue_entry name t c))
    pure declared

  unfoldable pub declare_queue_legacy : String → QueueSettings → Action B Queue
  declare_queue_legacy = declare_as classic

  unfoldable pub declare_quorum_queue_legacy : String → QuorumQueueSettings → Action B Queue
  declare_quorum_queue_legacy name c = declare_as quorum name c.queue_settings

  unfoldable pub declare_quorum_queue_from_config : String → QueueSettings → Action B Queue
  declare_quorum_queue_from_config name c = declare_quorum_queue_legacy name (record {
    queue_settings = change_arguments (insert "x-queue-type" (text "quorum")) c;
    initial_group_size = pos 3;
    delivery_limit = pos 0;
  })

  unfoldable pub declare_queue : String → List QueueOption → Action B Queue
  declare_queue name opts =
      let c = apply_each apply_queue_option opts (default_queue_settings (some [])) in
      if c.use_classic_queue
      then declare_queue_legacy name c
      else declare_quorum_queue_from_config name c

  unfoldable pub declare_quorum_queue : String → List QuorumQueueOption → Action B Queue
  declare_quorum_queue name opts = declare_quorum_queue_legacy name (
      apply_each apply_quorum_option opts (record {
        queue_settings = default_queue_settings (some (("x-queue-type", text "quorum") ∷ []));
        initial_group_size = pos 3;
        delivery_limit = pos 0;
      }))

  unfoldable pub declare_exchange : String → String → List ExchangeOption → Action B Done
  declare_exchange name kind opts =
      let c = apply_each apply_exchange_option opts default_exchange_settings in
      do
        answer ← on_channel (B.exchange_declare (exchange_declaration name kind c))
        demand answer
        track (register_exchange (exchange_entry name kind c))

  -- No option of a deletion exists, so each condition is false. The registry is left as it is.
  unfoldable pub delete_queue : String → Action B Done
  delete_queue name = do demand (← on_channel (B.queue_delete name false false false))

  unfoldable pub delete_exchange : String → Action B Done
  delete_exchange name = do demand (← on_channel (B.exchange_delete name false false))

  unfoldable pub purge_queue : String → Action B ℕ
  purge_queue name = do or_fail (← on_channel (B.queue_purge name))

  unfoldable pub inspect_queue : String → Action B QueueInfo
  inspect_queue name = do
    answer ← on_channel (B.queue_declare_passive name)
    declared ← or_fail answer
    pure (queue_info declared)

  -- Any error of the passive declaration counts as absence.
  unfoldable pub exchange_exists : String → Action B Bool
  exchange_exists name = on_channel (B.exchange_declare_passive name)

  unfoldable pub queue_exists : String → Action B Bool
  queue_exists name = do pure (is_some (← on_channel (B.queue_declare_passive name)))

  unfoldable pub bind_queue : String → String → String → List BindingOption → Action B Done
  bind_queue queue exchange routing_key opts =
      let c = apply_each apply_binding_option opts default_binding_settings in
      do
        answer ← on_channel (B.queue_bind (bind_of queue exchange routing_key c))
        demand answer
        track (register_binding (binding_entry queue exchange routing_key c))

  unfoldable pub unbind_queue : String → String → String → List BindingOption → Action B Done
  unbind_queue queue exchange routing_key opts =
      let c = apply_each apply_binding_option opts default_binding_settings in
      do demand (← on_channel (B.queue_unbind (bind_of queue exchange routing_key c)))

  unfoldable pub bind_exchange : String → String → String → Table → Action B Done
  bind_exchange destination source routing_key args = do
    demand (← on_channel (B.exchange_bind destination routing_key source false args))
