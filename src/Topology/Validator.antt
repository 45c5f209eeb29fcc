-- ===== src/Topology/Validator.antt =====
-- topology_validation.go: TopologyValidator, on a client that has a registry. What it logs is left out.
use go_rabbitmq.Topology.Settings.{TopologyValidator}
use go_rabbitmq.Topology.Literals.{QueueInfo}
use go_rabbitmq.Base.{
  String, Bool, true, false, ◌&&◌, Option, none, some, List, [], ◌∷◌, if◌then◌else◌,
}
use go_rabbitmq.Base.Eq.{String_eq}
use go_rabbitmq.Message.{Value, text, Table}
use go_rabbitmq.Consumer.Errors.{field}
use go_rabbitmq.Topology.Config.{QueueConfig, ExchangeConfig, BindingConfig, is_named}
use go_rabbitmq.Topology.Options.{
  QueueOption, ExchangeOption, BindingOption, with_durable, with_auto_delete, with_exclusive_queue,
  with_dead_letter, with_arguments, with_exchange_durable, with_exchange_auto_delete,
  with_exchange_internal, with_exchange_arguments, with_binding_arguments, when,
}
use go_rabbitmq.Topology.Registry.{
  get_exchange, get_queue, list_exchanges, list_queues, list_bindings, register_queue,
}
use go_rabbitmq.Topology.Broker.{
  Broker, World, Result, ok, err, does_not_exist, Action, Done, pure, fail, gets, ◌>>=◌, ◌>>◌,
  track, for_each, for_each_logged,
}
use go_rabbitmq.Topology.Admin.{
  declare_queue, declare_exchange, bind_queue, exchange_exists, queue_exists, inspect_queue,
}

abbrev pub has_arguments : Table → Bool
has_arguments none = false
has_arguments (some []) = false
has_arguments (some (_ ∷ _)) = true

unfoldable pub recreated_exchange_options : ExchangeConfig → List ExchangeOption
recreated_exchange_options c = when c.durable with_exchange_durable (
    when c.auto_delete with_exchange_auto_delete (
      when c.internal with_exchange_internal
        (when (has_arguments c.arguments) (with_exchange_arguments c.arguments) [])))

unfoldable pub recreated_queue_options : QueueConfig → List QueueOption
recreated_queue_options c = when c.durable with_durable (
    when c.auto_delete with_auto_delete (
      when c.exclusive with_exclusive_queue (
        when (has_arguments c.arguments) (with_arguments c.arguments) (
          when (is_named c.dead_letter_exchange)
            (with_dead_letter c.dead_letter_exchange c.dead_letter_routing_key) []))))

unfoldable pub recreated_binding_options : BindingConfig → List BindingOption
recreated_binding_options c =
    when (has_arguments c.arguments) (with_binding_arguments c.arguments) []

-- A durable topic exchange, for a name that the registry does not hold.
abbrev pub topic_exchange : String → ExchangeConfig
topic_exchange name = record {
  name = name;
  kind = "topic";
  durable = true;
  auto_delete = false;
  internal = false;
  no_wait = false;
  arguments = none;
}

abbrev pub or_default : String → Option ExchangeConfig → ExchangeConfig
or_default name none = topic_exchange name
or_default name (some c) = c

-- The text under a key, or "" if there is none.
abbrev pub text_of : Option Value → String
text_of (some (text s)) = s
text_of _ = ""

-- The registry's entry after an inspection found other dead letters.
abbrev pub synced : QueueInfo → QueueConfig → QueueConfig
synced info c = record c {
  dead_letter_exchange = text_of (field "x-dead-letter-exchange" info.arguments);
  dead_letter_routing_key = text_of (field "x-dead-letter-routing-key" info.arguments);
  arguments = info.arguments;
}

abbrev pub same_dead_letters : QueueConfig → QueueConfig → Bool
same_dead_letters c d =
    String_eq.beq c.dead_letter_exchange d.dead_letter_exchange
    && String_eq.beq c.dead_letter_routing_key d.dead_letter_routing_key

module _ (B : Broker) where
  unfoldable pub restore_binding : BindingConfig → Action B Done
  restore_binding c =
      bind_queue B c.queue_name c.exchange_name c.routing_key (recreated_binding_options c)

  unfoldable pub restore_if : (BindingConfig → Bool) → BindingConfig → Action B Done
  restore_if p c = if p c then restore_binding c else pure tt

  unfoldable pub recreate_exchange_bindings : String → Action B Done
  recreate_exchange_bindings name = do
    bindings ← gets (λ w. list_bindings w.registry)
    for_each (restore_if (λ c. String_eq.beq c.exchange_name name)) bindings

  unfoldable pub recreate_queue_bindings : String → Action B Done
  recreate_queue_bindings name = do
    bindings ← gets (λ w. list_bindings w.registry)
    for_each (restore_if (λ c. String_eq.beq c.queue_name name)) bindings

  unfoldable pub recreate_exchange : ExchangeConfig → Action B Done
  recreate_exchange c = do
    declare_exchange B c.name c.kind (recreated_exchange_options c)
    recreate_exchange_bindings c.name

  unfoldable pub recreate_queue : QueueConfig → Action B Done
  recreate_queue c = do
    declare_queue B c.name (recreated_queue_options c)
    recreate_queue_bindings c.name

  -- This asks neither whether validation is enabled nor whether recreation is.
  unfoldable pub create_exchange : String → Action B Done
  create_exchange name = do
    config ← gets (λ w. get_exchange name w.registry)
    recreate_exchange (or_default name config)

  unfoldable pub ensure_exchange_exists : String → Action B Done
  ensure_exchange_exists name =
      if is_named name
      then (do exists ← exchange_exists B name; if exists then pure tt else create_exchange name)
      else pure tt

  unfoldable pub recreate_or_fail {ℓ} :
      {C : Type ℓ} → TopologyValidator → (C → Action B Done) → C → Action B Done
  recreate_or_fail v recreate c = if v.auto_recreate then recreate c else fail does_not_exist

  unfoldable pub validate_known_exchange : TopologyValidator → Option ExchangeConfig → Action B Done
  validate_known_exchange v none = pure tt
  validate_known_exchange v (some c) = do
    exists ← exchange_exists B c.name
    if exists then pure tt else recreate_or_fail v recreate_exchange c

  -- The registry's configuration carries the name it was asked for.
  unfoldable pub validate_exchange : TopologyValidator → String → Action B Done
  validate_exchange v name =
      if v.enabled
      then (do validate_known_exchange v (← gets (λ w. get_exchange name w.registry)))
      else pure tt

  unfoldable pub ensure_if_bound : String → BindingConfig → Action B Done
  ensure_if_bound name c =
      if String_eq.beq c.queue_name name then ensure_exchange_exists c.exchange_name else pure tt

  -- The queue exists: where its dead letters differ, the registry is changed. An inspection that fails
  -- is taken as agreement.
  unfoldable pub sync_with : QueueConfig → Result QueueInfo × World B → Result Done × World B
  sync_with c (err e, w) = (ok tt, w)
  sync_with c (ok info, w) =
      if same_dead_letters (synced info c) c
      then (ok tt, w)
      else track (register_queue (synced info c)) w

  unfoldable pub sync_registry : QueueConfig → Action B Done
  sync_registry c w = sync_with c (inspect_queue B c.name w)

  unfoldable pub validate_known_queue : TopologyValidator → Option QueueConfig → Action B Done
  validate_known_queue v none = pure tt
  validate_known_queue v (some c) = do
    ensure_exchange_exists c.dead_letter_exchange
    bindings ← gets (λ w. list_bindings w.registry)
    for_each (ensure_if_bound c.name) bindings
    exists ← queue_exists B c.name
    if exists then sync_registry c else recreate_or_fail v recreate_queue c

  unfoldable pub validate_queue : TopologyValidator → String → Action B Done
  validate_queue v name =
      if v.enabled
      then (do validate_known_queue v (← gets (λ w. get_queue name w.registry)))
      else pure tt

  unfoldable pub check_exchange : ExchangeConfig → Action B Done
  check_exchange c = do
    exists ← exchange_exists B c.name
    if exists then pure tt else recreate_exchange c

  unfoldable pub validate_and_recreate_exchanges : Action B Done
  validate_and_recreate_exchanges = do
    exchanges ← gets (λ w. list_exchanges w.registry)
    for_each_logged check_exchange exchanges

  unfoldable pub restore_queue : QueueConfig → Action B Done
  restore_queue c = do ensure_exchange_exists c.dead_letter_exchange; recreate_queue c

  unfoldable pub check_queue : QueueConfig → Action B Done
  check_queue c = do exists ← queue_exists B c.name; if exists then pure tt else restore_queue c

  unfoldable pub validate_and_recreate_queues : Action B Done
  validate_and_recreate_queues = do
    queues ← gets (λ w. list_queues w.registry)
    for_each_logged check_queue queues

  unfoldable pub check_binding : BindingConfig → Action B Done
  check_binding c = do
    ensure_exchange_exists c.exchange_name
    exists ← queue_exists B c.queue_name
    if exists then restore_binding c else fail does_not_exist

  unfoldable pub validate_and_recreate_bindings : Action B Done
  validate_and_recreate_bindings = do
    bindings ← gets (λ w. list_bindings w.registry)
    for_each_logged check_binding bindings

  unfoldable pub perform_background_validation : Action B Done
  perform_background_validation = do
    validate_and_recreate_exchanges
    validate_and_recreate_queues
    validate_and_recreate_bindings

  unfoldable pub validate_complete_topology : TopologyValidator → Action B Done
  validate_complete_topology v =
      if v.enabled then (do perform_background_validation; pure tt) else pure tt
