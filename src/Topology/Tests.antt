-- ===== src/Topology/Tests.antt =====
-- Runs of the admin service and the validator on a broker in memory.
use go_rabbitmq.Topology.Quiet.{forgotten}
use go_rabbitmq.Topology.Exist.{HasClosedDeadLetters, IsRestored}
use go_rabbitmq.Topology.Settings.{TopologyValidator}
use go_rabbitmq.Base.{
  ◌≡◌, refl, ◌⊎◌, inl, inr, String, true, false, none, some, [], ◌∷◌, All, Bool-cases, if_fails,
  if_holds, subst,
}
use mathlib.Core.Option.{some-injective}
use go_rabbitmq.Base.Eq.{String_eq}
use go_rabbitmq.Base.Int.{pos}
use go_rabbitmq.Base.Dict.{lookup}
use go_rabbitmq.Message.{int}
use go_rabbitmq.Topology.Config.{
  classic, QueueConfig, ExchangeConfig, BindingConfig, plain_queue, to_arguments,
}
use go_rabbitmq.Topology.Options.{apply_each, apply_queue_option, apply_exchange_option}
use go_rabbitmq.Topology.Registry.{
  TopologyRegistry, find, get_exchange, get_queue, get_binding, register_binding,
}
use go_rabbitmq.Topology.Broker.{
  exchange, queue, binding, World, ok, pure, ◌>>=◌, or_fail, on_channel, demand, track, for_each,
  registers,
}
use go_rabbitmq.Topology.Admin.{
  declare_as, declare_queue, declare_quorum_queue_legacy, declare_quorum_queue_from_config,
  declare_exchange, bind_queue,
}
use go_rabbitmq.Topology.Declare.{
  Topology, declare_topology, declare_exchange_of, declare_topology_queue, bind_of_config,
  exchange_options, topology_queue_options, setup_topology, setup_queue, setup_queue_options,
}
use go_rabbitmq.Topology.Validator.{perform_background_validation, validate_queue}
use go_rabbitmq.Topology.Memory.{memory, memory-IsLawful, memory-IsAccepting, Items}
use go_rabbitmq.Topology.Restored.{perform_background_validation-IsRestored}
use go_rabbitmq.Topology.Declared.{declare_topology_complete}
use go_rabbitmq.Topology.Arguments.{argument, lookup-to_arguments}
use go_rabbitmq.Topology.Registry.{register_binding-collides}
use go_rabbitmq.Topology.Drift.{validate_queue-forgets}

abbrev topic : String → ExchangeConfig
topic name = record {
  name = name;
  kind = "topic";
  durable = true;
  auto_delete = false;
  internal = false;
  no_wait = false;
  arguments = none;
}

abbrev orders : QueueConfig
orders = record (plain_queue "orders" classic) {
  dead_letter_exchange = "failed";
  dead_letter_routing_key = "orders";
  arguments = some (("x-max-length", int (pos 10)) ∷ []);
}

abbrev orders_binding : BindingConfig
orders_binding = record {
  queue_name = "orders";
  exchange_name = "events";
  routing_key = "order.*";
  no_wait = false;
  arguments = none;
}

-- A registry of two exchanges, a queue and a binding.
abbrev known : TopologyRegistry
known = record {
  exchanges = topic "events" ∷ topic "failed" ∷ [];
  queues = orders ∷ [];
  bindings = orders_binding ∷ [];
}

-- The broker has lost everything.
abbrev nothing : Items
nothing _ = false

abbrev lost : World memory
lost = record { state = nothing; tracked = true; registry = known }

lost-HasClosedDeadLetters : HasClosedDeadLetters lost
unfolding get_queue get_exchange find registers
lost-HasClosedDeadLetters q c e = elim (Bool-cases (String_eq.beq "orders" q)) [
  | inl h ↦
      subst
        (λ (d : QueueConfig).
          (d.dead_letter_exchange ≡ "")
          ⊎ (registers known (exchange d.dead_letter_exchange) ≡ true))
        (some-injective orders c
          (if_holds (λ o. o ≡ some c → some orders ≡ some c) _ _ _ h (λ p. p) e))
        (inr refl)
  | inr h ↦ absurd (if_fails (λ o. o ≡ some c → ⊥) _ _ _ h (λ p. cc) e)
]

perform_background_validation-IsRestored_example :
    IsRestored lost (perform_background_validation memory lost).1
perform_background_validation-IsRestored_example =
    perform_background_validation-IsRestored memory memory-IsLawful memory-IsAccepting lost
      lost-HasClosedDeadLetters

abbrev unknown : World memory
unknown = record {
  state = nothing;
  tracked = true;
  registry = record { exchanges = []; queues = []; bindings = [] };
}

abbrev topology : Topology
topology = record {
  exchanges = topic "events" ∷ [];
  queues =
      record {
        name = "orders";
        durable = false;
        auto_delete = false;
        exclusive = false;
        arguments = none;
        ttl = pos 0;
        dead_letter = "";
      }
      ∷ [];
  bindings = orders_binding ∷ [];
}

declared : (declare_topology memory topology unknown).0 ≡ ok tt
unfolding declare_topology for_each ◌>>=◌ pure or_fail on_channel demand track declare_exchange_of
    declare_exchange declare_topology_queue declare_queue declare_quorum_queue_from_config
    declare_quorum_queue_legacy declare_as bind_of_config bind_queue exchange_options apply_each
    apply_exchange_option topology_queue_options apply_queue_option
declared = refl

declare_topology_complete_example :
    let s = (declare_topology memory topology unknown).1.state in
    All (λ c. s (exchange c.name) ≡ true) (topic "events" ∷ [])
    × All (λ c. s (queue c.name) ≡ true) topology.queues
    × All (λ c. s (binding c.queue_name c.exchange_name c.routing_key) ≡ true) (orders_binding ∷ [])
declare_topology_complete_example =
    declare_topology_complete memory memory-IsLawful topology unknown tt declared

set_up :
    (setup_topology memory (topic "events" ∷ []) (orders ∷ []) (orders_binding ∷ []) unknown).0
    ≡ ok tt
unfolding setup_topology for_each ◌>>=◌ pure or_fail on_channel demand track declare_exchange_of
    declare_exchange setup_queue setup_queue_options declare_queue declare_quorum_queue_from_config
    declare_quorum_queue_legacy declare_as bind_of_config bind_queue exchange_options apply_each
    apply_exchange_option apply_queue_option
set_up = refl

-- The limit of the configuration outweighs the custom argument.
abbrev limited : QueueConfig
limited = record orders { max_length = pos 5 }

lookup-to_arguments_example :
    lookup "x-max-length" (to_arguments limited) ≡ argument limited "x-max-length"
lookup-to_arguments_example = lookup-to_arguments limited "x-max-length"

limit_sent : argument limited "x-max-length" ≡ some (int (pos 5))
limit_sent = refl

-- The queue `a->b` bound to `c`, and the queue `a` bound to `b->c`.
abbrev shadowing : BindingConfig
shadowing = record {
  queue_name = "a";
  exchange_name = "b->c";
  routing_key = "k";
  no_wait = false;
  arguments = none;
}

shadowed : get_binding "a->b" "c" "k" (register_binding shadowing known) ≡ some shadowing
shadowed = register_binding-collides "a" "b" "c" "k" shadowing known refl refl refl

-- Everything is on the broker.
abbrev everything : Items
everything _ = true

abbrev intact : World memory
intact = record { state = everything; tracked = true; registry = known }

abbrev enabled : TopologyValidator
enabled = record {
  enabled = true;
  auto_recreate = true;
  validation_timeout = 5;
  background_enabled = false;
  validation_interval = 30;
  loops = 0;
}

found_orders : get_queue "orders" known ≡ some orders
unfolding get_queue find
found_orders = refl

validate_queue-forgets_example :
    let (r, w') = validate_queue memory enabled "orders" intact in
    (r ≡ ok tt) × (get_queue "orders" w'.registry ≡ some (forgotten orders))
validate_queue-forgets_example =
    validate_queue-forgets memory memory-IsLawful memory-IsAccepting enabled "orders" orders intact
      refl refl found_orders refl refl refl (refl, tt)
