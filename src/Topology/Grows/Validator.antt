-- ===== src/Topology/Grows/Validator.antt =====
-- topology_validation.go: every step of a validation only adds to the broker and to the registry.
use go_rabbitmq.Base.{String, Bool}
use go_rabbitmq.Topology.Config.{QueueConfig, ExchangeConfig, BindingConfig}
use go_rabbitmq.Topology.Broker.{Broker, IsLawful}
use go_rabbitmq.Topology.Validator.{
  restore_binding, restore_if, recreate_exchange_bindings, recreate_queue_bindings,
  recreate_exchange, recreate_queue, create_exchange, ensure_exchange_exists, check_exchange,
  restore_queue, check_queue, check_binding,
}
use go_rabbitmq.Topology.Grows.{
  AlwaysGrows, gets-AlwaysGrows, fail-AlwaysGrows, >>=-AlwaysGrows, pure-AlwaysGrows,
  if-AlwaysGrows, for_each-AlwaysGrows,
}
use go_rabbitmq.Topology.Grows.Admin.{
  declare_queue-AlwaysGrows, declare_exchange-AlwaysGrows, bind_queue-AlwaysGrows,
  exchange_exists-AlwaysGrows, queue_exists-AlwaysGrows,
}

module _ (B : Broker) (L : IsLawful B) where
  pub restore_binding-AlwaysGrows : (c : BindingConfig) → AlwaysGrows B (restore_binding B c)
  unfolding restore_binding
  restore_binding-AlwaysGrows c = bind_queue-AlwaysGrows B L _ _ _ _

  restore_if-AlwaysGrows :
      (p : BindingConfig → Bool) (c : BindingConfig) → AlwaysGrows B (restore_if B p c)
  unfolding restore_if
  restore_if-AlwaysGrows p c = if-AlwaysGrows _ (restore_binding-AlwaysGrows c) (pure-AlwaysGrows _)

  pub recreate_exchange_bindings-AlwaysGrows :
      (name : String) → AlwaysGrows B (recreate_exchange_bindings B name)
  unfolding recreate_exchange_bindings
  recreate_exchange_bindings-AlwaysGrows name =
      >>=-AlwaysGrows (gets-AlwaysGrows _)
        (λ bs. for_each-AlwaysGrows (restore_if-AlwaysGrows _) bs)

  pub recreate_queue_bindings-AlwaysGrows :
      (name : String) → AlwaysGrows B (recreate_queue_bindings B name)
  unfolding recreate_queue_bindings
  recreate_queue_bindings-AlwaysGrows name =
      >>=-AlwaysGrows (gets-AlwaysGrows _)
        (λ bs. for_each-AlwaysGrows (restore_if-AlwaysGrows _) bs)

  pub recreate_exchange-AlwaysGrows : (c : ExchangeConfig) → AlwaysGrows B (recreate_exchange B c)
  unfolding recreate_exchange
  recreate_exchange-AlwaysGrows c =
      >>=-AlwaysGrows (declare_exchange-AlwaysGrows B L _ _ _)
        (λ _. recreate_exchange_bindings-AlwaysGrows c.name)

  pub recreate_queue-AlwaysGrows : (c : QueueConfig) → AlwaysGrows B (recreate_queue B c)
  unfolding recreate_queue
  recreate_queue-AlwaysGrows c =
      >>=-AlwaysGrows (declare_queue-AlwaysGrows B L _ _)
        (λ _. recreate_queue_bindings-AlwaysGrows c.name)

  create_exchange-AlwaysGrows : (name : String) → AlwaysGrows B (create_exchange B name)
  unfolding create_exchange
  create_exchange-AlwaysGrows name =
      >>=-AlwaysGrows (gets-AlwaysGrows _) (λ o. recreate_exchange-AlwaysGrows _)

  pub ensure_exchange_exists-AlwaysGrows :
      (name : String) → AlwaysGrows B (ensure_exchange_exists B name)
  unfolding ensure_exchange_exists
  ensure_exchange_exists-AlwaysGrows name =
      if-AlwaysGrows _
        (>>=-AlwaysGrows (exchange_exists-AlwaysGrows B L name)
          (λ b. if-AlwaysGrows _ (pure-AlwaysGrows _) (create_exchange-AlwaysGrows name)))
        (pure-AlwaysGrows _)

  pub check_exchange-AlwaysGrows : (c : ExchangeConfig) → AlwaysGrows B (check_exchange B c)
  unfolding check_exchange
  check_exchange-AlwaysGrows c =
      >>=-AlwaysGrows (exchange_exists-AlwaysGrows B L c.name)
        (λ b. if-AlwaysGrows _ (pure-AlwaysGrows _) (recreate_exchange-AlwaysGrows c))

  restore_queue-AlwaysGrows : (c : QueueConfig) → AlwaysGrows B (restore_queue B c)
  unfolding restore_queue
  restore_queue-AlwaysGrows c =
      >>=-AlwaysGrows (ensure_exchange_exists-AlwaysGrows c.dead_letter_exchange)
        (λ _. recreate_queue-AlwaysGrows c)

  pub check_queue-AlwaysGrows : (c : QueueConfig) → AlwaysGrows B (check_queue B c)
  unfolding check_queue
  check_queue-AlwaysGrows c =
      >>=-AlwaysGrows (queue_exists-AlwaysGrows B L c.name)
        (λ b. if-AlwaysGrows _ (pure-AlwaysGrows _) (restore_queue-AlwaysGrows c))

  pub check_binding-AlwaysGrows : (c : BindingConfig) → AlwaysGrows B (check_binding B c)
  unfolding check_binding
  check_binding-AlwaysGrows c =
      >>=-AlwaysGrows (ensure_exchange_exists-AlwaysGrows c.exchange_name) (λ _.
        >>=-AlwaysGrows (queue_exists-AlwaysGrows B L c.queue_name)
          (λ b. if-AlwaysGrows _ (restore_binding-AlwaysGrows c) (fail-AlwaysGrows _)))
