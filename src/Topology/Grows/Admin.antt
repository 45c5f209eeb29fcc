-- ===== src/Topology/Grows/Admin.antt =====
-- admin.go: declarations, bindings and look-ups only add to the broker and to the registry.
use go_rabbitmq.Base.{
  ◌≡◌, refl, String, Bool, true, false, Option, none, some, List, is_some, if_either,
}
use go_rabbitmq.Topology.Config.{QueueType}
use go_rabbitmq.Topology.Options.{QueueSettings, QueueOption, ExchangeOption, BindingOption}
use go_rabbitmq.Topology.Registry.{TopologyRegistry}
use go_rabbitmq.Topology.Adds.{
  Adds, register_exchange-Adds, register_queue-Adds, register_binding-Adds,
}
use go_rabbitmq.Topology.Broker.{
  Item, exchange, queue, binding, Queue, Broker, IsLawful, World, Result, pure, ◌>>=◌, ◌>>◌, fail,
  or_fail, on_channel, demand, track,
}
use go_rabbitmq.Topology.Admin.{
  declare_as, declare_queue_legacy, declare_quorum_queue_legacy, declare_quorum_queue_from_config,
  declare_queue, declare_exchange, exchange_exists, queue_exists, bind_queue,
}
use go_rabbitmq.Topology.Grows.{
  Grows, AlwaysGrows, Grows-refl, Grows-trans, >>=-AlwaysGrows, pure-AlwaysGrows, if-AlwaysGrows,
  state-Grows, on_channel-AlwaysGrows, track-Grows,
}

module _ {B : Broker} (f : TopologyRegistry → TopologyRegistry) (i : Item) (a : Adds f i) where
  after_declaration :
      (w : World B) (o : Option Queue) (s : B.State)
      → ((j : Item) → B.has w.state j ≡ true → B.has s j ≡ true)
      → (is_some o ≡ true → B.has s i ≡ true)
      → Grows w ((or_fail o >>= λ d. track f >> pure d) (record w { state = s })).1
  unfolding track or_fail pure fail ◌>>=◌
  after_declaration w none s k h = state-Grows w s k
  after_declaration w (some q) s k h =
      Grows-trans (state-Grows w s k) (track-Grows f i (record w { state = s }) a (h refl))

  after_demand :
      (w : World B) (b : Bool) (s : B.State)
      → ((j : Item) → B.has w.state j ≡ true → B.has s j ≡ true)
      → (b ≡ true → B.has s i ≡ true)
      → Grows w ((demand b >> track f) (record w { state = s })).1
  unfolding track demand pure fail ◌>>=◌
  after_demand w false s k h = state-Grows w s k
  after_demand w true s k h =
      Grows-trans (state-Grows w s k) (track-Grows f i (record w { state = s }) a (h refl))

  -- An operation that declares an item, and its registration.
  declaration-AlwaysGrows :
      (op : B.State → Option Queue × B.State)
      → ((s : B.State) (j : Item) → B.has s j ≡ true → B.has (op s).1 j ≡ true)
      → ((s : B.State) → is_some (op s).0 ≡ true → B.has (op s).1 i ≡ true)
      → AlwaysGrows B (on_channel op >>= λ o. or_fail o >>= λ d. track f >> pure d)
  unfolding on_channel ◌>>=◌ fail
  declaration-AlwaysGrows op k h = record {
    grows = λ w.
        if_either
          (λ (p : Result (Option Queue) × World B).
            Grows w (((λ _. p) >>= λ o. or_fail o >>= λ d. track f >> pure d) w).1)
          (B.has_channel w.state) _ _
          (after_declaration w (op w.state).0 (op w.state).1 (k w.state) (h w.state))
          (Grows-refl w);
  }

  demand-AlwaysGrows :
      (op : B.State → Bool × B.State)
      → ((s : B.State) (j : Item) → B.has s j ≡ true → B.has (op s).1 j ≡ true)
      → ((s : B.State) → (op s).0 ≡ true → B.has (op s).1 i ≡ true)
      → AlwaysGrows B (on_channel op >>= λ b. demand b >> track f)
  unfolding on_channel ◌>>=◌ fail
  demand-AlwaysGrows op k h = record {
    grows = λ w.
        if_either
          (λ (p : Result Bool × World B). Grows w (((λ _. p) >>= λ b. demand b >> track f) w).1)
          (B.has_channel w.state) _ _
          (after_demand w (op w.state).0 (op w.state).1 (k w.state) (h w.state)) (Grows-refl w);
  }

module _ (B : Broker) (L : IsLawful B) where
  declare_as-AlwaysGrows :
      (t : QueueType) (name : String) (c : QueueSettings) → AlwaysGrows B (declare_as B t name c)
  unfolding declare_as
  declare_as-AlwaysGrows t name c =
      declaration-AlwaysGrows _ (queue name) (register_queue-Adds _) (B.queue_declare _)
        (L.queue_declare_keeps _) (L.declared_queue _)

  pub declare_queue-AlwaysGrows :
      (name : String) (opts : List QueueOption) → AlwaysGrows B (declare_queue B name opts)
  unfolding declare_queue declare_queue_legacy declare_quorum_queue_from_config
      declare_quorum_queue_legacy
  declare_queue-AlwaysGrows name opts =
      if-AlwaysGrows _ (declare_as-AlwaysGrows _ name _) (declare_as-AlwaysGrows _ name _)

  pub declare_exchange-AlwaysGrows :
      (name kind : String) (opts : List ExchangeOption)
      → AlwaysGrows B (declare_exchange B name kind opts)
  unfolding declare_exchange
  declare_exchange-AlwaysGrows name kind opts =
      demand-AlwaysGrows _ (exchange name) (register_exchange-Adds _) (B.exchange_declare _)
        (L.exchange_declare_keeps _) (L.declared_exchange _)

  pub bind_queue-AlwaysGrows :
      (q x k : String) (opts : List BindingOption) → AlwaysGrows B (bind_queue B q x k opts)
  unfolding bind_queue
  bind_queue-AlwaysGrows q x k opts =
      demand-AlwaysGrows _ (binding q x k) (register_binding-Adds _) (B.queue_bind _)
        (L.queue_bind_keeps _) (L.bound _)

  pub exchange_exists-AlwaysGrows : (name : String) → AlwaysGrows B (exchange_exists B name)
  unfolding exchange_exists
  exchange_exists-AlwaysGrows name =
      on_channel-AlwaysGrows _ (L.exchange_declare_passive_keeps name)

  pub queue_exists-AlwaysGrows : (name : String) → AlwaysGrows B (queue_exists B name)
  unfolding queue_exists
  queue_exists-AlwaysGrows name =
      >>=-AlwaysGrows (on_channel-AlwaysGrows _ (L.queue_declare_passive_keeps name))
        (λ o. pure-AlwaysGrows _)
