-- ===== src/Topology/Declared.antt =====
-- admin.go: what a declared topology leaves on a broker that may refuse any of it.
use go_rabbitmq.Topology.Returned.{
  >>=-returned, declared-ensures, demanded-ensures, opened-Ensures, for_each-Ensures, All-Grows,
  Ensures,
}
use go_rabbitmq.Base.{◌≡◌, sym, subst, ◌∙◌, String, true, List, if_either, All}
use go_rabbitmq.Topology.Config.{QueueConfig, ExchangeConfig, BindingConfig, QueueType}
use go_rabbitmq.Topology.Options.{QueueSettings, QueueOption, ExchangeOption, BindingOption}
use go_rabbitmq.Topology.Broker.{
  Item, exchange, queue, binding, Queue, Broker, IsLawful, World, ok, Action, Done, pure, ◌>>◌,
  for_each,
}
use go_rabbitmq.Topology.Admin.{
  declare_as, declare_queue_legacy, declare_quorum_queue_legacy, declare_quorum_queue_from_config,
  declare_queue, declare_exchange, bind_queue,
}
use go_rabbitmq.Topology.Declare.{
  Topology, declare_exchange_of, declare_topology_queue, setup_queue, bind_of_config,
  declare_topology, setup_topology,
}
use go_rabbitmq.Topology.Grows.{
  AlwaysGrows, Grows-trans, >>=-AlwaysGrows, pure-AlwaysGrows, for_each-AlwaysGrows,
}
use go_rabbitmq.Topology.Grows.Admin.{
  declare_queue-AlwaysGrows, declare_exchange-AlwaysGrows, bind_queue-AlwaysGrows,
}

module _ (B : Broker) (L : IsLawful B) where
  declare_as-Ensures :
      (t : QueueType) (name : String) (c : QueueSettings)
      → Ensures B (declare_as B t name c) (queue name)
  unfolding declare_as
  declare_as-Ensures t name c =
      opened-Ensures (B.queue_declare _) _ (queue name)
        (λ w d e. declared-ensures _ (queue name) _ _ d (L.declared_queue _ w.state) e)

  declare_queue-Ensures :
      (name : String) (opts : List QueueOption) → Ensures B (declare_queue B name opts) (queue name)
  unfolding declare_queue declare_queue_legacy declare_quorum_queue_from_config
      declare_quorum_queue_legacy
  declare_queue-Ensures name opts =
      if_either (λ (m : Action B Queue). Ensures B m (queue name)) _ _ _
        (declare_as-Ensures _ name _) (declare_as-Ensures _ name _)

  declared_queue-Ensures :
      (name : String) (opts : List QueueOption)
      → Ensures B (declare_queue B name opts >> pure {A = Done} tt) (queue name)
  declared_queue-Ensures name opts = record {
    ensures = λ w d e.
        let (q, first, rest, same) =
          >>=-returned (declare_queue B name opts) (λ _. pure {A = Done} tt) w d e in
        let v = (declare_queue B name opts w).1 in
        subst (λ (u : World B). B.has u.state (queue name) ≡ true) (sym same)
          (((pure-AlwaysGrows {A = Done} tt).grows v).kept (queue name)
            ((declare_queue-Ensures name opts).ensures w q first));
  }

  declare_exchange-Ensures :
      (name kind : String) (opts : List ExchangeOption)
      → Ensures B (declare_exchange B name kind opts) (exchange name)
  unfolding declare_exchange
  declare_exchange-Ensures name kind opts =
      opened-Ensures (B.exchange_declare _) _ (exchange name)
        (λ w d e. demanded-ensures _ (exchange name) _ _ d (L.declared_exchange _ w.state) e)

  bind_queue-Ensures :
      (q x k : String) (opts : List BindingOption)
      → Ensures B (bind_queue B q x k opts) (binding q x k)
  unfolding bind_queue
  bind_queue-Ensures q x k opts =
      opened-Ensures (B.queue_bind _) _ (binding q x k)
        (λ w d e. demanded-ensures _ (binding q x k) _ _ d (L.bound _ w.state) e)

  declared_queue-AlwaysGrows :
      (name : String) (opts : List QueueOption)
      → AlwaysGrows B (declare_queue B name opts >> pure {A = Done} tt)
  declared_queue-AlwaysGrows name opts =
      >>=-AlwaysGrows (declare_queue-AlwaysGrows B L name opts) (λ _. pure-AlwaysGrows _)

  -- Three loops one after the other.
  three_loops {ℓ κ μ} :
      {X : Type ℓ} {Q : Type κ} {K : Type μ} (f : X → Action B Done) (g : Q → Action B Done)
      (h : K → Action B Done) (x_item : X → Item) (q_item : Q → Item) (k_item : K → Item)
      → ((x : X) → AlwaysGrows B (f x) × Ensures B (f x) (x_item x))
      → ((q : Q) → AlwaysGrows B (g q) × Ensures B (g q) (q_item q))
      → ((k : K) → AlwaysGrows B (h k) × Ensures B (h k) (k_item k))
      → (xs : List X) (qs : List Q) (ks : List K) (w : World B) (d : Done)
      → ((for_each f xs >> (for_each g qs >> for_each h ks)) w).0 ≡ ok d
      → let s = ((for_each f xs >> (for_each g qs >> for_each h ks)) w).1.state in
        All (λ x. B.has s (x_item x) ≡ true) xs
        × All (λ q. B.has s (q_item q) ≡ true) qs
        × All (λ k. B.has s (k_item k) ≡ true) ks
  three_loops f g h x_item q_item k_item tf tg th xs qs ks w d e =
      let (_, e1, r1, s1) =
        >>=-returned (for_each f xs) (λ _. for_each g qs >> for_each h ks) w d e in
      let u = (for_each f xs w).1 in
      let (_, e2, r2, s2) = >>=-returned (for_each g qs) (λ _. for_each h ks) u d r1 in
      let v = (for_each g qs u).1 in
      let z = (for_each h ks v).1 in
      let gg = (for_each-AlwaysGrows (λ q. (tg q).0) qs).grows u in
      let gh = (for_each-AlwaysGrows (λ k. (th k).0) ks).grows v in
      subst
        (λ (y : World B).
          All (λ x. B.has y.state (x_item x) ≡ true) xs
          × All (λ q. B.has y.state (q_item q) ≡ true) qs
          × All (λ k. B.has y.state (k_item k) ≡ true) ks)
        (sym (s1 ∙ s2))
        (
          All-Grows x_item u z xs (Grows-trans gg gh)
              (for_each-Ensures f x_item (λ x. (tf x).0) (λ x. (tf x).1) xs w _ e1),
          All-Grows q_item v z qs gh
              (for_each-Ensures g q_item (λ q. (tg q).0) (λ q. (tg q).1) qs u _ e2),
          for_each-Ensures h k_item (λ k. (th k).0) (λ k. (th k).1) ks v d r2,
        )

  exchange_of-Ensures :
      (c : ExchangeConfig)
      → AlwaysGrows B (declare_exchange_of B c)
        × Ensures B (declare_exchange_of B c) (exchange c.name)
  unfolding declare_exchange_of
  exchange_of-Ensures c =
      (declare_exchange-AlwaysGrows B L c.name c.kind _, declare_exchange-Ensures c.name c.kind _)

  binding_of-Ensures :
      (c : BindingConfig)
      → AlwaysGrows B (bind_of_config B c)
        × Ensures B (bind_of_config B c) (binding c.queue_name c.exchange_name c.routing_key)
  unfolding bind_of_config
  binding_of-Ensures c = (
    bind_queue-AlwaysGrows B L c.queue_name c.exchange_name c.routing_key _,
    bind_queue-Ensures c.queue_name c.exchange_name c.routing_key _,
  )

-- On a broker that may refuse any operation: if declaring a topology returns no error, all its
-- exchanges, queues and bindings are on the broker.
pub declare_topology_complete :
    (B : Broker)
    → IsLawful B
    → (t : Topology) (w : World B) (d : Done) → (declare_topology B t w).0 ≡ ok d
    → let s = (declare_topology B t w).1.state in
      All (λ c. B.has s (exchange c.name) ≡ true) t.exchanges
      × All (λ c. B.has s (queue c.name) ≡ true) t.queues
      × All (λ c. B.has s (binding c.queue_name c.exchange_name c.routing_key) ≡ true) t.bindings
unfolding declare_topology declare_topology_queue
declare_topology_complete B L t w d e =
    three_loops B L (declare_exchange_of B) (declare_topology_queue B) (bind_of_config B)
      (λ c. exchange c.name) (λ c. queue c.name)
      (λ c. binding c.queue_name c.exchange_name c.routing_key) (exchange_of-Ensures B L)
      (λ c. (declared_queue-AlwaysGrows B L c.name _, declared_queue-Ensures B L c.name _))
      (binding_of-Ensures B L) t.exchanges t.queues t.bindings w d e

-- The same of `SetupTopology`: if it returns no error, all exchanges, queues and bindings that it was
-- given are on the broker.
pub setup_topology_complete :
    (B : Broker)
    → IsLawful B
    → (xs : List ExchangeConfig) (qs : List QueueConfig) (bs : List BindingConfig) (w : World B)
      (d : Done)
    → (setup_topology B xs qs bs w).0 ≡ ok d
    → let s = (setup_topology B xs qs bs w).1.state in
      All (λ c. B.has s (exchange c.name) ≡ true) xs
      × All (λ c. B.has s (queue c.name) ≡ true) qs
      × All (λ c. B.has s (binding c.queue_name c.exchange_name c.routing_key) ≡ true) bs
unfolding setup_topology setup_queue
setup_topology_complete B L xs qs bs w d e =
    three_loops B L (declare_exchange_of B) (setup_queue B) (bind_of_config B)
      (λ c. exchange c.name) (λ c. queue c.name)
      (λ c. binding c.queue_name c.exchange_name c.routing_key) (exchange_of-Ensures B L)
      (λ c. (declared_queue-AlwaysGrows B L c.name _, declared_queue-Ensures B L c.name _))
      (binding_of-Ensures B L) xs qs bs w d e
