-- ===== src/Topology/Adds.antt =====
-- topology_validation.go: what a registration adds to the registry.
use go_rabbitmq.Base.{
  ◌≡◌, refl, ap, subst, sym, ◌∙◌, ◌⊎◌, inl, inr, String, Bool, true, false, Option, some, List,
  is_some, if◌then◌else◌, Bool-cases, if_fails, arith,
}
use go_rabbitmq.Base.Eq.{String_eq}
use go_rabbitmq.Topology.Config.{QueueConfig, ExchangeConfig, BindingConfig}
use go_rabbitmq.Topology.Registry.{
  TopologyRegistry, find, put, find-put, exchange_name, queue_name, key_of_binding, binding_key,
  register_exchange, register_queue, register_binding, get_exchange, get_queue, get_binding,
}
use go_rabbitmq.Topology.Broker.{Item, exchange, queue, binding, registers, is_binding}

-- A change of the registry that adds one item at most.
pub record Adds (f : TopologyRegistry → TopologyRegistry) (i : Item) : Type 0 where
  pub added :
      (r : TopologyRegistry) (j : Item)
      → registers (f r) j ≡ true
      → (registers r j ≡ true) ⊎ (j ≡ i)
  pub added_queue :
      (r : TopologyRegistry) (q : String) (c : QueueConfig)
      → get_queue q (f r) ≡ some c
      → (get_queue q r ≡ some c) ⊎ (queue q ≡ i)
  pub exchange_stays :
      (r : TopologyRegistry) (x : String)
      → registers r (exchange x) ≡ true
      → registers (f r) (exchange x) ≡ true
  pub queue_stays :
      (r : TopologyRegistry) (q : String)
      → registers r (queue q) ≡ true
      → registers (f r) (queue q) ≡ true

module _ {ℓ} {A : Type ℓ} (key : A → String) (k : String) (x : A) (xs : List A) where
  is_some-find-put :
      is_some (find key k (put key x xs)) ≡ true → (is_some (find key k xs) ≡ true) ⊎ (k ≡ key x)
  is_some-find-put h = ground (arith, find-put key k x xs, String_eq.beq_iff (key x) k)

  find-put-eq :
      (y : A) → find key k (put key x xs) ≡ some y → (find key k xs ≡ some y) ⊎ (k ≡ key x)
  find-put-eq y h = elim (Bool-cases (String_eq.beq (key x) k)) [
    | inl e ↦ inr (sym ((String_eq.beq_iff (key x) k).0 e))
    | inr e ↦ inl (
        if_fails (λ o. o ≡ some y → find key k xs ≡ some y) _ _ _ e (λ p. p)
          (sym (find-put key k x xs) ∙ h))
  ]

  find-put-stays : is_some (find key k xs) ≡ true → is_some (find key k (put key x xs)) ≡ true
  find-put-stays h = ground (arith, find-put key k x xs)

-- A binding is read back from its entry.
pub is_binding-names :
    (q x k : String) (c : BindingConfig)
    → is_binding q x k (some c) ≡ true
    → (c.queue_name ≡ q) × (c.exchange_name ≡ x) × (c.routing_key ≡ k)
is_binding-names q x k c h = ground (
  arith,
  String_eq.beq_iff c.queue_name q,
  String_eq.beq_iff c.exchange_name x,
  String_eq.beq_iff c.routing_key k,
)

is_binding-eq :
    (q x k : String) (c : BindingConfig)
    → is_binding q x k (some c) ≡ true
    → binding q x k ≡ binding c.queue_name c.exchange_name c.routing_key
is_binding-eq q x k c h = let (e, f, g) = is_binding-names q x k c h in rw (e, f, g) refl

is_binding_either :
    (q x k : String) (b : Bool) (c : BindingConfig) (o : Option BindingConfig)
    → is_binding q x k (if b then some c else o) ≡ true
    → (is_binding q x k o ≡ true)
      ⊎ (binding q x k ≡ binding c.queue_name c.exchange_name c.routing_key)
is_binding_either q x k true c o h = inr (is_binding-eq q x k c h)
is_binding_either q x k false c o h = inl h

register_exchange-added :
    (c : ExchangeConfig) (r : TopologyRegistry) (j : Item)
    → registers (register_exchange c r) j ≡ true
    → (registers r j ≡ true) ⊎ (j ≡ exchange c.name)
unfolding registers register_exchange get_exchange get_queue get_binding
register_exchange-added c r (exchange x) h =
    elim (is_some-find-put exchange_name x c r.exchanges h) [
      | inl p ↦ inl p
      | inr e ↦ inr (ap exchange e)
    ]
register_exchange-added c r (queue q) h = inl h
register_exchange-added c r (binding q x k) h = inl h

register_queue-added :
    (c : QueueConfig) (r : TopologyRegistry) (j : Item)
    → registers (register_queue c r) j ≡ true
    → (registers r j ≡ true) ⊎ (j ≡ queue c.name)
unfolding registers register_queue get_exchange get_queue get_binding
register_queue-added c r (exchange x) h = inl h
register_queue-added c r (queue q) h = elim (is_some-find-put queue_name q c r.queues h) [
  | inl p ↦ inl p
  | inr e ↦ inr (ap queue e)
]
register_queue-added c r (binding q x k) h = inl h

register_binding-added :
    (c : BindingConfig) (r : TopologyRegistry) (j : Item)
    → registers (register_binding c r) j ≡ true
    → (registers r j ≡ true) ⊎ (j ≡ binding c.queue_name c.exchange_name c.routing_key)
unfolding registers register_binding get_exchange get_queue get_binding
register_binding-added c r (exchange x) h = inl h
register_binding-added c r (queue q) h = inl h
register_binding-added c r (binding q x k) h =
    is_binding_either q x k (String_eq.beq (key_of_binding c) (binding_key q x k)) c _ (
      subst (λ o. is_binding q x k o ≡ true)
        (find-put key_of_binding (binding_key q x k) c r.bindings) h)

pub register_exchange-Adds : (c : ExchangeConfig) → Adds (register_exchange c) (exchange c.name)
unfolding registers register_exchange get_exchange get_queue get_binding
register_exchange-Adds c = record {
  added = register_exchange-added c;
  added_queue = λ r q d h. inl h;
  exchange_stays = λ r x. find-put-stays exchange_name x c r.exchanges;
  queue_stays = λ r q h. h;
}

pub register_queue-Adds : (c : QueueConfig) → Adds (register_queue c) (queue c.name)
unfolding registers register_queue get_exchange get_queue get_binding
register_queue-Adds c = record {
  added = register_queue-added c;
  added_queue = λ r q d h. elim (find-put-eq queue_name q c r.queues d h) [
    | inl p ↦ inl p
    | inr e ↦ inr (ap queue e)
  ];
  exchange_stays = λ r x h. h;
  queue_stays = λ r q. find-put-stays queue_name q c r.queues;
}

pub register_binding-Adds :
    (c : BindingConfig)
    → Adds (register_binding c) (binding c.queue_name c.exchange_name c.routing_key)
unfolding registers register_binding get_exchange get_queue get_binding
register_binding-Adds c = record {
  added = register_binding-added c;
  added_queue = λ r q d h. inl h;
  exchange_stays = λ r x h. h;
  queue_stays = λ r q h. h;
}
