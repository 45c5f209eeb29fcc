-- ===== src/Topology/Exist.antt =====
-- topology_validation.go: what a validation is to achieve.
use go_rabbitmq.Base.{◌≡◌, refl, ◌⊎◌, inl, inr, String, true, Option, none, some, is_some}
use go_rabbitmq.Topology.Config.{QueueConfig, BindingConfig}
use go_rabbitmq.Topology.Registry.{get_queue}
use go_rabbitmq.Topology.Broker.{exchange, queue, binding, Broker, World, registers, is_binding}
use go_rabbitmq.Topology.Grows.{Grows}

-- Each registered exchange, or queue, is on the broker.
abbrev pub ExchangesExist : {B : Broker} → World B → Type 0
ExchangesExist {B = B} w =
    (x : String) → registers w.registry (exchange x) ≡ true → B.has w.state (exchange x) ≡ true

abbrev pub QueuesExist : {B : Broker} → World B → Type 0
QueuesExist {B = B} w =
    (q : String) → registers w.registry (queue q) ≡ true → B.has w.state (queue q) ≡ true

-- The dead letters of each registered queue go nowhere or to a registered exchange.
abbrev pub HasClosedDeadLetters : {B : Broker} → World B → Type 0
HasClosedDeadLetters w =
    (q : String) (c : QueueConfig)
    → get_queue q w.registry ≡ some c
    → (c.dead_letter_exchange ≡ "")
      ⊎ (registers w.registry (exchange c.dead_letter_exchange) ≡ true)

-- What a validation from `w` to `w'` achieves.
pub record IsRestored {B : Broker} (w w' : World B) : Type 0 where
  pub exchanges : ExchangesExist w'
  pub queues : QueuesExist w'
  pub bindings :
      (q x k : String)
      → registers w'.registry (binding q x k) ≡ true
      → registers w.registry (queue q) ≡ true
      → registers w.registry (exchange x) ≡ true
      → B.has w'.state (binding q x k) ≡ true
  pub grows : Grows w w'

pub is_some-eq {ℓ} : {A : Type ℓ} (o : Option A) → is_some o ≡ true → (a : A) × (o ≡ some a)
is_some-eq none h = cc
is_some-eq (some a) h = (a, refl)

pub is_binding-eq_some :
    (q x k : String) (o : Option BindingConfig)
    → is_binding q x k o ≡ true
    → (c : BindingConfig) × (o ≡ some c) × (is_binding q x k (some c) ≡ true)
is_binding-eq_some q x k none h = cc
is_binding-eq_some q x k (some c) h = (c, refl, h)

module _ {B : Broker} where
  pub ExchangesExist-Grows : (v w : World B) → Grows v w → ExchangesExist v → ExchangesExist w
  ExchangesExist-Grows v w g h x r = elim (g.fresh (exchange x) r) [
    | inl p ↦ g.kept (exchange x) (h x p)
    | inr p ↦ p
  ]

  pub QueuesExist-Grows : (v w : World B) → Grows v w → QueuesExist v → QueuesExist w
  QueuesExist-Grows v w g h q r = elim (g.fresh (queue q) r) [
    | inl p ↦ g.kept (queue q) (h q p)
    | inr p ↦ p
  ]
