-- ===== src/Topology/Broker.antt =====
-- The broker as the admin service uses it (amqp091-go's channel and RabbitMQ), with what it documents,
-- and the actions of the service on it.
use go_rabbitmq.Base.{
  ◌≡◌, ◌&&◌, ℕ, String, Bool, true, false, Option, none, some, List, [], ◌∷◌, if◌then◌else◌,
  is_some,
}
use go_rabbitmq.Base.Eq.{String_eq}
use go_rabbitmq.Message.{Table}
use go_rabbitmq.Topology.Config.{BindingConfig}
use go_rabbitmq.Topology.Registry.{TopologyRegistry, get_exchange, get_queue, get_binding}

-- What can stand on a broker: a binding is of a queue to an exchange with a routing key.
pub data Item : Type 0 where
  exchange : String → Item
  queue : String → Item
  binding : String → String → String → Item

-- The parameters of `QueueDeclare`, `ExchangeDeclare` and `QueueBind`.
pub record QueueDeclaration : Type 0 where
  pub name : String
  pub durable : Bool
  pub auto_delete : Bool
  pub exclusive : Bool
  pub no_wait : Bool
  pub arguments : Table

pub record ExchangeDeclaration : Type 0 where
  pub name : String
  pub kind : String
  pub durable : Bool
  pub auto_delete : Bool
  pub internal : Bool
  pub no_wait : Bool
  pub arguments : Table

pub record Bind : Type 0 where
  pub queue_name : String
  pub routing_key : String
  pub exchange_name : String
  pub no_wait : Bool
  pub arguments : Table

-- The counts of messages and consumers that a declaration answers.
pub record Queue : Type 0 where
  pub name : String
  pub messages : ℕ
  pub consumers : ℕ

-- An operation gives its answer, where `none` and `false` are errors, and the state that follows.
-- `has_channel` is the success of `getChannel`. A channel serves one operation and is then closed.
pub record Broker : Type 1 where
  pub State : Type 0
  pub has_channel : State → Bool
  pub has : State → Item → Bool
  pub queue_declare : QueueDeclaration → State → Option Queue × State
  pub queue_declare_passive : String → State → Option Queue × State
  pub queue_delete : String → Bool → Bool → Bool → State → Bool × State
  pub queue_purge : String → State → Option ℕ × State
  pub queue_bind : Bind → State → Bool × State
  pub queue_unbind : Bind → State → Bool × State
  pub exchange_declare : ExchangeDeclaration → State → Bool × State
  pub exchange_declare_passive : String → State → Bool × State
  pub exchange_delete : String → Bool → Bool → State → Bool × State
  pub exchange_bind : String → String → String → Bool → Table → State → Bool × State

-- A declaration or a binding that succeeds makes the item, and takes none away; nor does a passive
-- declaration, which succeeds exactly if the item exists.
pub record IsLawful (B : Broker) : Type 0 where
  pub declared_queue :
      (d : QueueDeclaration) (s : B.State)
      → is_some (B.queue_declare d s).0 ≡ true
      → B.has (B.queue_declare d s).1 (queue d.name) ≡ true
  pub declared_exchange :
      (d : ExchangeDeclaration) (s : B.State)
      → (B.exchange_declare d s).0 ≡ true
      → B.has (B.exchange_declare d s).1 (exchange d.name) ≡ true
  pub bound :
      (b : Bind) (s : B.State)
      → (B.queue_bind b s).0 ≡ true
      → B.has (B.queue_bind b s).1 (binding b.queue_name b.exchange_name b.routing_key) ≡ true
  pub passive_queue :
      (name : String) (s : B.State)
      → is_some (B.queue_declare_passive name s).0 ≡ B.has s (queue name)
  pub passive_exchange :
      (name : String) (s : B.State)
      → (B.exchange_declare_passive name s).0 ≡ B.has s (exchange name)
  pub queue_declare_keeps :
      (d : QueueDeclaration) (s : B.State) (i : Item)
      → B.has s i ≡ true
      → B.has (B.queue_declare d s).1 i ≡ true
  pub queue_declare_passive_keeps :
      (name : String) (s : B.State) (i : Item)
      → B.has s i ≡ true
      → B.has (B.queue_declare_passive name s).1 i ≡ true
  pub exchange_declare_keeps :
      (d : ExchangeDeclaration) (s : B.State) (i : Item)
      → B.has s i ≡ true
      → B.has (B.exchange_declare d s).1 i ≡ true
  pub exchange_declare_passive_keeps :
      (name : String) (s : B.State) (i : Item)
      → B.has s i ≡ true
      → B.has (B.exchange_declare_passive name s).1 i ≡ true
  pub queue_bind_keeps :
      (b : Bind) (s : B.State) (i : Item) → B.has s i ≡ true → B.has (B.queue_bind b s).1 i ≡ true

-- A broker that is up and refuses no declaration, and no binding of a queue to an exchange that both
-- exist.
pub record IsAccepting (B : Broker) : Type 0 where
  pub channel : (s : B.State) → B.has_channel s ≡ true
  pub declares_queue : (d : QueueDeclaration) (s : B.State) → is_some (B.queue_declare d s).0 ≡ true
  pub declares_exchange :
      (d : ExchangeDeclaration) (s : B.State) → (B.exchange_declare d s).0 ≡ true
  pub binds :
      (b : Bind) (s : B.State)
      → B.has s (queue b.queue_name) ≡ true
      → B.has s (exchange b.exchange_name) ≡ true
      → (B.queue_bind b s).0 ≡ true

-- `tracked` is `TopologyRegistry() != nil`.
pub record World (B : Broker) : Type 0 where
  pub state : B.State
  pub tracked : Bool
  pub registry : TopologyRegistry

pub data Error : Type 0 where
  no_channel refused does_not_exist : Error

pub data Result {ℓ} (A : Type ℓ) : Type ℓ where
  ok : A → Result A
  err : Error → Result A

abbrev pub Action {ℓ} : Broker → Type ℓ → Type ℓ
Action B A = World B → Result A × World B

abbrev pub Done : Type 0
Done = Unit {0}

module _ {B : Broker} where
  unfoldable pub pure {ℓ} : {A : Type ℓ} → A → Action B A
  pure a w = (ok a, w)

  unfoldable pub fail {ℓ} : {A : Type ℓ} → Error → Action B A
  fail e w = (err e, w)

  infixl 5 ◌>>=◌ ◌>>◌
  unfoldable pub ◌>>=◌ {ℓ κ} :
      {A : Type ℓ} {C : Type κ} → Action B A → (A → Action B C) → Action B C
  ◌>>=◌ m f w = let (r, w') = m w in elim r [ ok a ↦ f a w' | err e ↦ fail e w' ]

  abbrev pub ◌>>◌ {ℓ κ} : {A : Type ℓ} {C : Type κ} → Action B A → Action B C → Action B C
  m >> k = m >>= λ _. k

  unfoldable pub gets {ℓ} : {A : Type ℓ} → (World B → A) → Action B A
  gets f w = (ok (f w), w)

  -- An answer of the broker, and an error as `e`.
  unfoldable pub or_fail {ℓ} : {A : Type ℓ} → Option A → Action B A
  or_fail none = fail refused
  or_fail (some a) = pure a

  -- An operation of the broker, on a channel of its own.
  unfoldable pub on_channel {ℓ} : {A : Type ℓ} → (B.State → A × B.State) → Action B A
  on_channel f w =
      if B.has_channel w.state
      then (let (a, s) = f w.state in (ok a, record w { state = s }))
      else (err no_channel, w)

  unfoldable pub demand : Bool → Action B Done
  demand b = if b then pure tt else fail refused

  -- `if registry != nil { registry.Register(config) }`
  unfoldable pub track : (TopologyRegistry → TopologyRegistry) → Action B Done
  track f w = (ok tt, if w.tracked then record w { registry = f w.registry } else w)

  -- `for _, a := range xs { if err := f(a); err != nil { return err } }`
  unfoldable pub for_each {ℓ} : {A : Type ℓ} → (A → Action B Done) → List A → Action B Done
  for_each f [] = pure tt
  for_each f (a ∷ xs) = do f a; for_each f xs

  -- The same, where an error is only logged and the loop goes on.
  unfoldable pub for_each_logged {ℓ} : {A : Type ℓ} → (A → Action B Done) → List A → Action B Done
  for_each_logged f [] w = (ok tt, w)
  for_each_logged f (a ∷ xs) w = for_each_logged f xs (f a w).1

-- Whether the registry holds the item. For a binding, the entry under its key must be of these names,
-- since different bindings may have the same key.
abbrev pub is_binding : String → String → String → Option BindingConfig → Bool
is_binding q x k none = false
is_binding q x k (some c) =
    String_eq.beq c.queue_name q
    && (String_eq.beq c.exchange_name x && String_eq.beq c.routing_key k)

unfoldable pub registers : TopologyRegistry → Item → Bool
registers r (exchange x) = is_some (get_exchange x r)
registers r (queue q) = is_some (get_queue q r)
registers r (binding q x k) = is_binding q x k (get_binding q x k r)
