-- ===== src/Topology/Registry.antt =====
-- topology_validation.go: TopologyRegistry. Each of its maps keeps a configuration under a key that is
-- computed from it, so a map is a list of configurations. The lock is not modelled: each method is one
-- step.
use Prim.Native.String.{◌++◌ as string_append}
use text.Mathlib.TextLemmas.{append_assoc}
use go_rabbitmq.Base.{
  ◌≡◌, refl, String, Option, none, some, List, [], ◌∷◌, arith, if◌then◌else◌, if_holds, ◌∙◌,
}
use go_rabbitmq.Base.Eq.{String_eq}
use go_rabbitmq.Topology.Config.{ExchangeConfig, QueueConfig, BindingConfig}

-- A map whose values are stored under their own key.
module _ {ℓ} {A : Type ℓ} (key : A → String) where
  unfoldable pub find : String → List A → Option A
  find k [] = none
  find k (x ∷ xs) = if String_eq.beq (key x) k then some x else find k xs

  unfoldable pub put : A → List A → List A
  put x [] = x ∷ []
  put x (y ∷ ys) = if String_eq.beq (key y) (key x) then x ∷ ys else y ∷ put x ys

  pub find-put :
      (k : String) (x : A) (xs : List A)
      → find k (put x xs) ≡ (if String_eq.beq (key x) k then some x else find k xs)
  unfolding find put
  find-put k x [] = refl
  find-put k x (y ∷ ys) = ground (
    arith,
    String_eq.beq_iff (key x) k,
    String_eq.beq_iff (key y) (key x),
    String_eq.beq_iff (key y) k,
    find-put k x ys,
  )

  pub key-find : (k : String) (xs : List A) {x : A} → find k xs ≡ some x → key x ≡ k
  unfolding find
  key-find k [] e = cc
  key-find k (y ∷ ys) {x = x} e = ground (arith, String_eq.beq_iff (key y) k, key-find k ys {x = x})

unfoldable pub binding_key : String → String → String → String
binding_key queue exchange routing_key =
    string_append queue
      (string_append "->" (string_append exchange (string_append ":" routing_key)))

abbrev pub exchange_name : ExchangeConfig → String
exchange_name c = c.name

abbrev pub queue_name : QueueConfig → String
queue_name c = c.name

unfoldable pub key_of_binding : BindingConfig → String
unfolding binding_key
key_of_binding c = binding_key c.queue_name c.exchange_name c.routing_key

pub record TopologyRegistry : Type 0 where
  pub exchanges : List ExchangeConfig
  pub queues : List QueueConfig
  pub bindings : List BindingConfig

unfoldable pub new_topology_registry : TopologyRegistry
new_topology_registry = record { exchanges = []; queues = []; bindings = [] }

unfoldable pub register_exchange : ExchangeConfig → TopologyRegistry → TopologyRegistry
unfolding put
register_exchange c r = record r { exchanges = put exchange_name c r.exchanges }

unfoldable pub register_queue : QueueConfig → TopologyRegistry → TopologyRegistry
unfolding put
register_queue c r = record r { queues = put queue_name c r.queues }

unfoldable pub register_binding : BindingConfig → TopologyRegistry → TopologyRegistry
unfolding put
register_binding c r = record r { bindings = put key_of_binding c r.bindings }

unfoldable pub get_exchange : String → TopologyRegistry → Option ExchangeConfig
unfolding find
get_exchange name r = find exchange_name name r.exchanges

unfoldable pub get_queue : String → TopologyRegistry → Option QueueConfig
unfolding find
get_queue name r = find queue_name name r.queues

unfoldable pub get_binding : String → String → String → TopologyRegistry → Option BindingConfig
unfolding find binding_key
get_binding queue exchange routing_key r =
    find key_of_binding (binding_key queue exchange routing_key) r.bindings

-- Go visits a map in any order; here it is the list's.
unfoldable pub list_exchanges : TopologyRegistry → List ExchangeConfig
list_exchanges r = r.exchanges

unfoldable pub list_queues : TopologyRegistry → List QueueConfig
list_queues r = r.queues

unfoldable pub list_bindings : TopologyRegistry → List BindingConfig
list_bindings r = r.bindings

unfoldable pub clear : TopologyRegistry → TopologyRegistry
unfolding new_topology_registry
clear r = new_topology_registry

-- The key of a binding does not mark where a name ends, so different bindings may share it: after a
-- binding of the queue `a` to the exchange `b->c` is registered, looking up the one of the queue
-- `a->b` to the exchange `c` gives it, and any that was registered under these names is lost.
pub register_binding-collides :
    (a b c k : String) (d : BindingConfig) (r : TopologyRegistry)
    → d.queue_name ≡ a
    → d.exchange_name ≡ string_append b (string_append "->" c)
    → d.routing_key ≡ k
    → get_binding (string_append a (string_append "->" b)) c k (register_binding d r) ≡ some d
unfolding get_binding register_binding key_of_binding binding_key
register_binding-collides a b c k d r eq ex ek =
    let key = binding_key (string_append a (string_append "->" b)) c k in
    find-put key_of_binding key d r.bindings
    ∙ if_holds (λ o. o ≡ some d) (String_eq.beq (key_of_binding d) key) (some d)
        (find key_of_binding key r.bindings)
        ((String_eq.beq_iff (key_of_binding d) key).1 (rw (eq, ex, ek) (simp append_assoc))) refl
