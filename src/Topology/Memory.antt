-- ===== src/Topology/Memory.antt =====
-- A broker in memory that is up and takes what it is given: an instance of the interface and its laws.
use go_rabbitmq.Base.{
  ◌≡◌, refl, String, Bool, true, false, not, ◌&&◌, ◌||◌, Option, some, is_some, if◌then◌else◌,
  arith,
}
use go_rabbitmq.Base.Eq.{String_eq}
use go_rabbitmq.Topology.Broker.{
  Item, exchange, queue, binding, Queue, Bind, Broker, IsLawful, IsAccepting,
}

abbrev pub same_item : Item → Item → Bool
same_item (exchange x) (exchange y) = String_eq.beq x y
same_item (queue x) (queue y) = String_eq.beq x y
same_item (binding q x k) (binding q' x' k') =
    String_eq.beq q q' && (String_eq.beq x x' && String_eq.beq k k')
same_item _ _ = false

abbrev pub Items : Type 0
Items = Item → Bool

abbrev pub add : Item → Items → Items
add i s j = same_item i j || s j

abbrev pub remove : Item → Items → Items
remove i s j = not (same_item i j) && s j

abbrev pub empty : String → Queue
empty name = record { name = name; messages = 0; consumers = 0 }

abbrev pub bind_in : Bind → Items → Bool × Items
bind_in b s =
    let fits = s (queue b.queue_name) && s (exchange b.exchange_name) in
    (fits, λ j. (fits && same_item (binding b.queue_name b.exchange_name b.routing_key) j) || s j)

abbrev pub memory : Broker
memory = record {
  State = Items;
  has_channel = λ s. true;
  has = λ s i. s i;
  queue_declare = λ d s. (some (empty d.name), add (queue d.name) s);
  queue_declare_passive = λ q s. (if s (queue q) then some (empty q) else Option.none, s);
  queue_delete = λ q _ _ _ s. (true, remove (queue q) s);
  queue_purge = λ q s. (some 0, s);
  queue_bind = bind_in;
  queue_unbind = λ b s. (true, remove (binding b.queue_name b.exchange_name b.routing_key) s);
  exchange_declare = λ d s. (true, add (exchange d.name) s);
  exchange_declare_passive = λ x s. (s (exchange x), s);
  exchange_delete = λ x _ _ s. (true, remove (exchange x) s);
  exchange_bind = λ d k x n t s. (true, s);
}

or_true : (b c : Bool) → c ≡ true → (b || c) ≡ true
or_true b c h = ground arith

bind_in-bound :
    (b : Bind) (s : Items)
    → (bind_in b s).0 ≡ true
    → (bind_in b s).1 (binding b.queue_name b.exchange_name b.routing_key) ≡ true
bind_in-bound b s h = ground (
  arith,
  String_eq.beq_iff b.queue_name b.queue_name,
  String_eq.beq_iff b.exchange_name b.exchange_name,
  String_eq.beq_iff b.routing_key b.routing_key,
)

self : (x : String) (c : Bool) → (String_eq.beq x x || c) ≡ true
self x c = ground (arith, String_eq.beq_iff x x)

passive-eq : (q : String) (b : Bool) → is_some (if b then some (empty q) else Option.none) ≡ b
passive-eq q true = refl
passive-eq q false = refl

pub memory-IsLawful : IsLawful memory
memory-IsLawful = record {
  declared_queue = λ d s h. self d.name _;
  declared_exchange = λ d s h. self d.name _;
  bound = bind_in-bound;
  passive_queue = λ q s. passive-eq q (s (queue q));
  passive_exchange = λ x s. refl;
  queue_declare_keeps = λ d s i h. or_true _ _ h;
  queue_declare_passive_keeps = λ q s i h. h;
  exchange_declare_keeps = λ d s i h. or_true _ _ h;
  exchange_declare_passive_keeps = λ x s i h. h;
  queue_bind_keeps = λ b s i h. or_true _ _ h;
}

pub memory-IsAccepting : IsAccepting memory
memory-IsAccepting = record {
  channel = λ s. refl;
  declares_queue = λ d s. refl;
  declares_exchange = λ d s. refl;
  binds = λ b s hq hx. ground arith;
}
