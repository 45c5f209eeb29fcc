-- ===== src/Topology/Restored.antt =====
-- topology_validation.go: what a whole validation achieves.
use go_rabbitmq.Topology.Exist.{
  ExchangesExist, QueuesExist, HasClosedDeadLetters, is_some-eq, is_binding-eq_some,
  ExchangesExist-Grows, QueuesExist-Grows, IsRestored,
}
use go_rabbitmq.Topology.Loops.{>>=-ok, loop-has, logged-ok}
use go_rabbitmq.Base.{◌≡◌, refl, ap, sym, subst, ◌∙◌, inl, inr, String, true, some}
use go_rabbitmq.Topology.Config.{QueueConfig}
use go_rabbitmq.Topology.Registry.{
  find, key-find, exchange_name, queue_name, key_of_binding, binding_key, get_exchange, get_queue,
  get_binding, list_exchanges, list_queues, list_bindings,
}
use go_rabbitmq.Topology.Adds.{is_binding-names}
use go_rabbitmq.Topology.Broker.{
  exchange, queue, binding, Broker, IsLawful, IsAccepting, World, gets, ◌>>=◌, ◌>>◌,
  for_each_logged, registers,
}
use go_rabbitmq.Topology.Validator.{
  check_exchange, check_queue, check_binding, validate_and_recreate_exchanges,
  validate_and_recreate_queues, validate_and_recreate_bindings, perform_background_validation,
}
use go_rabbitmq.Topology.Grows.{Grows, Grows-trans, logged_Grows}
use go_rabbitmq.Topology.Grows.Validator.{
  check_exchange-AlwaysGrows, check_queue-AlwaysGrows, check_binding-AlwaysGrows,
}
use go_rabbitmq.Topology.Accepting.{
  check_exchange-has, check_queue-has, check_binding-has, HasDeadLetters, HasDeadLetters-Grows,
  HasEnds,
}

module _ (B : Broker) (L : IsLawful B) (A : IsAccepting B) (w : World B) where
  abbrev after_exchanges : World B
  after_exchanges = (for_each_logged (check_exchange B) (list_exchanges w.registry) w).1

  exchanges-Grows : Grows w after_exchanges
  exchanges-Grows =
      logged_Grows (check_exchange B) (check_exchange-AlwaysGrows B L) (list_exchanges w.registry) w

  exchange-restored :
      (x : String)
      → registers w.registry (exchange x) ≡ true
      → B.has after_exchanges.state (exchange x) ≡ true
  unfolding registers get_exchange list_exchanges
  exchange-restored x r =
      let (c, e) = is_some-eq (find exchange_name x w.registry.exchanges) r in
      subst (λ y. B.has after_exchanges.state (exchange y) ≡ true)
        (key-find exchange_name x w.registry.exchanges e)
        (loop-has (check_exchange B) exchange_name (λ d. exchange d.name) (λ d v. Unit {0})
          (check_exchange-AlwaysGrows B L) (λ d u v g h. tt) (λ d v h. check_exchange-has B L A d v)
          x w.registry.exchanges c w e tt)

  after_exchanges-ExchangesExist : ExchangesExist after_exchanges
  after_exchanges-ExchangesExist x r = elim (exchanges-Grows.fresh (exchange x) r) [
    | inl p ↦ exchange-restored x p
    | inr p ↦ p
  ]

  abbrev after_queues : World B
  after_queues =
      (for_each_logged (check_queue B) (list_queues after_exchanges.registry) after_exchanges).1

  queues-Grows : Grows after_exchanges after_queues
  queues-Grows =
      logged_Grows (check_queue B) (check_queue-AlwaysGrows B L)
        (list_queues after_exchanges.registry) after_exchanges

  -- A registration that the first phase left alone still has the exchange of its dead letters.
  dead_letters-HasDeadLetters :
      HasClosedDeadLetters w
      → (q : String) (c : QueueConfig) → get_queue q w.registry ≡ some c
      → HasDeadLetters B L A c after_exchanges
  dead_letters-HasDeadLetters closed q c e = elim (closed q c e) [
    | inl h ↦ inl h
    | inr r ↦ inr (exchange-restored c.dead_letter_exchange r)
  ]

  queue-restored :
      (q : String) (c : QueueConfig)
      → get_queue q after_exchanges.registry ≡ some c
      → HasDeadLetters B L A c after_exchanges
      → B.has after_queues.state (queue q) ≡ true
  unfolding get_queue list_queues
  queue-restored q c e h =
      subst (λ y. B.has after_queues.state (queue y) ≡ true)
        (key-find queue_name q after_exchanges.registry.queues e)
        (loop-has (check_queue B) queue_name (λ d. queue d.name) (HasDeadLetters B L A)
          (check_queue-AlwaysGrows B L) (λ d u v g k. HasDeadLetters-Grows B L A d u v g k)
          (check_queue-has B L A) q after_exchanges.registry.queues c after_exchanges e h)

  known_queue-restored :
      HasClosedDeadLetters w
      → (q : String) (c : QueueConfig) → get_queue q after_exchanges.registry ≡ some c
      → B.has after_queues.state (queue q) ≡ true
  known_queue-restored closed q c e = elim (exchanges-Grows.fresh_queue q c e) [
    | inl p ↦ queue-restored q c e (dead_letters-HasDeadLetters closed q c p)
    | inr p ↦ queues-Grows.kept (queue q) p
  ]

  after_queues-QueuesExist : HasClosedDeadLetters w → QueuesExist after_queues
  unfolding registers
  after_queues-QueuesExist closed q r = elim (queues-Grows.fresh (queue q) r) [
    | inl p ↦
        let (c, e) = is_some-eq (get_queue q after_exchanges.registry) p in
        known_queue-restored closed q c e
    | inr p ↦ p
  ]

  abbrev after_bindings : World B
  after_bindings =
      (for_each_logged (check_binding B) (list_bindings after_queues.registry) after_queues).1

  bindings-Grows : Grows after_queues after_bindings
  bindings-Grows =
      logged_Grows (check_binding B) (check_binding-AlwaysGrows B L)
        (list_bindings after_queues.registry) after_queues

  binding-restored :
      (q x k : String)
      → registers after_queues.registry (binding q x k) ≡ true
      → B.has after_queues.state (queue q) ≡ true
      → B.has after_queues.state (exchange x) ≡ true
      → B.has after_bindings.state (binding q x k) ≡ true
  unfolding registers get_binding list_bindings
  binding-restored q x k r hq hx =
      let (c, e, s) =
        is_binding-eq_some q x k
          (find key_of_binding (binding_key q x k) after_queues.registry.bindings) r in
      let (eq, ex, ek) = is_binding-names q x k c s in
      subst (λ i. B.has after_bindings.state i ≡ true) (rw (eq, ex, ek) refl)
        (loop-has (check_binding B) key_of_binding
          (λ d. binding d.queue_name d.exchange_name d.routing_key) (HasEnds B L A)
          (check_binding-AlwaysGrows B L)
          (λ d u v g h. (g.kept (queue d.queue_name) h.0, g.kept (exchange d.exchange_name) h.1))
          (check_binding-has B L A) (binding_key q x k) after_queues.registry.bindings c
          after_queues e (rw (eq, ex) (hq, hx)))

  perform_background_validation-phases : (perform_background_validation B w).1 ≡ after_bindings
  unfolding perform_background_validation validate_and_recreate_exchanges
      validate_and_recreate_queues validate_and_recreate_bindings gets ◌>>=◌
  perform_background_validation-phases =
      ap (λ r. r.1)
        (>>=-ok (validate_and_recreate_exchanges B)
            (λ _. validate_and_recreate_queues B >> validate_and_recreate_bindings B) w tt
            (logged-ok (check_exchange B) (list_exchanges w.registry) w)
          ∙ >>=-ok (validate_and_recreate_queues B) (λ _. validate_and_recreate_bindings B)
              after_exchanges tt
              (logged-ok (check_queue B) (list_queues after_exchanges.registry) after_exchanges))

  after_bindings-IsRestored : HasClosedDeadLetters w → IsRestored w after_bindings
  after_bindings-IsRestored closed =
      let xs = after_exchanges-ExchangesExist in
      let qs = after_queues-QueuesExist closed in
      record {
        exchanges =
            ExchangesExist-Grows after_queues after_bindings bindings-Grows
              (ExchangesExist-Grows after_exchanges after_queues queues-Grows xs);
        queues = QueuesExist-Grows after_queues after_bindings bindings-Grows qs;
        bindings = λ q x k r hq hx. elim (bindings-Grows.fresh (binding q x k) r) [
          | inl p ↦
              binding-restored q x k p
                (qs q (queues-Grows.known_queue q (exchanges-Grows.known_queue q hq)))
                (queues-Grows.kept (exchange x) (exchange-restored x hx))
          | inr p ↦ p
        ];
        grows = Grows-trans exchanges-Grows (Grows-trans queues-Grows bindings-Grows);
      }

-- On a broker that is up and takes what it is given, where the dead letters of each registered queue
-- go nowhere or to a registered exchange: after one background validation, whatever was missing,
-- every registered exchange and queue is on the broker, and every registered binding between an
-- exchange and a queue that were registered before is too. Nothing that was on the broker is lost,
-- and no name of an exchange or a queue is lost from the registry.
pub perform_background_validation-IsRestored :
    (B : Broker)
    → IsLawful B
    → IsAccepting B
    → (w : World B) → HasClosedDeadLetters w
    → IsRestored w (perform_background_validation B w).1
perform_background_validation-IsRestored B L A w closed =
    subst (λ v. IsRestored w v) (sym (perform_background_validation-phases B L A w))
      (after_bindings-IsRestored B L A w closed)
