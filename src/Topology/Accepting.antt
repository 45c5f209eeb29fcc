-- ===== src/Topology/Accepting.antt =====
-- topology_validation.go on a broker that is up and takes what it is given: what each step leaves there.
use go_rabbitmq.Topology.Loops.{>>=-ok, has->>=, declared-has, demanded-has, Leaves}
use go_rabbitmq.Base.{
  ◌≡◌, refl, ap, sym, subst, ◌∙◌, ◌⊎◌, inl, inr, String, true, false, List, is_some, Bool-cases,
  if_either,
}
use go_rabbitmq.Base.Eq.{String_eq}
use go_rabbitmq.Topology.Config.{QueueConfig, ExchangeConfig, BindingConfig, is_named, QueueType}
use go_rabbitmq.Topology.Options.{QueueSettings, QueueOption, ExchangeOption, BindingOption}
use go_rabbitmq.Topology.Broker.{
  Item, exchange, queue, binding, Queue, Broker, IsLawful, IsAccepting, World, Result, ok, Action,
  Done, pure, ◌>>=◌, on_channel,
}
use go_rabbitmq.Topology.Admin.{
  declare_as, declare_queue_legacy, declare_quorum_queue_legacy, declare_quorum_queue_from_config,
  declare_queue, declare_exchange, exchange_exists, queue_exists, bind_queue,
}
use go_rabbitmq.Topology.Validator.{
  restore_binding, recreate_exchange, recreate_queue, ensure_exchange_exists, check_exchange,
  restore_queue, check_queue, check_binding,
}
use go_rabbitmq.Topology.Grows.{Grows}
use go_rabbitmq.Topology.Grows.Validator.{
  recreate_exchange_bindings-AlwaysGrows, recreate_queue_bindings-AlwaysGrows,
  check_exchange-AlwaysGrows, check_queue-AlwaysGrows, ensure_exchange_exists-AlwaysGrows,
}
use go_rabbitmq.Topology.Grows.Admin.{queue_exists-AlwaysGrows}

module _ (B : Broker) (L : IsLawful B) (A : IsAccepting B) where
  pub on_channel-eq {ℓ} :
      {C : Type ℓ} (f : B.State → C × B.State) (w : World B)
      → on_channel f w ≡ (ok (f w.state).0, record w { state = (f w.state).1 })
  unfolding on_channel
  on_channel-eq f w = rw (A.channel w.state) refl

  exchange_exists-answer :
      (x : String) (w : World B) → (exchange_exists B x w).0 ≡ ok (B.has w.state (exchange x))
  unfolding exchange_exists
  exchange_exists-answer x w = rw (on_channel-eq, L.passive_exchange) refl

  queue_exists-answer :
      (q : String) (w : World B) → (queue_exists B q w).0 ≡ ok (B.has w.state (queue q))
  unfolding queue_exists ◌>>=◌ pure
  queue_exists-answer q w =
      ap (λ p. p.0)
        (>>=-ok (on_channel (B.queue_declare_passive q)) (λ o. pure (is_some o)) w _
          (ap (λ p. p.0) (on_channel-eq (B.queue_declare_passive q) w)))
      ∙ ap ok (L.passive_queue q w.state)

  opened-has {ℓ κ} :
      {C : Type ℓ} {D : Type κ} (f : B.State → C × B.State) (k : C → Action B D) (i : Item)
      (w : World B)
      → B.has (f w.state).1 i ≡ true
      → ((c : C) (v : World B) → B.has v.state i ≡ true → B.has (k c v).1.state i ≡ true)
      → B.has ((on_channel f >>= k) w).1.state i ≡ true
  unfolding ◌>>=◌
  opened-has {C = C} f k i w h g =
      subst (λ (p : Result C × World B). B.has (((λ _. p) >>= k) w).1.state i ≡ true)
        (sym (on_channel-eq f w)) (g (f w.state).0 (record w { state = (f w.state).1 }) h)

  -- Declarations succeed and leave the item.
  declare_as-Leaves :
      (t : QueueType) (name : String) (c : QueueSettings)
      → Leaves B (declare_as B t name c) (queue name)
  unfolding declare_as
  declare_as-Leaves t name c = record {
    leaves = λ w.
        opened-has (B.queue_declare _) _ (queue name) w
          (L.declared_queue _ w.state (A.declares_queue _ w.state))
          (λ o v. declared-has _ (queue name) o v);
  }

  declare_queue-Leaves :
      (name : String) (opts : List QueueOption) → Leaves B (declare_queue B name opts) (queue name)
  unfolding declare_queue declare_queue_legacy declare_quorum_queue_from_config
      declare_quorum_queue_legacy
  declare_queue-Leaves name opts =
      if_either (λ (m : Action B Queue). Leaves B m (queue name)) _ _ _ (declare_as-Leaves _ name _)
        (declare_as-Leaves _ name _)

  declare_exchange-has :
      (name kind : String) (opts : List ExchangeOption) (w : World B)
      → B.has (declare_exchange B name kind opts w).1.state (exchange name) ≡ true
  unfolding declare_exchange
  declare_exchange-has name kind opts w =
      opened-has (B.exchange_declare _) _ (exchange name) w
        (L.declared_exchange _ w.state (A.declares_exchange _ w.state))
        (λ b v. demanded-has _ (exchange name) b v)

  bind_queue-has :
      (q x k : String) (opts : List BindingOption) (w : World B)
      → B.has w.state (queue q) ≡ true
      → B.has w.state (exchange x) ≡ true
      → B.has (bind_queue B q x k opts w).1.state (binding q x k) ≡ true
  unfolding bind_queue
  bind_queue-has q x k opts w hq hx =
      opened-has (B.queue_bind _) _ (binding q x k) w (L.bound _ w.state (A.binds _ w.state hq hx))
        (λ b v. demanded-has _ (binding q x k) b v)

  recreate_exchange-has :
      (c : ExchangeConfig) (w : World B)
      → B.has (recreate_exchange B c w).1.state (exchange c.name) ≡ true
  unfolding recreate_exchange
  recreate_exchange-has c w =
      has->>= _ _ (exchange c.name) w (declare_exchange-has c.name c.kind _ w)
        (λ _. recreate_exchange_bindings-AlwaysGrows B L c.name)

  recreate_queue-has :
      (c : QueueConfig) (w : World B) → B.has (recreate_queue B c w).1.state (queue c.name) ≡ true
  unfolding recreate_queue
  recreate_queue-has c w =
      has->>= _ _ (queue c.name) w ((declare_queue-Leaves c.name _).leaves w)
        (λ _. recreate_queue_bindings-AlwaysGrows B L c.name)

  -- An exchange that is there, or the default one, is ensured.
  ensure_exchange_exists-ok :
      (x : String) (w : World B)
      → (x ≡ "") ⊎ (B.has w.state (exchange x) ≡ true)
      → (ensure_exchange_exists B x w).0 ≡ ok tt
  unfolding ensure_exchange_exists pure
  ensure_exchange_exists-ok x w (inl e) = rw e refl
  ensure_exchange_exists-ok x w (inr p) =
      if_either (λ (m : Action B Done). (m w).0 ≡ ok tt) (is_named x) _ _
        (ap (λ r. r.0)
          (>>=-ok (exchange_exists B x) _ w true (exchange_exists-answer x w ∙ ap ok p)))
        refl

  pub check_exchange-has :
      (c : ExchangeConfig) (w : World B)
      → B.has (check_exchange B c w).1.state (exchange c.name) ≡ true
  unfolding check_exchange
  check_exchange-has c w = elim (Bool-cases (B.has w.state (exchange c.name))) [
    | inl h ↦ ((check_exchange-AlwaysGrows B L c).grows w).kept (exchange c.name) h
    | inr h ↦
        subst (λ (r : Result Done × World B). B.has r.1.state (exchange c.name) ≡ true)
          (sym (
            >>=-ok (exchange_exists B c.name) _ w false
              (exchange_exists-answer c.name w ∙ ap ok h)))
          (recreate_exchange-has c _)
  ]

  -- What the recreation of a queue needs: its dead letters have an exchange.
  abbrev pub HasDeadLetters : QueueConfig → World B → Type 0
  HasDeadLetters c w =
      (c.dead_letter_exchange ≡ "") ⊎ (B.has w.state (exchange c.dead_letter_exchange) ≡ true)

  pub HasDeadLetters-Grows :
      (c : QueueConfig) (v w : World B) → Grows v w → HasDeadLetters c v → HasDeadLetters c w
  HasDeadLetters-Grows c v w g (inl e) = inl e
  HasDeadLetters-Grows c v w g (inr h) = inr (g.kept (exchange c.dead_letter_exchange) h)

  pub check_queue-has :
      (c : QueueConfig) (w : World B)
      → HasDeadLetters c w
      → B.has (check_queue B c w).1.state (queue c.name) ≡ true
  unfolding check_queue restore_queue
  check_queue-has c w p = elim (Bool-cases (B.has w.state (queue c.name))) [
    | inl h ↦ ((check_queue-AlwaysGrows B L c).grows w).kept (queue c.name) h
    | inr h ↦
        let v = (queue_exists B c.name w).1 in
        subst (λ (r : Result Done × World B). B.has r.1.state (queue c.name) ≡ true)
          (sym (
            >>=-ok (queue_exists B c.name) _ w false (queue_exists-answer c.name w ∙ ap ok h)
            ∙ >>=-ok (ensure_exchange_exists B c.dead_letter_exchange) _ v tt (
                ensure_exchange_exists-ok c.dead_letter_exchange v
                  (HasDeadLetters-Grows c w v ((queue_exists-AlwaysGrows B L c.name).grows w) p))))
          (recreate_queue-has c _)
  ]

  abbrev pub HasEnds : BindingConfig → World B → Type 0
  HasEnds c w =
      (B.has w.state (queue c.queue_name) ≡ true)
      × (B.has w.state (exchange c.exchange_name) ≡ true)

  pub check_binding-has :
      (c : BindingConfig) (w : World B)
      → HasEnds c w
      → B.has (check_binding B c w).1.state (binding c.queue_name c.exchange_name c.routing_key)
        ≡ true
  unfolding check_binding restore_binding
  check_binding-has c w (hq, hx) =
      let v = (ensure_exchange_exists B c.exchange_name w).1 in
      let g = (ensure_exchange_exists-AlwaysGrows B L c.exchange_name).grows w in
      let h = (queue_exists-AlwaysGrows B L c.queue_name).grows v in
      let i = binding c.queue_name c.exchange_name c.routing_key in
      subst (λ (r : Result Done × World B). B.has r.1.state i ≡ true)
        (sym (
          >>=-ok (ensure_exchange_exists B c.exchange_name) _ w tt
            (ensure_exchange_exists-ok c.exchange_name w (inr hx))
          ∙ >>=-ok (queue_exists B c.queue_name) _ v true
              (queue_exists-answer c.queue_name v ∙ ap ok (g.kept (queue c.queue_name) hq))))
        (bind_queue-has c.queue_name c.exchange_name c.routing_key _ _
          (h.kept (queue c.queue_name) (g.kept (queue c.queue_name) hq))
          (h.kept (exchange c.exchange_name) (g.kept (exchange c.exchange_name) hx)))
