-- ===== src/Topology/Grows.antt =====
-- topology_validation.go, admin.go: how an action changes the broker and the registry.
pub mod Admin
pub mod Validator
use go_rabbitmq.Base.{
  ◌≡◌, refl, sym, subst, ◌⊎◌, inl, inr, String, Bool, true, false, Option, none, some, List, [],
  ◌∷◌, ◌&&◌, is_some, if◌then◌else◌, if_either, if_holds, if_fails, Bool-cases, arith,
}
use go_rabbitmq.Base.Eq.{String_eq}
use go_rabbitmq.Topology.Adds.{Adds}
use go_rabbitmq.Topology.Config.{QueueConfig}
use go_rabbitmq.Topology.Registry.{
  TopologyRegistry, find, put, find-put, exchange_name, queue_name, key_of_binding, binding_key,
  register_exchange, register_queue, register_binding, get_exchange, get_queue, get_binding,
}
use go_rabbitmq.Topology.Broker.{
  Item, exchange, queue, binding, Broker, World, Result, ok, err, Error, Action, Done, pure, fail,
  gets, ◌>>=◌, ◌>>◌, or_fail, on_channel, demand, track, for_each, for_each_logged, registers,
  is_binding,
}

-- Nothing goes from the broker, no name goes from the registry, and what is new in the registry is on
-- the broker.
pub record Grows {B : Broker} (w w' : World B) : Type 0 where
  pub kept : (i : Item) → B.has w.state i ≡ true → B.has w'.state i ≡ true
  pub fresh :
      (i : Item)
      → registers w'.registry i ≡ true
      → (registers w.registry i ≡ true) ⊎ (B.has w'.state i ≡ true)
  pub fresh_queue :
      (q : String) (c : QueueConfig)
      → get_queue q w'.registry ≡ some c
      → (get_queue q w.registry ≡ some c) ⊎ (B.has w'.state (queue q) ≡ true)
  pub known_exchange :
      (x : String)
      → registers w.registry (exchange x) ≡ true
      → registers w'.registry (exchange x) ≡ true
  pub known_queue :
      (q : String) → registers w.registry (queue q) ≡ true → registers w'.registry (queue q) ≡ true

-- It is a record of its own, so that an action is read off from its proof's type.
pub record AlwaysGrows {ℓ} (B : Broker) {A : Type ℓ} (m : Action B A) : Type ℓ where
  pub grows : (w : World B) → Grows w (m w).1

module _ {B : Broker} where
  pub Grows-refl : (w : World B) → Grows w w
  Grows-refl w = record {
    kept = λ i h. h;
    fresh = λ i h. inl h;
    fresh_queue = λ q c h. inl h;
    known_exchange = λ x h. h;
    known_queue = λ q h. h;
  }

  pub Grows-trans : {u v w : World B} → Grows u v → Grows v w → Grows u w
  Grows-trans g h = record {
    kept = λ i p. h.kept i (g.kept i p);
    fresh = λ i p. elim (h.fresh i p) [
      | inl q ↦ elim (g.fresh i q) [ inl r ↦ inl r | inr r ↦ inr (h.kept i r) ]
      | inr q ↦ inr q
    ];
    fresh_queue = λ q c p. elim (h.fresh_queue q c p) [
      | inl r ↦ elim (g.fresh_queue q c r) [ inl s ↦ inl s | inr s ↦ inr (h.kept (queue q) s) ]
      | inr r ↦ inr r
    ];
    known_exchange = λ x p. h.known_exchange x (g.known_exchange x p);
    known_queue = λ q p. h.known_queue q (g.known_queue q p);
  }

  bound_Grows {ℓ κ} :
      {A : Type ℓ} {C : Type κ} (w : World B) (f : A → Action B C) (p : Result A × World B)
      → Grows w p.1
      → ((a : A) → AlwaysGrows B (f a))
      → Grows w (((λ _. p) >>= f) w).1
  unfolding ◌>>=◌ fail
  bound_Grows w f (ok a, w') g h = Grows-trans g ((h a).grows w')
  bound_Grows w f (err e, w') g h = g

  pub >>=-AlwaysGrows {ℓ κ} :
      {A : Type ℓ} {C : Type κ} {m : Action B A} {f : A → Action B C}
      → AlwaysGrows B m
      → ((a : A) → AlwaysGrows B (f a))
      → AlwaysGrows B (m >>= f)
  unfolding ◌>>=◌
  >>=-AlwaysGrows {m = m} {f = f} g h = record { grows = λ w. bound_Grows w f (m w) (g.grows w) h }

  pub pure-AlwaysGrows {ℓ} : {A : Type ℓ} (a : A) → AlwaysGrows B (pure a)
  unfolding pure
  pure-AlwaysGrows a = record { grows = Grows-refl }

  pub fail-AlwaysGrows {ℓ} : {A : Type ℓ} (e : Error) → AlwaysGrows B {A = A} (fail e)
  unfolding fail
  fail-AlwaysGrows e = record { grows = Grows-refl }

  pub gets-AlwaysGrows {ℓ} : {A : Type ℓ} (f : World B → A) → AlwaysGrows B (gets f)
  unfolding gets
  gets-AlwaysGrows f = record { grows = Grows-refl }

  pub if-AlwaysGrows {ℓ} :
      {A : Type ℓ} (b : Bool) {m k : Action B A}
      → AlwaysGrows B m
      → AlwaysGrows B k
      → AlwaysGrows B (if b then m else k)
  if-AlwaysGrows b {m = m} {k = k} g h = if_either (AlwaysGrows B) b m k g h

  pub for_each-AlwaysGrows {ℓ} :
      {A : Type ℓ} {f : A → Action B Done}
      → ((a : A) → AlwaysGrows B (f a))
      → (xs : List A) → AlwaysGrows B (for_each f xs)
  unfolding for_each
  for_each-AlwaysGrows g [] = pure-AlwaysGrows tt
  for_each-AlwaysGrows g (a ∷ xs) = >>=-AlwaysGrows (g a) (λ _. for_each-AlwaysGrows g xs)

  pub logged_Grows {ℓ} :
      {A : Type ℓ} (f : A → Action B Done)
      → ((a : A) → AlwaysGrows B (f a))
      → (xs : List A) (w : World B) → Grows w (for_each_logged f xs w).1
  unfolding for_each_logged
  logged_Grows f g [] w = Grows-refl w
  logged_Grows f g (a ∷ xs) w = Grows-trans ((g a).grows w) (logged_Grows f g xs (f a w).1)

  pub for_each_logged-AlwaysGrows {ℓ} :
      {A : Type ℓ} {f : A → Action B Done}
      → ((a : A) → AlwaysGrows B (f a))
      → (xs : List A) → AlwaysGrows B (for_each_logged f xs)
  for_each_logged-AlwaysGrows {f = f} g xs = record { grows = logged_Grows f g xs }

  -- A new state of the broker that keeps what it had.
  pub state-Grows :
      (w : World B) (s : B.State)
      → ((i : Item) → B.has w.state i ≡ true → B.has s i ≡ true)
      → Grows w (record w { state = s })
  state-Grows w s h = record {
    kept = h;
    fresh = λ i p. inl p;
    fresh_queue = λ q c p. inl p;
    known_exchange = λ x p. p;
    known_queue = λ q p. p;
  }

  pub on_channel-AlwaysGrows {ℓ} :
      {A : Type ℓ} (f : B.State → A × B.State)
      → ((s : B.State) (i : Item) → B.has s i ≡ true → B.has (f s).1 i ≡ true)
      → AlwaysGrows B (on_channel f)
  unfolding on_channel
  on_channel-AlwaysGrows f h = record {
    grows = λ w.
        if_either (λ (p : Result _ × World B). Grows w p.1) (B.has_channel w.state) _ _
          (state-Grows w (f w.state).1 (h w.state)) (Grows-refl w);
  }

  pub track-Grows :
      (f : TopologyRegistry → TopologyRegistry) (i : Item) (w : World B)
      → Adds f i
      → B.has w.state i ≡ true
      → Grows w (track f w).1
  unfolding track
  track-Grows f i w a h =
      if_either (λ v. Grows w v) w.tracked _ w
        (record {
          kept = λ j p. p;
          fresh = λ j p. elim (a.added w.registry j p) [
            | inl q ↦ inl q
            | inr e ↦ inr (subst (λ k. B.has w.state k ≡ true) (sym e) h)
          ];
          fresh_queue = λ q c p. elim (a.added_queue w.registry q c p) [
            | inl r ↦ inl r
            | inr e ↦ inr (subst (λ k. B.has w.state k ≡ true) (sym e) h)
          ];
          known_exchange = a.exchange_stays w.registry;
          known_queue = a.queue_stays w.registry;
        })
        (Grows-refl w)
