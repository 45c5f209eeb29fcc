-- ===== src/Topology/Quiet.antt =====
-- topology_validation.go: actions that change neither the registry nor what stands on the broker.
use go_rabbitmq.Topology.Literals.{queue_info}
use go_rabbitmq.Topology.Exist.{is_some-eq}
use go_rabbitmq.Base.{◌≡◌, refl, ap, subst, ◌∙◌, String, true, some, List, [], ◌∷◌, if_either, All}
use go_rabbitmq.Base.Eq.{String_eq}
use go_rabbitmq.Topology.Config.{QueueConfig, BindingConfig, is_named}
use go_rabbitmq.Topology.Broker.{
  Item, exchange, queue, Queue, Broker, IsLawful, IsAccepting, World, ok, Action, Done, pure, gets,
  ◌>>=◌, or_fail, on_channel, for_each,
}
use go_rabbitmq.Topology.Accepting.{on_channel-eq}
use go_rabbitmq.Topology.Admin.{exchange_exists, queue_exists, inspect_queue}
use go_rabbitmq.Topology.Validator.{ensure_exchange_exists, ensure_if_bound}

-- What remains of a queue in the registry after an inspection.
abbrev pub forgotten : QueueConfig → QueueConfig
forgotten c = record c {
  dead_letter_exchange = "";
  dead_letter_routing_key = "";
  arguments = some [];
}

-- The action returns no error, and changes only the broker, where it takes nothing away.
pub record IsQuiet {ℓ} (B : Broker) {C : Type ℓ} (m : Action B C) (w : World B) (c : C)
    : Type ℓ where
  pub state : B.State
  pub same : m w ≡ (ok c, record w { state = state })
  pub kept : (i : Item) → B.has w.state i ≡ true → B.has state i ≡ true

pub All-kept :
    {B : Broker} (v w : World B) (bs : List BindingConfig)
    → ((i : Item) → B.has v.state i ≡ true → B.has w.state i ≡ true)
    → All (λ c. B.has v.state (exchange c.exchange_name) ≡ true) bs
    → All (λ c. B.has w.state (exchange c.exchange_name) ≡ true) bs
All-kept v w [] k h = tt
All-kept v w (b ∷ bs) k (h, hs) = (k (exchange b.exchange_name) h, All-kept v w bs k hs)

module _ {B : Broker} where
  pure-IsQuiet {ℓ} : {C : Type ℓ} (c : C) (w : World B) → IsQuiet B (pure c) w c
  unfolding pure
  pure-IsQuiet c w = record { state = w.state; same = refl; kept = λ i h. h }

  pub gets-IsQuiet {ℓ} : {C : Type ℓ} (f : World B → C) (w : World B) → IsQuiet B (gets f) w (f w)
  unfolding gets
  gets-IsQuiet f w = record { state = w.state; same = refl; kept = λ i h. h }

  >>=-IsQuiet {ℓ κ} :
      {C : Type ℓ} {D : Type κ} {m : Action B C} (f : C → Action B D) {w : World B} {c : C} {d : D}
      → (q : IsQuiet B m w c) → IsQuiet B (f c) (record w { state = q.state }) d
      → IsQuiet B (m >>= f) w d
  unfolding ◌>>=◌
  >>=-IsQuiet {m = m} f {w = w} q r = record {
    state = r.state;
    same = ap (λ p. ((λ _. p) >>= f) w) q.same ∙ r.same;
    kept = λ i h. r.kept i (q.kept i h);
  }

module _ (B : Broker) (L : IsLawful B) (A : IsAccepting B) where
  exchange_exists-IsQuiet :
      (x : String) (w : World B) → IsQuiet B (exchange_exists B x) w (B.has w.state (exchange x))
  unfolding exchange_exists
  exchange_exists-IsQuiet x w = record {
    state = (B.exchange_declare_passive x w.state).1;
    same =
        on_channel-eq B L A (B.exchange_declare_passive x) w
        ∙ ap (λ b. (ok b, record w { state = (B.exchange_declare_passive x w.state).1 }))
            (L.passive_exchange x w.state);
    kept = L.exchange_declare_passive_keeps x w.state;
  }

  on_passive-IsQuiet :
      (q : String) (w : World B)
      → IsQuiet B (on_channel (B.queue_declare_passive q)) w (B.queue_declare_passive q w.state).0
  on_passive-IsQuiet q w = record {
    state = (B.queue_declare_passive q w.state).1;
    same = on_channel-eq B L A (B.queue_declare_passive q) w;
    kept = L.queue_declare_passive_keeps q w.state;
  }

  pub queue_exists-IsQuiet :
      (q : String) (w : World B) → IsQuiet B (queue_exists B q) w (B.has w.state (queue q))
  unfolding queue_exists
  queue_exists-IsQuiet q w =
      subst (λ b. IsQuiet B (queue_exists B q) w b) (L.passive_queue q w.state)
        (>>=-IsQuiet _ (on_passive-IsQuiet q w) (pure-IsQuiet _ _))

  pub ensure_exchange_exists-IsQuiet :
      (x : String) (w : World B)
      → B.has w.state (exchange x) ≡ true
      → IsQuiet B (ensure_exchange_exists B x) w tt
  unfolding ensure_exchange_exists
  ensure_exchange_exists-IsQuiet x w h =
      if_either (λ (m : Action B Done). IsQuiet B m w tt) (is_named x) _ _
        (>>=-IsQuiet _
          (subst (λ b. IsQuiet B (exchange_exists B x) w b) h (exchange_exists-IsQuiet x w))
          (pure-IsQuiet tt _))
        (pure-IsQuiet tt w)

  ensure_if_bound-IsQuiet :
      (name : String) (c : BindingConfig) (w : World B)
      → B.has w.state (exchange c.exchange_name) ≡ true
      → IsQuiet B (ensure_if_bound B name c) w tt
  unfolding ensure_if_bound
  ensure_if_bound-IsQuiet name c w h =
      if_either (λ (m : Action B Done). IsQuiet B m w tt) (String_eq.beq c.queue_name name) _ _
        (ensure_exchange_exists-IsQuiet c.exchange_name w h) (pure-IsQuiet tt w)

  pub for_each-IsQuiet :
      (name : String) (bs : List BindingConfig) (w : World B)
      → All (λ c. B.has w.state (exchange c.exchange_name) ≡ true) bs
      → IsQuiet B (for_each (ensure_if_bound B name) bs) w tt
  unfolding for_each
  for_each-IsQuiet name [] w h = pure-IsQuiet tt w
  for_each-IsQuiet name (b ∷ bs) w (h, hs) =
      let q = ensure_if_bound-IsQuiet name b w h in
      >>=-IsQuiet _ q (
        for_each-IsQuiet name bs (record w { state = q.state })
          (All-kept w (record w { state = q.state }) bs q.kept hs))

  -- An inspection of a queue that exists: it answers no argument.
  pub inspect_queue-IsQuiet :
      (q : String) (w : World B)
      → B.has w.state (queue q) ≡ true
      → (d : Queue) × IsQuiet B (inspect_queue B q) w (queue_info d)
  unfolding inspect_queue or_fail pure
  inspect_queue-IsQuiet q w h =
      let (d, e) =
        is_some-eq (B.queue_declare_passive q w.state).0 (L.passive_queue q w.state ∙ h) in
      (
        d,
        >>=-IsQuiet _
            (subst (λ o. IsQuiet B (on_channel (B.queue_declare_passive q)) w o) e
              (on_passive-IsQuiet q w))
            (>>=-IsQuiet _ (pure-IsQuiet d _) (pure-IsQuiet (queue_info d) _)),
      )
