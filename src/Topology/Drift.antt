-- ===== src/Topology/Drift.antt =====
-- topology_validation.go: where the registry and the broker part.
use go_rabbitmq.Topology.Quiet.{
  forgotten, All-kept, gets-IsQuiet, queue_exists-IsQuiet, ensure_exchange_exists-IsQuiet,
  for_each-IsQuiet, inspect_queue-IsQuiet, IsQuiet,
}
use go_rabbitmq.Topology.Settings.{TopologyValidator}
use go_rabbitmq.Topology.Literals.{queue_info}
use go_rabbitmq.Base.{
  ◌≡◌, refl, ap, sym, subst, ◌∙◌, String, true, false, some, if_fails, if_holds, All, arith,
}
use go_rabbitmq.Base.Eq.{String_eq}
use go_rabbitmq.Base.Dict.{lookup}
use go_rabbitmq.Topology.Config.{QueueConfig, is_named}
use go_rabbitmq.Topology.Registry.{
  find-put, key-find, queue_name, register_queue, get_queue, list_bindings,
}
use go_rabbitmq.Topology.Broker.{
  exchange, queue, Queue, Broker, IsLawful, IsAccepting, World, Result, ok, Action, Done, gets,
  ◌>>=◌, track,
}
use go_rabbitmq.Topology.Admin.{queue_exists}
use go_rabbitmq.Topology.Validator.{
  sync_registry, validate_known_queue, validate_queue, sync_with, same_dead_letters, synced,
}

module _ (B : Broker) (L : IsLawful B) (A : IsAccepting B) where
  differs :
      (c : QueueConfig) (d : Queue)
      → is_named c.dead_letter_exchange ≡ true
      → same_dead_letters (synced (queue_info d) c) c ≡ false
  unfolding lookup
  differs c d h = ground (
    arith,
    String_eq.beq_iff "" c.dead_letter_exchange,
    String_eq.beq_iff c.dead_letter_exchange "",
  )

  -- What the validation of a queue comes to: no error, and this entry in the registry.
  abbrev Forgets : QueueConfig → World B → Result Done × World B → Type 0
  Forgets c w p = (p.0 ≡ ok tt) × (p.1.registry ≡ register_queue (forgotten c) w.registry)

  sync_with-Forgets :
      (c : QueueConfig) (w : World B) (d : Queue)
      → w.tracked ≡ true
      → is_named c.dead_letter_exchange ≡ true
      → Forgets c w (sync_with B c (ok (queue_info d), w))
  unfolding sync_with track lookup
  sync_with-Forgets c w d t n =
      if_fails (Forgets c w) (same_dead_letters (synced (queue_info d) c) c) _ _ (differs c d n) (
        refl,
        if_holds (λ (v : World B). v.registry ≡ register_queue (forgotten c) w.registry) w.tracked _
            w t refl,
      )

  sync_registry-Forgets :
      (c : QueueConfig) (w : World B)
      → w.tracked ≡ true
      → B.has w.state (queue c.name) ≡ true
      → is_named c.dead_letter_exchange ≡ true
      → Forgets c w (sync_registry B c w)
  unfolding sync_registry
  sync_registry-Forgets c w t h n =
      let (d, q) = inspect_queue-IsQuiet B L A c.name w h in
      subst (λ p. Forgets c w (sync_with B c p)) (sym q.same)
        (sync_with-Forgets c (record w { state = q.state }) d t n)

  -- A quiet action and then one that forgets.
  >>=-Forgets {ℓ} :
      {D : Type ℓ} {m : Action B D} (f : D → Action B Done) (c : QueueConfig) (w : World B) {d : D}
      → (q : IsQuiet B m w d) → Forgets c w (f d (record w { state = q.state }))
      → Forgets c w ((m >>= f) w)
  unfolding ◌>>=◌
  >>=-Forgets f c w q h = subst (λ p. Forgets c w (((λ _. p) >>= f) w)) (sym q.same) h

  validate_known_queue-Forgets :
      (v : TopologyValidator) (c : QueueConfig) (w : World B)
      → w.tracked ≡ true
      → is_named c.dead_letter_exchange ≡ true
      → B.has w.state (queue c.name) ≡ true
      → B.has w.state (exchange c.dead_letter_exchange) ≡ true
      → All (λ b. B.has w.state (exchange b.exchange_name) ≡ true) w.registry.bindings
      → Forgets c w (validate_known_queue B v (some c) w)
  unfolding validate_known_queue list_bindings
  validate_known_queue-Forgets v c w t n hq hx hb =
      let q1 = ensure_exchange_exists-IsQuiet B L A c.dead_letter_exchange w hx in
      let w1 = record w { state = q1.state } in
      let q2 = gets-IsQuiet (λ (u : World B). list_bindings u.registry) w1 in
      let w2 = record w { state = q2.state } in
      let q3 =
        for_each-IsQuiet B L A c.name w.registry.bindings w2
          (All-kept w w2 _ (λ i h. q2.kept i (q1.kept i h)) hb) in
      let w3 = record w { state = q3.state } in
      let hq3 = q3.kept (queue c.name) (q2.kept (queue c.name) (q1.kept (queue c.name) hq)) in
      let q4 =
        subst (λ b. IsQuiet B (queue_exists B c.name) w3 b) hq3
          (queue_exists-IsQuiet B L A c.name w3) in
      >>=-Forgets _ c w q1 (
        >>=-Forgets _ c w1 q2 (
          >>=-Forgets _ c w2 q3 (
            >>=-Forgets _ c w3 q4 (
              sync_registry-Forgets c (record w { state = q4.state }) t (q4.kept (queue c.name) hq3)
                n))))

  validate_queue-Forgets :
      (v : TopologyValidator) (q : String) (c : QueueConfig) (w : World B)
      → v.enabled ≡ true
      → w.tracked ≡ true
      → get_queue q w.registry ≡ some c
      → is_named c.dead_letter_exchange ≡ true
      → B.has w.state (queue c.name) ≡ true
      → B.has w.state (exchange c.dead_letter_exchange) ≡ true
      → All (λ b. B.has w.state (exchange b.exchange_name) ≡ true) w.registry.bindings
      → Forgets c w (validate_queue B v q w)
  unfolding validate_queue
  validate_queue-Forgets v q c w on t e n hq hx hb =
      let g =
        subst (λ o. IsQuiet B (gets (λ (u : World B). get_queue q u.registry)) w o) e
          (gets-IsQuiet (λ (u : World B). get_queue q u.registry) w) in
      let w1 = record w { state = g.state } in
      if_holds (λ (m : Action B Done). Forgets c w (m w)) v.enabled _ _ on
        (>>=-Forgets _ c w g (
          validate_known_queue-Forgets v c w1 t n (g.kept (queue c.name) hq)
            (g.kept (exchange c.dead_letter_exchange) hx) (All-kept w w1 _ g.kept hb)))

-- Validating a registered queue with a dead-letter exchange that is on the broker as it should be, as
-- its exchanges are, with validation enabled: there is no error, and the registry forgets the
-- queue's dead letters and its arguments, since an inspection answers no arguments.
pub validate_queue-forgets :
    (B : Broker)
    → IsLawful B
    → IsAccepting B
    → (v : TopologyValidator) (q : String) (c : QueueConfig) (w : World B) → v.enabled ≡ true
    → w.tracked ≡ true
    → get_queue q w.registry ≡ some c
    → is_named c.dead_letter_exchange ≡ true
    → B.has w.state (queue q) ≡ true
    → B.has w.state (exchange c.dead_letter_exchange) ≡ true
    → All (λ b. B.has w.state (exchange b.exchange_name) ≡ true) w.registry.bindings
    → let (r, w') = validate_queue B v q w in
      (r ≡ ok tt) × (get_queue q w'.registry ≡ some (forgotten c))
unfolding get_queue register_queue
validate_queue-forgets B L A v q c w on t e n hq hx hb =
    let name = key-find queue_name q w.registry.queues e in
    let hn = subst (λ y. B.has w.state (queue y) ≡ true) (sym name) hq in
    let (none_wrong, entry) = validate_queue-Forgets B L A v q c w on t e n hn hx hb in
    (
      none_wrong,
      ap (get_queue q) entry
          ∙ find-put queue_name q (forgotten c) w.registry.queues
          ∙ if_holds (λ o. o ≡ some (forgotten c)) (String_eq.beq c.name q) _ _
              ((String_eq.beq_iff c.name q).1 name) refl,
    )
