-- ===== src/Saga/Sending.antt =====
-- saga/saga.go: which messages of a compensation are published, on a broker that may refuse any.
use go_rabbitmq.Base.{
  ◌≡◌, ◌⊎◌, refl, sym, ap, subst, ◌∙◌, false, All, Bool, true, List, [], ◌∷◌, ◌++◌, if◌then◌else◌,
  Bool-cases, inl, inr,
}
use go_rabbitmq.Base.Eq.{String_eq}
use go_rabbitmq.Saga.State.{Step, Saga, is_completed}
use go_rabbitmq.Saga.Manager.{
  StepMessage, Manager, SagaError, publish_error, Result, ok, err, and_then, message_of,
  publish_compensation, publish_compensations,
}

abbrev pub takes_all : StepMessage → Bool
takes_all m = true

-- The messages for the steps that were completed, in the steps' order.
abbrev pub undone_steps : Saga → List Step → List StepMessage
undone_steps g [] = []
undone_steps g (p ∷ ps) =
    let rest = undone_steps g ps in if is_completed p.status then message_of g p ∷ rest else rest

-- Of the messages `todo`, those in `sent` were published, from the end on; the broker refused the next
-- one, which is the error, or there was none left. Queues have the newest message first.
pub record AreSent (sends : StepMessage → Bool) (todo sent : List StepMessage) (r : Result)
    : Type 0 where
  pub waiting : List StepMessage
  pub split : todo ≡ waiting ++ sent
  pub taken : All (λ m. sends m ≡ true) sent
  pub ended :
      ((waiting ≡ []) × (r ≡ ok))
      ⊎ ((before : List StepMessage) × (m : StepMessage) × (waiting ≡ before ++ m ∷ [])
          × (sends m ≡ false)
          × (r ≡ err publish_error))

module _ (sends : StepMessage → Bool) where
  AreSent-none : AreSent sends [] [] ok
  AreSent-none = record { waiting = []; split = refl; taken = tt; ended = inl (refl, refl) }

  -- One more message to send, after those before it, by how they ended.
  AreSent-stopped :
      (m : StepMessage) (todo sent : List StepMessage) (e : SagaError)
      → AreSent sends todo sent (err e)
      → AreSent sends (m ∷ todo) sent (err e)
  AreSent-stopped m todo sent e a = record {
    waiting = m ∷ a.waiting;
    split = ap (λ ms. m ∷ ms) a.split;
    taken = a.taken;
    ended = elim a.ended [
      | inl (none_left, same) ↦ cc
      | inr (before, refused, h, rejected, same) ↦
          inr (m ∷ before, refused, ap (λ ms. m ∷ ms) h, rejected, same)
    ];
  }

  all_sent : (todo sent : List StepMessage) → AreSent sends todo sent ok → todo ≡ sent
  all_sent todo sent a = elim a.ended [
    | inl (none_left, same) ↦ a.split ∙ ap (λ ms. ms ++ sent) none_left
    | inr (before, refused, h, rejected, same) ↦ cc
  ]

  AreSent-taken :
      (m : StepMessage) (todo sent : List StepMessage)
      → AreSent sends todo sent ok
      → sends m ≡ true
      → AreSent sends (m ∷ todo) (m ∷ sent) ok
  AreSent-taken m todo sent a accepted = record {
    waiting = [];
    split = ap (λ ms. m ∷ ms) (all_sent todo sent a);
    taken = (accepted, a.taken);
    ended = inl (refl, refl);
  }

  AreSent-refused :
      (m : StepMessage) (todo sent : List StepMessage)
      → AreSent sends todo sent ok
      → sends m ≡ false
      → AreSent sends (m ∷ todo) sent (err publish_error)
  AreSent-refused m todo sent a rejected = record {
    waiting = m ∷ [];
    split = ap (λ ms. m ∷ ms) (all_sent todo sent a);
    taken = a.taken;
    ended = inr ([], m, refl, rejected, refl);
  }

  -- The manager and the result after some of the messages `todo` were sent.
  abbrev pub Sends : List StepMessage → Manager → Manager × Result → Type 0
  Sends todo s p =
      (sent : List StepMessage) × (r : Result) × (p
        ≡ (record s { compensation_queue = sent ++ s.compensation_queue }, r))
      × AreSent sends todo sent r

  publish_one :
      (g : Saga) (p : Step) (s : Manager) (todo sent : List StepMessage)
      → AreSent sends todo sent ok
      → let m = message_of g p in
        Sends (if is_completed p.status then m ∷ todo else todo) s (
          let s' = record s { compensation_queue = sent ++ s.compensation_queue } in
          if is_completed p.status then publish_compensation sends g p s' else (s', ok))
  unfolding publish_compensation
  publish_one g p s todo sent a = elim (Bool-cases (is_completed p.status)) [
    | inl done ↦ rw done (elim (Bool-cases (sends (message_of g p))) [
      | inl accepted ↦
          rw accepted
            (message_of g p ∷ sent, ok, refl, AreSent-taken (message_of g p) todo sent a accepted)
      | inr rejected ↦
          rw rejected
            (sent, err publish_error, refl, AreSent-refused (message_of g p) todo sent a rejected)
    ])
    | inr other ↦ rw other (sent, ok, refl, a)
  ]

  AreSent-longer :
      (m : StepMessage) (b : Bool) (todo sent : List StepMessage) (e : SagaError)
      → AreSent sends todo sent (err e)
      → AreSent sends (if b then m ∷ todo else todo) sent (err e)
  AreSent-longer m true todo sent e a = AreSent-stopped m todo sent e a
  AreSent-longer m false todo sent e a = a

  then_one :
      (g : Saga) (p : Step) (s : Manager) (todo sent : List StepMessage) (r : Result)
      → AreSent sends todo sent r
      → Sends (if is_completed p.status then message_of g p ∷ todo else todo) s (
          and_then
            (record s { compensation_queue = sent ++ s.compensation_queue }, r)
            (λ s'. if is_completed p.status then publish_compensation sends g p s' else (s', ok)))
  then_one g p s todo sent ok a = publish_one g p s todo sent a
  then_one g p s todo sent (err e) a =
      (sent, err e, refl, AreSent-longer (message_of g p) (is_completed p.status) todo sent e a)

  pub publish_compensations-Sends :
      (g : Saga) (ps : List Step) (s : Manager)
      → Sends (undone_steps g ps) s (publish_compensations sends g ps s)
  unfolding publish_compensations
  publish_compensations-Sends g [] s = ([], ok, refl, AreSent-none)
  publish_compensations-Sends g (p ∷ ps) s =
      let (sent, r, same, a) = publish_compensations-Sends g ps s in
      subst
        (λ q. Sends (undone_steps g (p ∷ ps)) s (
          and_then q
            (λ s'. if is_completed p.status then publish_compensation sends g p s' else (s', ok))))
        (sym same) (then_one g p s (undone_steps g ps) sent r a)
