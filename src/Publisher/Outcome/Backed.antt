-- ===== src/Publisher/Outcome/Backed.antt =====
-- What goroutines and signals say, against the message that they are about.
use mathlib.Core.Option.{some-injective}
use go_rabbitmq.Base.{
  ℕ, ◌≡◌, ◌⊎◌, inl, inr, sym, ap, subst, ◌∙◌, Bool, true, false, some, List, ◌++◌, ◌==◌, ==_iff,
  get_elem?, set, get_elem?-set_self, get_elem?-set_ne, get_elem?-append, All, All-map, Bool-cases,
  arith,
}
use go_rabbitmq.Message.{DeliveryOutcome, nacked}
use go_rabbitmq.Publisher.State.{
  ErrorText, nacked_after_retries, PendingMessage, Task, finish_async, retry_message, Signal,
  called, send_error, republished,
}

abbrev pub is_after_retries : ErrorText → Bool
is_after_retries (nacked_after_retries n) = true
is_after_retries _ = false

-- A goroutine reports the message's own outcome to the message's own callback; one that retries is for a nack.
abbrev pub IsBacked : Task → PendingMessage → Type 0
IsBacked (finish_async id key callback outcome error) m =
    (m.callback_fired ≡ true)
    × (id ≡ m.message_id)
    × (callback ≡ m.callback)
    × (m.final_outcome ≡ some outcome)
    × (m.final_error ≡ error)
IsBacked retry_message m = (m.callback_fired ≡ true) × (m.final_outcome ≡ some nacked)

-- So does a callback, whose text is another if the retries were used up.
abbrev pub IsTrue : Signal → PendingMessage → Type 0
IsTrue (called callback id outcome error) m =
    (m.callback_fired ≡ true)
    × (id ≡ m.message_id)
    × (callback ≡ m.callback)
    × (m.final_outcome ≡ some outcome)
    × ((m.final_error ≡ error) ⊎ ((outcome ≡ nacked) × (is_after_retries error ≡ true)))
IsTrue send_error m = m.callback_fired ≡ true
IsTrue (republished original options n) m =
    (m.callback_fired ≡ true) × (m.final_outcome ≡ some nacked)

-- What a step may not change of a message.
pub record Keeps (m m' : PendingMessage) : Type 0 where
  pub message_id : m'.message_id ≡ m.message_id
  pub callback : m'.callback ≡ m.callback
  pub fired : m.callback_fired ≡ true → m'.callback_fired ≡ true
  pub outcome : m.callback_fired ≡ true → m'.final_outcome ≡ m.final_outcome
  pub error : m.callback_fired ≡ true → m'.final_error ≡ m.final_error

IsBacked-kept : (t : Task) (m m' : PendingMessage) → Keeps m m' → IsBacked t m → IsBacked t m'
IsBacked-kept (finish_async id key callback outcome error) m m' k b = (
  k.fired b.0,
  b.1 ∙ sym k.message_id,
  b.2 ∙ sym k.callback,
  k.outcome b.0 ∙ b.3,
  k.error b.0 ∙ b.4,
)
IsBacked-kept retry_message m m' k b = (k.fired b.0, k.outcome b.0 ∙ b.1)

text-kept :
    (m m' : PendingMessage) (outcome : DeliveryOutcome) (error : ErrorText)
    → m'.final_error ≡ m.final_error
    → (m.final_error ≡ error) ⊎ ((outcome ≡ nacked) × (is_after_retries error ≡ true))
    → (m'.final_error ≡ error) ⊎ ((outcome ≡ nacked) × (is_after_retries error ≡ true))
text-kept m m' outcome error k (inl e) = inl (k ∙ e)
text-kept m m' outcome error k (inr r) = inr r

IsTrue-kept : (x : Signal) (m m' : PendingMessage) → Keeps m m' → IsTrue x m → IsTrue x m'
IsTrue-kept (called callback id outcome error) m m' k b = (
  k.fired b.0,
  b.1 ∙ sym k.message_id,
  b.2 ∙ sym k.callback,
  k.outcome b.0 ∙ b.3,
  text-kept m m' outcome error (k.error b.0) b.4,
)
IsTrue-kept send_error m m' k b = k.fired b
IsTrue-kept (republished original options n) m m' k b = (k.fired b.0, k.outcome b.0 ∙ b.1)

-- There is a message at the address, and it has the property.
abbrev pub Holds : (PendingMessage → Type 0) → List PendingMessage → ℕ → Type 0
Holds P heap p = (m : PendingMessage) × (get_elem? heap p ≡ some m) × P m

Holds-set :
    (P : PendingMessage → Type 0) (heap : List PendingMessage) (p q : ℕ) (m m' : PendingMessage)
    → get_elem? heap p ≡ some m
    → (P m → P m')
    → Holds P heap q
    → Holds P (set heap p m') q
Holds-set P heap p q m m' e keep (n, at, b) = elim (Bool-cases (p == q)) [
  | inl same ↦
      let eq = (==_iff p q).0 same in
      let old = some-injective n m (sym at ∙ ap (get_elem? heap) (sym eq) ∙ e) in
      (
        m',
        ap (get_elem? (set heap p m')) (sym eq) ∙ get_elem?-set_self heap p m' e,
        keep (subst P old b),
      )
  | inr other ↦
      (n, get_elem?-set_ne heap p q m' (λ eq. ground (arith, other, (==_iff p q).1 eq)) ∙ at, b)
]

-- Every goroutine and every signal is backed by its message.
abbrev pub AllBacked : List PendingMessage → List (ℕ × Task) → List (ℕ × Signal) → Type 0
AllBacked heap tasks signals =
    All (λ x. Holds (IsBacked x.1) heap x.0) tasks × All (λ x. Holds (IsTrue x.1) heap x.0) signals

pub AllBacked-set :
    (heap : List PendingMessage) (tasks : List (ℕ × Task)) (signals : List (ℕ × Signal)) (p : ℕ)
    (m m' : PendingMessage)
    → get_elem? heap p ≡ some m
    → Keeps m m'
    → AllBacked heap tasks signals
    → AllBacked (set heap p m') tasks signals
AllBacked-set heap tasks signals p m m' e k (b, c) = (
  All-map (λ (x : ℕ × Task). Holds (IsBacked x.1) heap x.0)
      (λ x. Holds (IsBacked x.1) (set heap p m') x.0) tasks
      (λ x. Holds-set (IsBacked x.1) heap p x.0 m m' e (IsBacked-kept x.1 m m' k)) b,
  All-map (λ (x : ℕ × Signal). Holds (IsTrue x.1) heap x.0)
      (λ x. Holds (IsTrue x.1) (set heap p m') x.0) signals
      (λ x. Holds-set (IsTrue x.1) heap p x.0 m m' e (IsTrue-kept x.1 m m' k)) c,
)

pub AllBacked-append :
    (heap more : List PendingMessage) (tasks : List (ℕ × Task)) (signals : List (ℕ × Signal))
    → AllBacked heap tasks signals
    → AllBacked (heap ++ more) tasks signals
AllBacked-append heap more tasks signals (b, c) = (
  All-map (λ (x : ℕ × Task). Holds (IsBacked x.1) heap x.0)
      (λ x. Holds (IsBacked x.1) (heap ++ more) x.0) tasks
      (λ x (m, e, h). (m, get_elem?-append heap more x.0 m e, h)) b,
  All-map (λ (x : ℕ × Signal). Holds (IsTrue x.1) heap x.0)
      (λ x. Holds (IsTrue x.1) (heap ++ more) x.0) signals
      (λ x (m, e, h). (m, get_elem?-append heap more x.0 m e, h)) c,
)
