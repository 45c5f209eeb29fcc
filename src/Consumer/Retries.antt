-- ===== src/Consumer/Retries.antt =====
-- consumer.go: how often a message whose handler keeps failing is retried.
use go_rabbitmq.Base.{
  ℕ, zero, suc, ◌+◌, ◌<◌, ◌≡◌, refl, ap, ◌∙◌, String, Bool, true, false, Option, none, some, List,
  [], ◌∷◌, arith, if◌then◌else◌, leb,
}
use go_rabbitmq.Base.Int.{ℤ, pos}
use go_rabbitmq.Base.Eq.{String_eq}
use go_rabbitmq.Base.Dict.{lookup, lookup-insert}
use go_rabbitmq.Message.{Message, int, int64, Table}
use go_rabbitmq.Consumer.Delivery.{
  Wire, ack, nack, publish, new_delivery, is_settled, ack_delivery, nack_delivery,
}
use go_rabbitmq.Consumer.Errors.{
  ConsumerConfig, other_error, get_retry_count, retry_message, retry, handle_plain_error, field,
  integer, entries, republish_with_retry, handle_processing_error,
}

-- Every operation on the broker succeeds.
abbrev pub reliable : Wire → Bool
reliable w = true

abbrev pub republished : List Wire → Option Message
republished [] = none
republished (publish e k m ∷ ws) = some m
republished (w ∷ ws) = republished ws

abbrev follow : (Message → List (List Wire)) → List Wire → List (List Wire)
follow later log = elim (republished log) [ none ↦ log ∷ [] | some m ↦ log ∷ later m ]

-- The operations over the life of a message on a classic queue whose handler always fails: what is
-- published comes back.
unfoldable pub classic_life : ℕ → ConsumerConfig → String → Message → List (List Wire)
classic_life zero c queue m = []
classic_life (suc fuel) c queue m =
    follow (classic_life fuel c queue)
      (handle_processing_error reliable c queue other_error (new_delivery m)).log

module _ (c : ConsumerConfig) (queue : String) where
  -- One failure, at its retry count.
  classic_again :
      (m : Message) (k j : ℕ)
      → c.auto_ack ≡ false
      → c.is_classic ≡ true
      → c.max_retries ≡ pos (k + suc j)
      → get_retry_count m.headers ≡ pos k
      → (handle_processing_error reliable c queue other_error (new_delivery m)).log
        ≡ ack ∷ publish "" queue (retry_message (pos (suc k)) m) ∷ []
  unfolding handle_processing_error handle_plain_error retry republish_with_retry ack_delivery
      nack_delivery is_settled new_delivery
  classic_again m k j manual classic bound count =
      rw manual (rw bound (rw count (rw classic (ground arith))))

  classic_over :
      (m : Message) (k : ℕ)
      → c.auto_ack ≡ false
      → c.max_retries ≡ pos (k + 0)
      → 0 < k + 0
      → get_retry_count m.headers ≡ pos k
      → (handle_processing_error reliable c queue other_error (new_delivery m)).log
        ≡ nack false ∷ []
  unfolding handle_processing_error handle_plain_error retry republish_with_retry ack_delivery
      nack_delivery is_settled new_delivery
  classic_over m k manual bound some_retries count = rw manual (rw bound (rw count (ground arith)))

-- The broker counts no deliveries on a classic queue.
abbrev pub Uncounted : Message → Type 0
Uncounted m = integer (field "x-delivery-count" m.headers) ≡ none

lookup-entries : (k : String) (t : Table) → lookup k (entries t) ≡ field k t
unfolding lookup
lookup-entries k none = refl
lookup-entries k (some t) = refl

Uncounted-retry_message : (n : ℤ) (m : Message) → Uncounted m → Uncounted (retry_message n m)
unfolding retry_message
Uncounted-retry_message n m h =
    rw (lookup-insert "x-retry-count" "x-delivery-count" (int n) (entries m.headers))
      (rw (lookup-entries "x-delivery-count" m.headers) h)

get_retry_count-retry_message :
    (n : ℤ) (m : Message) → Uncounted m → get_retry_count (retry_message n m).headers ≡ n
unfolding retry_message get_retry_count
get_retry_count-retry_message n m h =
    rw (Uncounted-retry_message n m h)
      (rw (lookup-insert "x-retry-count" "x-retry-count" (int n) (entries m.headers)) refl)

-- The logs of `j` counted retries after `k` of them, then the nack.
abbrev pub retries_then_nack : ℕ → ℕ → String → Message → List (List Wire)
retries_then_nack zero k queue m = (nack false ∷ []) ∷ []
retries_then_nack (suc j) k queue m =
    (ack ∷ publish "" queue (retry_message (pos (suc k)) m) ∷ [])
    ∷ retries_then_nack j (suc k) queue (retry_message (pos (suc k)) m)

module _ (c : ConsumerConfig) (queue : String) where
  -- A message on a classic queue whose handler always fails, with manual acknowledgment and working
  -- publishes: from a retry count of `k`, with `max_retries` of `k + j`, it is republished and
  -- acknowledged `j` times, each time with the next count, and then dead-lettered; `j + 1` runs are enough.
  pub classic_retries :
      (j k : ℕ) (m : Message)
      → c.auto_ack ≡ false
      → c.is_classic ≡ true
      → c.max_retries ≡ pos (k + j)
      → 0 < k + j
      → get_retry_count m.headers ≡ pos k
      → Uncounted m
      → (fuel : ℕ) → j < fuel
      → classic_life fuel c queue m ≡ retries_then_nack j k queue m
  unfolding classic_life
  classic_retries zero k m manual classic bound some_retries count u zero enough = ground arith
  classic_retries zero k m manual classic bound some_retries count u (suc fuel) enough =
      ap (follow (classic_life fuel c queue))
        (classic_over c queue m k manual bound some_retries count)
  classic_retries (suc j) k m manual classic bound some_retries count u zero enough = ground arith
  classic_retries (suc j) k m manual classic bound some_retries count u (suc fuel) enough =
      ap (follow (classic_life fuel c queue))
        (classic_again c queue m k j manual classic bound count)
      ∙ (ap (λ rest. (ack ∷ publish "" queue (retry_message (pos (suc k)) m) ∷ []) ∷ rest)
          (classic_retries j (suc k) (retry_message (pos (suc k)) m) manual classic (ground arith)
            (ground arith) (get_retry_count-retry_message (pos (suc k)) m u)
            (Uncounted-retry_message (pos (suc k)) m u) fuel (ground arith)))

-- On a quorum queue the broker counts: redelivery `i` carries the count, the first delivery does not.
abbrev pub CountedByBroker : ℕ → Message → Type 0
CountedByBroker i m =
    field "x-delivery-count" m.headers ≡ (if leb 1 i then some (int64 (pos i)) else none)

module _ (wire : Wire → Bool) (c : ConsumerConfig) (queue : String) where
  -- A message on a quorum queue whose handler fails, with manual acknowledgment, a positive
  -- `max_retries` and no count of classic queues: redelivery `i`, which carries `i` as the broker's
  -- count from the first redelivery on, is requeued while `i` is at most `max_retries`, and nacked
  -- without requeue after that: it is retried `max_retries + 1` times, once more than configured.
  pub quorum_retries :
      (i n : ℕ) (m : Message)
      → c.auto_ack ≡ false
      → c.is_classic ≡ false
      → c.max_retries ≡ pos (suc n)
      → CountedByBroker i m
      → field "x-retry-count" m.headers ≡ none
      → (handle_processing_error wire c queue other_error (new_delivery m)).log
        ≡ nack (leb i (suc n)) ∷ []
  unfolding handle_processing_error handle_plain_error retry nack_delivery is_settled new_delivery
      get_retry_count
  quorum_retries zero n m manual quorum bound counted fresh =
      rw (manual, bound, quorum, counted, fresh) (ground arith)
  quorum_retries (suc i) n m manual quorum bound counted fresh =
      rw (manual, bound, quorum) (rw counted (ground arith))
