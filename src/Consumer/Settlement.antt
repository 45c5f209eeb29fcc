-- ===== src/Consumer/Settlement.antt =====
-- A delivery is settled at most once, and a processed one exactly once.
use go_rabbitmq.Base.{
  ℕ, ◌+◌, ◌≡◌, String, Bool, true, false, Option, none, some, is_some, List, [], ◌∷◌, arith,
  if◌then◌else◌, Bool-cases, inl, inr, refl,
}
use go_rabbitmq.Message.{Message}
use go_rabbitmq.Consumer.Delivery.{
  Wire, publish, Delivery, new_delivery, guard_set, is_settled, ack_delivery, nack_delivery,
  reject_delivery,
}
use go_rabbitmq.Consumer.Errors.{
  ConsumerConfig, HandlerError, reject_error, other_error, retry, handle_plain_error,
  handle_processing_error,
}
use go_rabbitmq.Consumer.Process.{
  Settlement, Handler, settle, settle_each, error_of, after_handler, Codec, decode_message,
  handle_decoded, process_message,
}

abbrev pub is_settlement : Wire → ℕ
is_settlement (publish e k m) = 0
is_settlement _ = 1

-- The settlements among the operations tried on the broker.
abbrev pub settlements_in : List Wire → ℕ
settlements_in [] = 0
settlements_in (w ∷ ws) = is_settlement w + settlements_in ws

abbrev pub to_ℕ : Bool → ℕ
to_ℕ true = 1
to_ℕ false = 0

pub record IsGuarded (d : Delivery) : Type 0 where
  pub guarded : is_some d.settled ≡ true
  pub matches : settlements_in d.log ≡ to_ℕ (guard_set d.settled)

-- A step that keeps the guard in line with the log, and settles the delivery.
pub record Settled (d d' : Delivery) : Type 0 where
  pub done : guard_set d'.settled ≡ true
  pub keeps : IsGuarded d'

module _ (wire : Wire → Bool) where
  pub settle-Settled : (s : Settlement) (d : Delivery) → IsGuarded d → Settled d (settle wire s d)
  unfolding settle ack_delivery nack_delivery reject_delivery
  settle-Settled s d g = ground arith

  module _ (c : ConsumerConfig) (queue : String) where
    error-Settled :
        (e : HandlerError) (d : Delivery)
        → c.auto_ack ≡ false
        → IsGuarded d
        → Settled d (handle_processing_error wire c queue e d)
    unfolding handle_processing_error handle_plain_error retry ack_delivery nack_delivery is_settled
    error-Settled (reject_error b) d h g = ground arith
    error-Settled other_error d h g = ground arith

    -- Under automatic acknowledgment an error does nothing.
    error_auto :
        (e : HandlerError) (d : Delivery)
        → c.auto_ack ≡ true
        → handle_processing_error wire c queue e d ≡ d
    unfolding handle_processing_error
    error_auto (reject_error b) d h = rw h refl
    error_auto other_error d h = rw h refl

  pub settle_each-IsGuarded :
      (ss : List Settlement) (d : Delivery) → IsGuarded d → IsGuarded (settle_each wire ss d)
  unfolding settle_each
  settle_each-IsGuarded [] d g = g
  settle_each-IsGuarded (s ∷ ss) d g =
      settle_each-IsGuarded ss (settle wire s d) (settle-Settled s d g).keeps

  settle_again :
      (s : Settlement) (d : Delivery)
      → guard_set d.settled ≡ true
      → guard_set (settle wire s d).settled ≡ true
  unfolding settle ack_delivery nack_delivery reject_delivery
  settle_again s d h = ground arith

  settle_each-done :
      (ss : List Settlement) (d : Delivery)
      → guard_set d.settled ≡ true
      → guard_set (settle_each wire ss d).settled ≡ true
  unfolding settle_each
  settle_each-done [] d h = h
  settle_each-done (s ∷ ss) d h = settle_each-done ss (settle wire s d) (settle_again s d h)

abbrev pub any_settlement : List Settlement → Bool
any_settlement [] = false
any_settlement (s ∷ ss) = true

-- Whether the handler settles the message itself: it does not run if the message cannot be decoded.
abbrev pub handler_settles : (Message → Handler) → Message × Bool → Bool
handler_settles handler (m, decoded) =
    if decoded then any_settlement (handler m).settlements else false

pub fresh-IsGuarded : (m : Message) → IsGuarded (new_delivery m)
unfolding new_delivery
fresh-IsGuarded m = ground arith

module _ (wire : Wire → Bool) (c : ConsumerConfig) (queue : String) where
  after_handler-Settled :
      (e : Option HandlerError) (d : Delivery)
      → c.auto_ack ≡ false
      → IsGuarded d
      → Settled d (after_handler wire c queue e d)
  unfolding ack_delivery
  after_handler-Settled none d h g = ground arith
  after_handler-Settled (some e) d h g = error-Settled wire c queue e d h g

  after_handler_auto :
      (e : Option HandlerError) (d : Delivery)
      → c.auto_ack ≡ true
      → after_handler wire c queue e d ≡ d
  after_handler_auto none d h = rw h refl
  after_handler_auto (some e) d h = error_auto wire c queue e d h

  manual :
      (ss : List Settlement) (m : Message)
      → settlements_in (settle_each wire ss (new_delivery m)).log ≡ to_ℕ (any_settlement ss)
  unfolding settle_each new_delivery
  manual [] m = refl
  manual (s ∷ ss) m =
      let first = settle-Settled wire s (new_delivery m) (fresh-IsGuarded m) in
      let done = settle_each-done wire ss (settle wire s (new_delivery m)) first.done in
      let guarded = settle_each-IsGuarded wire ss (settle wire s (new_delivery m)) first.keeps in
      ground arith

  handled-settles :
      (handler : Message → Handler) (r : Message × Bool)
      → settlements_in (handle_decoded wire c queue handler r).log
        ≡ (if c.auto_ack then to_ℕ (handler_settles handler r) else 1)
  unfolding new_delivery handle_processing_error
  handled-settles handler (m, true) =
      let h = handler m in
      let d = settle_each wire h.settlements (new_delivery m) in
      let guarded = settle_each-IsGuarded wire h.settlements (new_delivery m) (fresh-IsGuarded m) in
      elim (Bool-cases c.auto_ack) [
        | inl auto ↦
            rw (after_handler_auto (error_of h.ending) d auto) (rw auto (manual h.settlements m))
        | inr by_hand ↦
            let s = after_handler-Settled (error_of h.ending) d by_hand guarded in ground arith
      ]
  handled-settles handler (m, false) = elim (Bool-cases c.auto_ack) [
    | inl auto ↦ rw auto refl
    | inr by_hand ↦
        let s =
          error-Settled wire c queue other_error (new_delivery m) by_hand (fresh-IsGuarded m) in
        ground arith
  ]

-- Manual acknowledgment: whatever the handler does with the delivery (nothing, any number of
-- settlements, an error, a panic), whatever fails on the broker and whatever the decoding says,
-- exactly one ack, nack or reject is sent for the message. Automatic acknowledgment: the consumer
-- sends none of its own, and of the handler's only the first goes out.
pub process_message_settles :
    (wire : Wire → Bool) (c : ConsumerConfig) (encryptor compressor : Option Codec) (queue : String)
    (handler : Message → Handler) (m : Message)
    → settlements_in (process_message wire c encryptor compressor queue handler m).log ≡ (
        if c.auto_ack
        then to_ℕ (handler_settles handler (decode_message encryptor compressor m))
        else 1)
unfolding process_message
process_message_settles wire c encryptor compressor queue handler m =
    handled-settles wire c queue handler (decode_message encryptor compressor m)
