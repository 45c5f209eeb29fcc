-- ===== src/Consumer/Delivery.antt =====
-- consumer.go: a delivery and its settlement. `wire` says which operations on the broker succeed; the
-- log holds those that were tried, newest first.
use go_rabbitmq.Base.{
  ℕ, ◌+◌, String, Bool, true, false, Option, none, some, List, [], ◌∷◌, if◌then◌else◌,
}
use go_rabbitmq.Message.{Message}

pub data Wire : Type 0 where
  ack : Wire
  nack : Bool → Wire
  reject : Bool → Wire
  -- Exchange, routing key and message.
  publish : String → String → Message → Wire

-- `settled` is the guard, `none` for the nil guard of a delivery that the caller made by hand.
pub record Delivery : Type 0 where
  pub message : Message
  pub settled : Option Bool
  pub log : List Wire
  -- Successful acknowledgments told to the consumer's health, and requeues told to the metrics.
  pub acked : ℕ
  pub requeued : ℕ

unfoldable pub new_delivery : Message → Delivery
new_delivery m = record { message = m; settled = some false; log = []; acked = 0; requeued = 0 }

abbrev pub send : Wire → Delivery → Delivery
send w d = record d { log = w ∷ d.log }

abbrev pub claim : Option Bool → Option Bool × Bool
claim none = (none, true)
claim (some false) = (some true, true)
claim (some true) = (some true, false)

unfoldable pub try_settle : Delivery → Delivery × Bool
try_settle d = let (settled, won) = claim d.settled in (record d { settled = settled }, won)

abbrev pub guard_set : Option Bool → Bool
guard_set none = false
guard_set (some b) = b

unfoldable pub is_settled : Delivery → Bool
is_settled d = guard_set d.settled

-- Whether the acknowledgment reached the broker.
unfoldable pub ack_delivery : (Wire → Bool) → Delivery → Delivery
unfolding try_settle
ack_delivery wire d =
    let (d', won) = try_settle d in
    if won
    then (if wire ack then record (send ack d') { acked = d'.acked + 1 } else send ack d')
    else d'

unfoldable pub nack_delivery : Bool → Delivery → Delivery
unfolding try_settle
nack_delivery requeue d = let (d', won) = try_settle d in if won then send (nack requeue) d' else d'

unfoldable pub reject_delivery : Bool → Delivery → Delivery
unfolding try_settle
reject_delivery requeue d =
    let (d', won) = try_settle d in if won then send (reject requeue) d' else d'
