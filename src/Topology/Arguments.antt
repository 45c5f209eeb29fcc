-- ===== src/Topology/Arguments.antt =====
-- types.go, admin.go: the arguments that queues are declared with.
use go_rabbitmq.Base.{
  ◌≡◌, refl, ap, ◌∙◌, String, Bool, true, false, ◌&&◌, ◌||◌, Option, none, some, List, [], ◌∷◌,
  if◌then◌else◌,
}
use go_rabbitmq.Base.Eq.{String_eq}
use go_rabbitmq.Base.Dict.{lookup, insert, lookup-insert}
use go_rabbitmq.Message.{Value, int, text}
use go_rabbitmq.Consumer.Errors.{entries}
use go_rabbitmq.Topology.Config.{
  QueueConfig, QueueType, quorum, stream, classic, named, Arguments, insert_if, is_positive,
  is_named, copy, type_arguments, limit_arguments, dead_letter_arguments, to_arguments,
}
use go_rabbitmq.Topology.Options.{QueueSettings, QueueOption, with_classic_queue, change_arguments}
use go_rabbitmq.Topology.Broker.{Broker}

-- The value under `k` if the condition holds and the key is `k`, and otherwise what follows.
abbrev or_next : Bool → String → Value → String → Option Value → Option Value
or_next b j v k o = if b && String_eq.beq j k then some v else o

lookup-insert_if :
    (k j : String) (b : Bool) (v : Value) (args : Arguments)
    → lookup k (insert_if b j v args) ≡ or_next b j v k (lookup k args)
unfolding insert_if
lookup-insert_if k j true v args = lookup-insert j k v args
lookup-insert_if k j false v args = refl

-- The last entry of the key in a list that is copied, and otherwise what was there.
abbrev copied : String → Arguments → Option Value → Option Value
copied k [] o = o
copied k ((j, v) ∷ from) o = copied k from (if String_eq.beq j k then some v else o)

lookup-copy :
    (k : String) (from to : Arguments) → lookup k (copy from to) ≡ copied k from (lookup k to)
unfolding copy
lookup-copy k [] to = refl
lookup-copy k ((j, v) ∷ from) to =
    lookup-copy k from (insert j v to) ∙ ap (copied k from) (lookup-insert j k v to)

-- Which argument a queue of a type has under a key, apart from those that follow.
abbrev type_argument : QueueType → QueueConfig → String → Option Value → Option Value
type_argument quorum q k o =
    or_next (is_positive q.replication_factor) "x-quorum-initial-group-size"
      (int q.replication_factor) k (or_next true "x-queue-type" (text "quorum") k o)
type_argument stream q k o = or_next true "x-queue-type" (text "stream") k o
type_argument classic q k o =
    or_next q.high_availability "x-ha-sync-mode" (text "automatic") k
      (or_next q.high_availability "x-ha-policy" (text "all") k o)
type_argument (named _) q k o = o

-- The argument of a queue under a key: that of a dead-letter setting, or else of a limit that is
-- positive, or else of the type, or else the custom argument.
abbrev pub argument : QueueConfig → String → Option Value
argument q k =
    let dead = is_named q.dead_letter_exchange in
    or_next (dead && is_named q.dead_letter_routing_key) "x-dead-letter-routing-key"
      (text q.dead_letter_routing_key) k
      (or_next dead "x-dead-letter-exchange" (text q.dead_letter_exchange) k (
        or_next (is_positive q.message_ttl) "x-message-ttl" (int q.message_ttl) k (
          or_next (is_positive q.max_length_bytes) "x-max-length-bytes" (int q.max_length_bytes) k (
            or_next (is_positive q.max_length) "x-max-length" (int q.max_length) k
              (type_argument q.queue_type q k (copied k (entries q.arguments) none))))))

lookup-type_arguments :
    (t : QueueType) (q : QueueConfig) (k : String) (args : Arguments)
    → lookup k (type_arguments t q args) ≡ type_argument t q k (lookup k args)
unfolding type_arguments
lookup-type_arguments quorum q k args = rw (lookup-insert_if, lookup-insert) refl
lookup-type_arguments stream q k args = lookup-insert _ _ _ _
lookup-type_arguments classic q k args = rw (lookup-insert_if, lookup-insert_if) refl
lookup-type_arguments (named _) q k args = refl

lookup-limit_arguments :
    (q : QueueConfig) (k : String) (args : Arguments)
    → lookup k (limit_arguments q args)
      ≡ or_next (is_positive q.message_ttl) "x-message-ttl" (int q.message_ttl) k (
          or_next (is_positive q.max_length_bytes) "x-max-length-bytes" (int q.max_length_bytes) k (
            or_next (is_positive q.max_length) "x-max-length" (int q.max_length) k (lookup k args)))
unfolding limit_arguments
lookup-limit_arguments q k args = rw (lookup-insert_if, lookup-insert_if, lookup-insert_if) refl

lookup-dead_letter_arguments :
    (dlx routing_key k : String) (args : Arguments)
    → lookup k (dead_letter_arguments dlx routing_key args)
      ≡ or_next
          (is_named routing_key)
          "x-dead-letter-routing-key"
          (text routing_key)
          k
          (or_next true "x-dead-letter-exchange" (text dlx) k (lookup k args))
unfolding dead_letter_arguments
lookup-dead_letter_arguments dlx routing_key k args = rw (lookup-insert_if, lookup-insert) refl

dead_letters_or_not :
    (b : Bool) (q : QueueConfig) (k : String) (args : Arguments)
    → lookup k (
        if b
        then dead_letter_arguments q.dead_letter_exchange q.dead_letter_routing_key args
        else args)
      ≡ or_next
          (b && is_named q.dead_letter_routing_key)
          "x-dead-letter-routing-key"
          (text q.dead_letter_routing_key)
          k
          (or_next b "x-dead-letter-exchange" (text q.dead_letter_exchange) k (lookup k args))
dead_letters_or_not true q k args = lookup-dead_letter_arguments _ _ k args
dead_letters_or_not false q k args = refl

-- `ToArguments` has under each key what a table of the settings says: a setting that is on outweighs
-- the custom argument of the same key, and every other custom argument is kept.
pub lookup-to_arguments : (q : QueueConfig) (k : String) → lookup k (to_arguments q) ≡ argument q k
unfolding to_arguments lookup
lookup-to_arguments q k =
    dead_letters_or_not (is_named q.dead_letter_exchange) q k _
    ∙ rw (lookup-limit_arguments, lookup-type_arguments, lookup-copy) refl

abbrev pub is_classic_option : QueueOption → Bool
is_classic_option with_classic_queue = true
is_classic_option _ = false

abbrev pub has_classic : List QueueOption → Bool
has_classic [] = false
has_classic (o ∷ opts) = is_classic_option o || has_classic opts

abbrev of_quorum : QueueSettings → QueueSettings
of_quorum = change_arguments (insert "x-queue-type" (text "quorum"))
