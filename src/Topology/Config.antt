-- ===== src/Topology/Config.antt =====
-- types.go: the configurations of queues, exchanges and bindings, and the arguments of a queue.
use go_rabbitmq.Base.{String, Bool, true, false, not, List, [], ◌∷◌, some, if◌then◌else◌}
use go_rabbitmq.Base.Int.{ℤ, pos, ltb_ℤ}
use go_rabbitmq.Base.Eq.{String_eq}
use go_rabbitmq.Base.Dict.{insert}
use go_rabbitmq.Message.{Value, int, text, Table}
use go_rabbitmq.Consumer.Errors.{entries}

-- Three values have names in the source; any other text is possible.
pub data QueueType : Type 0 where
  classic quorum stream : QueueType
  named : String → QueueType

pub record ExchangeConfig : Type 0 where
  pub name : String
  pub kind : String
  pub durable : Bool
  pub auto_delete : Bool
  pub internal : Bool
  pub no_wait : Bool
  pub arguments : Table

pub record QueueConfig : Type 0 where
  pub name : String
  pub durable : Bool
  pub auto_delete : Bool
  pub exclusive : Bool
  pub no_wait : Bool
  pub arguments : Table
  pub queue_type : QueueType
  pub high_availability : Bool
  pub replication_factor : ℤ
  pub max_length : ℤ
  pub max_length_bytes : ℤ
  pub message_ttl : ℤ
  pub dead_letter_exchange : String
  pub dead_letter_routing_key : String

pub record BindingConfig : Type 0 where
  pub queue_name : String
  pub exchange_name : String
  pub routing_key : String
  pub no_wait : Bool
  pub arguments : Table

-- The literal that the three defaults share: durable, and no limit.
abbrev pub plain_queue : String → QueueType → QueueConfig
plain_queue name t = record {
  name = name;
  durable = true;
  auto_delete = false;
  exclusive = false;
  no_wait = false;
  arguments = some [];
  queue_type = t;
  high_availability = false;
  replication_factor = pos 0;
  max_length = pos 0;
  max_length_bytes = pos 0;
  message_ttl = pos 0;
  dead_letter_exchange = "";
  dead_letter_routing_key = "";
}

unfoldable pub default_quorum_queue_config : String → QueueConfig
default_quorum_queue_config name = record (plain_queue name quorum) { replication_factor = pos 3 }

unfoldable pub default_ha_queue_config : String → QueueConfig
default_ha_queue_config name = record (plain_queue name classic) { high_availability = true }

unfoldable pub default_classic_queue_config : String → QueueConfig
default_classic_queue_config name = plain_queue name classic

unfoldable pub without_dead_letter : QueueConfig → QueueConfig
without_dead_letter q = record q { dead_letter_exchange = ""; dead_letter_routing_key = "" }

unfoldable pub with_custom_dead_letter : String → String → QueueConfig → QueueConfig
with_custom_dead_letter dlx_name routing_key q = record q {
  dead_letter_exchange = dlx_name;
  dead_letter_routing_key = routing_key;
}

abbrev pub Arguments : Type 0
Arguments = List (String × Value)

-- A write to the map that is made only under a condition.
unfoldable pub insert_if : Bool → String → Value → Arguments → Arguments
insert_if b k v args = if b then insert k v args else args

abbrev pub is_positive : ℤ → Bool
is_positive n = ltb_ℤ (pos 0) n

abbrev pub is_named : String → Bool
is_named s = not (String_eq.beq s "")

-- `maps.Copy(to, from)`: the entries of `from` in some order, which does not matter, since its keys
-- differ.
unfoldable pub copy : Arguments → Arguments → Arguments
copy [] to = to
copy ((k, v) ∷ from) to = copy from (insert k v to)

-- The `switch` on the queue's type.
unfoldable pub type_arguments : QueueType → QueueConfig → Arguments → Arguments
type_arguments quorum q args =
    insert_if (is_positive q.replication_factor) "x-quorum-initial-group-size"
      (int q.replication_factor) (insert "x-queue-type" (text "quorum") args)
type_arguments stream q args = insert "x-queue-type" (text "stream") args
type_arguments classic q args =
    insert_if q.high_availability "x-ha-sync-mode" (text "automatic")
      (insert_if q.high_availability "x-ha-policy" (text "all") args)
type_arguments (named _) q args = args

unfoldable pub limit_arguments : QueueConfig → Arguments → Arguments
limit_arguments q args = insert_if (is_positive q.message_ttl) "x-message-ttl" (int q.message_ttl) (
    insert_if (is_positive q.max_length_bytes) "x-max-length-bytes" (int q.max_length_bytes)
      (insert_if (is_positive q.max_length) "x-max-length" (int q.max_length) args))

unfoldable pub dead_letter_arguments : String → String → Arguments → Arguments
dead_letter_arguments dlx routing_key args =
    insert_if (is_named routing_key) "x-dead-letter-routing-key" (text routing_key)
      (insert "x-dead-letter-exchange" (text dlx) args)

unfoldable pub to_arguments : QueueConfig → Arguments
to_arguments q =
    let args = limit_arguments q (type_arguments q.queue_type q (copy (entries q.arguments) [])) in
    if is_named q.dead_letter_exchange
    then dead_letter_arguments q.dead_letter_exchange q.dead_letter_routing_key args
    else args
