-- ===== src/Topology/Options.antt =====
-- admin.go: the options of queues, exchanges and bindings. Only this package writes options, so each is
-- a constructor, and its function body is a clause of `apply_queue_option` and the like.
use go_rabbitmq.Base.{suc, ◌/◌, String, Bool, true, List, [], ◌∷◌, some, if◌then◌else◌}
use go_rabbitmq.Base.Int.{ℤ, pos, negsuc, sub_ℕ}
use go_rabbitmq.Base.Eq.{String_eq}
use go_rabbitmq.Base.Dict.{insert}
use go_rabbitmq.Message.{int, int64, Table}
use go_rabbitmq.Consumer.Errors.{entries}
use go_rabbitmq.Topology.Config.{Arguments, copy, dead_letter_arguments}

-- A duration in nanoseconds; `Milliseconds` rounds towards zero.
abbrev pub milliseconds : ℤ → ℤ
milliseconds (pos n) = pos (n / 1000000)
milliseconds (negsuc n) = sub_ℕ 0 (suc n / 1000000)

pub record QueueSettings : Type 0 where
  pub durable : Bool
  pub auto_delete : Bool
  pub exclusive : Bool
  pub no_wait : Bool
  pub arguments : Table
  pub ttl : ℤ
  pub max_length : ℤ
  pub max_length_bytes : ℤ
  pub dead_letter_exchange : String
  pub dead_letter_routing_key : String
  pub use_classic_queue : Bool

pub record QuorumQueueSettings : Type 0 where
  pub queue_settings : QueueSettings
  pub initial_group_size : ℤ
  pub delivery_limit : ℤ

pub record ExchangeSettings : Type 0 where
  pub durable : Bool
  pub auto_delete : Bool
  pub internal : Bool
  pub no_wait : Bool
  pub arguments : Table

pub record BindingSettings : Type 0 where
  pub no_wait : Bool
  pub arguments : Table

pub data QueueOption : Type 0 where
  with_durable with_auto_delete with_exclusive_queue without_dlq with_classic_queue : QueueOption
  with_ttl with_max_length with_max_length_bytes : ℤ → QueueOption
  with_arguments : Table → QueueOption
  with_dead_letter : String → String → QueueOption
  with_dead_letter_ttl with_quorum_group_size with_delivery_limit : ℤ → QueueOption

pub data QuorumQueueOption : Type 0 where
  with_initial_group_size with_quorum_delivery_limit : ℤ → QuorumQueueOption
  without_quorum_dlq : QuorumQueueOption
  with_quorum_dead_letter : String → String → QuorumQueueOption

pub data ExchangeOption : Type 0 where
  with_exchange_durable with_exchange_auto_delete with_exchange_internal : ExchangeOption
  with_exchange_arguments : Table → ExchangeOption

pub data BindingOption : Type 0 where
  with_binding_no_wait : BindingOption
  with_binding_headers with_binding_arguments : Table → BindingOption

-- Every write makes the map first if it is nil.
abbrev pub change_arguments : (Arguments → Arguments) → QueueSettings → QueueSettings
change_arguments f c = record c { arguments = some (f (entries c.arguments)) }

unfoldable pub apply_queue_option : QueueOption → QueueSettings → QueueSettings
apply_queue_option with_durable c = record c { durable = true }
apply_queue_option with_auto_delete c = record c { auto_delete = true }
apply_queue_option with_exclusive_queue c = record c { exclusive = true }
apply_queue_option without_dlq c = record c {
  dead_letter_exchange = "";
  dead_letter_routing_key = "";
}
apply_queue_option with_classic_queue c = record c { use_classic_queue = true }
apply_queue_option (with_ttl ttl) c =
    change_arguments (insert "x-message-ttl" (int64 (milliseconds ttl))) (record c { ttl = ttl })
apply_queue_option (with_max_length n) c =
    change_arguments (insert "x-max-length" (int64 n)) (record c { max_length = n })
apply_queue_option (with_max_length_bytes n) c =
    change_arguments (insert "x-max-length-bytes" (int64 n)) (record c { max_length_bytes = n })
apply_queue_option (with_arguments args) c = change_arguments (copy (entries args)) c
apply_queue_option (with_dead_letter exchange routing_key) c =
    change_arguments (dead_letter_arguments exchange routing_key)
      (record c { dead_letter_exchange = exchange; dead_letter_routing_key = routing_key })
apply_queue_option (with_dead_letter_ttl _) c = c
apply_queue_option (with_quorum_group_size n) c =
    change_arguments (insert "x-quorum-initial-group-size" (int n)) c
apply_queue_option (with_delivery_limit n) c =
    change_arguments (insert "x-delivery-limit" (int n)) c

abbrev pub change_queue_settings :
    (QueueSettings → QueueSettings) → QuorumQueueSettings → QuorumQueueSettings
change_queue_settings f c = record c { queue_settings = f c.queue_settings }

unfoldable pub apply_quorum_option : QuorumQueueOption → QuorumQueueSettings → QuorumQueueSettings
apply_quorum_option (with_initial_group_size n) c =
    change_queue_settings (change_arguments (insert "x-quorum-initial-group-size" (int n)))
      (record c { initial_group_size = n })
apply_quorum_option (with_quorum_delivery_limit n) c =
    change_queue_settings (change_arguments (insert "x-delivery-limit" (int n)))
      (record c { delivery_limit = n })
apply_quorum_option without_quorum_dlq c =
    change_queue_settings
      (λ s. record s { dead_letter_exchange = ""; dead_letter_routing_key = "" }) c
apply_quorum_option (with_quorum_dead_letter exchange routing_key) c =
    change_queue_settings
      (λ s. record s { dead_letter_exchange = exchange; dead_letter_routing_key = routing_key }) c

unfoldable pub apply_exchange_option : ExchangeOption → ExchangeSettings → ExchangeSettings
apply_exchange_option with_exchange_durable c = record c { durable = true }
apply_exchange_option with_exchange_auto_delete c = record c { auto_delete = true }
apply_exchange_option with_exchange_internal c = record c { internal = true }
apply_exchange_option (with_exchange_arguments args) c = record c {
  arguments = some (copy (entries args) (entries c.arguments));
}

-- `WithBindingArguments` replaces the arguments, the others add to them.
unfoldable pub apply_binding_option : BindingOption → BindingSettings → BindingSettings
apply_binding_option with_binding_no_wait c = record c { no_wait = true }
apply_binding_option (with_binding_headers headers) c = record c {
  arguments = some (copy (entries headers) (entries c.arguments));
}
apply_binding_option (with_binding_arguments args) c = record c { arguments = args }

-- `for _, opt := range opts { opt(config) }`
unfoldable pub apply_each {ℓ κ} : {A : Type ℓ} {C : Type κ} → (A → C → C) → List A → C → C
apply_each f [] c = c
apply_each f (o ∷ opts) c = apply_each f opts (f o c)

-- `if b { opts = append(opts, opt) }`, before the options `opts` that follow.
abbrev pub when {ℓ} : {A : Type ℓ} → Bool → A → List A → List A
when b opt opts = if b then opt ∷ opts else opts
