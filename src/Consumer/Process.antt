-- ===== src/Consumer/Process.antt =====
-- consumer.go: decoding a message, running its handler and settling it.
use go_rabbitmq.Base.{
  ℕ, String, Bool, true, false, Option, none, some, List, [], ◌∷◌, if◌then◌else◌,
}
use go_rabbitmq.Base.Eq.{String_eq}
use go_rabbitmq.Base.Dict.{lookup, delete}
use go_rabbitmq.Message.{Value, text, Table, Message}
use go_rabbitmq.Consumer.Delivery.{
  Wire, Delivery, new_delivery, ack_delivery, nack_delivery, reject_delivery,
}
use go_rabbitmq.Consumer.Errors.{
  ConsumerConfig, HandlerError, other_error, field, handle_processing_error,
}

-- What a handler does with the delivery, and how it ends; a panic is an error by recovery.
pub data Settlement : Type 0 where
  acks : Settlement
  nacks rejects : Bool → Settlement

pub data Ending : Type 0 where
  succeeds panics : Ending
  fails : HandlerError → Ending

pub record Handler : Type 0 where
  pub settlements : List Settlement
  pub ending : Ending

unfoldable pub settle : (Wire → Bool) → Settlement → Delivery → Delivery
settle wire acks d = ack_delivery wire d
settle wire (nacks requeue) d = nack_delivery requeue d
settle wire (rejects requeue) d = reject_delivery requeue d

unfoldable pub settle_each : (Wire → Bool) → List Settlement → Delivery → Delivery
settle_each wire [] d = d
settle_each wire (s ∷ ss) d = settle_each wire ss (settle wire s d)

abbrev pub error_of : Ending → Option HandlerError
error_of succeeds = none
error_of panics = some other_error
error_of (fails e) = some e

abbrev pub after_handler :
    (Wire → Bool) → ConsumerConfig → String → Option HandlerError → Delivery → Delivery
after_handler wire c queue none d = if c.auto_ack then d else ack_delivery wire d
after_handler wire c queue (some e) d = handle_processing_error wire c queue e d

-- A `MessageEncryptor` or a `MessageCompressor`, as far as the consumer uses it; `none` is an error.
pub record Codec : Type 0 where
  pub algorithm : String
  pub decode : List ℕ → Option (List ℕ)

-- The header's value is the codec's name, as a string.
abbrev pub names : String → Value → Bool
names algorithm (text t) = String_eq.beq t algorithm
names algorithm _ = false

abbrev pub drop_header : String → Table → Table
drop_header header none = none
drop_header header (some t) = some (delete header t)

abbrev pub decoded : String → Message → Option (List ℕ) → Message × Bool
decoded header m none = (m, false)
decoded header m (some body) =
    (record m { body = body; headers = drop_header header m.headers }, true)

abbrev pub decode_header : String → Codec → Message → Option Value → Message × Bool
decode_header header codec m none = (m, true)
decode_header header codec m (some v) =
    if names codec.algorithm v then decoded header m (codec.decode m.body) else (m, false)

-- `applyDecryption` and `applyDecompression`: the message as it is left, and whether that went well.
unfoldable pub apply_decryption : Codec → Message → Message × Bool
unfolding lookup delete
apply_decryption codec m = decode_header "x-encryption" codec m (field "x-encryption" m.headers)

unfoldable pub apply_decompression : Codec → Message → Message × Bool
unfolding lookup delete
apply_decompression codec m =
    decode_header "x-compression" codec m (field "x-compression" m.headers)

abbrev pub if_configured :
    (Codec → Message → Message × Bool) → Option Codec → Message → Message × Bool
if_configured apply none m = (m, true)
if_configured apply (some codec) m = apply codec m

-- Decryption first; decompression only if it went well.
unfoldable pub decode_message : Option Codec → Option Codec → Message → Message × Bool
decode_message encryptor compressor m =
    let (m', decrypted) = if_configured apply_decryption encryptor m in
    if decrypted then if_configured apply_decompression compressor m' else (m', false)

abbrev pub handle_decoded :
    (Wire → Bool) → ConsumerConfig → String → (Message → Handler) → Message × Bool → Delivery
handle_decoded wire c queue handler (m, false) =
    handle_processing_error wire c queue other_error (new_delivery m)
handle_decoded wire c queue handler (m, true) =
    after_handler wire c queue (error_of (handler m).ending)
      (settle_each wire (handler m).settlements (new_delivery m))

-- `processMessage`, without its metrics, tracing and deadline.
unfoldable pub process_message :
    (Wire → Bool)
    → ConsumerConfig
    → Option Codec
    → Option Codec
    → String
    → (Message → Handler)
    → Message
    → Delivery
process_message wire c encryptor compressor queue handler m =
    handle_decoded wire c queue handler (decode_message encryptor compressor m)
