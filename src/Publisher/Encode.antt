-- ===== src/Publisher/Encode.antt =====
-- publisher.go: what Publish and publishWithDeliveryAssurance make of a message before they convert it.
use go_rabbitmq.Base.{
  ℕ, String, Bool, true, not, ◌&&◌, Option, none, some, List, length, ltb, if◌then◌else◌,
}
use go_rabbitmq.Message.{text, Message}
use go_rabbitmq.Message.Build.{clone, with_header}

-- A `MessageEncryptor` or a `MessageCompressor`, as far as the publisher uses it; `none` is an error.
pub record Encoder : Type 0 where
  pub algorithm : String
  pub encode : List ℕ → Option (List ℕ)

-- A negative threshold is like 0: every body reaches it.
pub record EncodeConfig : Type 0 where
  pub persistent : Bool
  pub compressor : Option Encoder
  pub compression_threshold : ℕ
  pub encryptor : Option Encoder

abbrev pub encoded_as : String → String → Message → Option (List ℕ) → Option Message
encoded_as header algorithm m none = none
encoded_as header algorithm m (some body) =
    some (with_header header (text algorithm) (record (clone m) { body = body }))

abbrev pub encode_body : String → Encoder → Message → Option Message
encode_body header c m = encoded_as header c.algorithm m (c.encode m.body)

unfoldable pub apply_compression : ℕ → Encoder → Message → Option Message
apply_compression threshold c m =
    if ltb (length m.body) threshold then some m else encode_body "x-compression" c m

unfoldable pub apply_encryption : Encoder → Message → Option Message
apply_encryption c m = encode_body "x-encryption" c m

abbrev pub if_given :
    (Encoder → Message → Option Message) → Option Encoder → Message → Option Message
if_given apply none m = some m
if_given apply (some c) m = apply c m

abbrev pub then_encrypt : Option Encoder → Option Message → Option Message
then_encrypt encryptor none = none
then_encrypt encryptor (some m) = if_given apply_encryption encryptor m

abbrev pub persistent_by_default : Bool → Message → Message
persistent_by_default persistent m =
    if persistent && not m.persistent then record (clone m) { persistent = true } else m

unfoldable pub encode_message : EncodeConfig → Message → Option Message
encode_message k m = then_encrypt k.encryptor (
    if_given (apply_compression k.compression_threshold) k.compressor
      (persistent_by_default k.persistent m))
