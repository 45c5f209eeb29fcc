-- ===== src/Compression/Tests.antt =====
-- Runs of compression, with a format that counts the leading zeros.
use go_rabbitmq.Base.{
  ◌≡◌, refl, ap, subst, ◌∙◌, sym, ℕ, zero, suc, true, false, Option, none, some, List, [], ◌∷◌,
  ◌==◌, if◌then◌else◌,
}
use go_rabbitmq.Base.Int.{pos, negsuc}
use go_rabbitmq.Base.Dict.{insert, delete, lookup}
use mathlib.Core.Option.{some-injective}
use go_rabbitmq.Message.{Message, text}
use go_rabbitmq.Message.Build.{new_message, new_message_with_id, with_header, clone, copy_headers}
use go_rabbitmq.Message.Convert.{AmqpDelivery, to_amqp_publishing, from_amqp_delivery}
use go_rabbitmq.Consumer.Process.{decode_message, apply_decompression}
use go_rabbitmq.Publisher.Encode.{encode_message, apply_compression, apply_encryption}
use go_rabbitmq.Compression.{Format, Compressor, new_compressor, compress, decompress}
use go_rabbitmq.Compression.Decoded.{Cipher, IsCipher, IsFormat, decrypting, decompressing}
use go_rabbitmq.Publisher.State.{PublisherConfig}
use go_rabbitmq.Publisher.Entry.{Request, Prepared, template_of, retry_request}
use go_rabbitmq.Compression.Retried.{encrypting_only}
use go_rabbitmq.Compression.Delivered.{encoding, Arrives, compressed_arrival}

abbrev zeros : List ℕ → ℕ
zeros [] = 0
zeros (zero ∷ b) = suc (zeros b)
zeros (suc n ∷ b) = 0

abbrev others : List ℕ → List ℕ
others [] = []
others (zero ∷ b) = others b
others (suc n ∷ b) = suc n ∷ b

abbrev with_zeros : ℕ → List ℕ → List ℕ
with_zeros zero b = b
with_zeros (suc n) b = 0 ∷ with_zeros n b

abbrev unpack : List ℕ → Option (List ℕ)
unpack (m ∷ n ∷ b) = if m == 31 then some (with_zeros n b) else none
unpack _ = none

abbrev counted : Format
counted = record {
  algorithm = "gzip";
  pack = λ level b. some (31 ∷ zeros b ∷ others b);
  unpack = unpack;
}

unpacked : (b : List ℕ) → with_zeros (zeros b) (others b) ≡ b
unpacked [] = refl
unpacked (zero ∷ b) = ap (λ c. 0 ∷ c) (unpacked b)
unpacked (suc n ∷ b) = refl

counted-IsFormat : IsFormat counted
counted-IsFormat level b x e = ap unpack (sym (some-injective _ x e)) ∙ ap some (unpacked b)

abbrev without_first : List ℕ → Option (List ℕ)
without_first [] = none
without_first (n ∷ b) = some b

abbrev prefixing : Cipher
prefixing = record { algorithm = "prefix"; encrypt = λ b. some (7 ∷ b); decrypt = without_first }

prefixing-IsCipher : IsCipher (some prefixing)
prefixing-IsCipher c same b x e =
    subst (λ (d : Cipher). d.decrypt x ≡ some b) (some-injective prefixing c same)
      (ap without_first (
        sym (
          some-injective (7 ∷ b) x (
            subst (λ (d : Cipher). d.encrypt b ≡ some x) (sym (some-injective prefixing c same))
              e))))

abbrev from_four : Compressor
from_four = record { threshold = 4; level = negsuc 0 }

abbrev message : List ℕ → Message
message body = with_header "trace" (text "a1") (new_message 5 "01H" body)

abbrev encoded : Message
encoded = record (message (7 ∷ 31 ∷ 5 ∷ [])) {
  headers = some (
      ("x-compression", text "gzip") ∷ ("trace", text "a1") ∷ ("x-encryption", text "prefix") ∷ []);
}

abbrev delivery : AmqpDelivery
delivery = record {
  properties = to_amqp_publishing encoded;
  message_count = 0;
  exchange = "events";
  routing_key = "order.new";
  redelivered = false;
  delivery_tag = 1;
}

compressed_arrival_example : Arrives true (message (0 ∷ 0 ∷ 0 ∷ 0 ∷ 0 ∷ [])) (
    decode_message
      (decrypting (some prefixing))
      (some (decompressing counted))
      (from_amqp_delivery delivery))
unfolding encode_message apply_compression apply_encryption compress clone copy_headers with_header
    new_message new_message_with_id insert lookup
compressed_arrival_example =
    compressed_arrival true 3 counted from_four (some prefixing) counted-IsFormat prefixing-IsCipher
      (message (0 ∷ 0 ∷ 0 ∷ 0 ∷ 0 ∷ [])) encoded delivery refl refl refl refl refl

-- A publisher whose own threshold is not set sends a short message that its consumer cannot decode.
short_refused :
    (m : Message) × (encode_message
        (encoding true 0 counted (new_compressor (pos 0) (pos 6)) none)
        (message (104 ∷ 105 ∷ []))
      ≡ some m)
    × ((decode_message none (some (decompressing counted)) m).1 ≡ false)
unfolding encode_message apply_compression compress decompress new_compressor clone copy_headers
    with_header new_message new_message_with_id insert lookup delete decode_message
    apply_decompression
short_refused = (_, refl, refl)

abbrev retrying : PublisherConfig
retrying = record {
  default_exchange = "events";
  default_delivery_callback = some 4;
  delivery_timeout = 30;
  default_mandatory = false;
  enable_automatic_retries = true;
  max_retry_attempts = 3;
}

abbrev request : Request
request = record {
  exchange = "";
  routing_key = "order.new";
  message = message (104 ∷ 105 ∷ []);
  options = record { message_id = ""; mandatory = false; callback = none; timeout = 0 };
  retry_count = 0;
  context = 0;
}

abbrev once : Message
once = record (message (7 ∷ 104 ∷ 105 ∷ [])) {
  headers = some (("trace", text "a1") ∷ ("x-encryption", text "prefix") ∷ []);
}

abbrev kept : Message
kept = record once { headers = some (("x-encryption", text "prefix") ∷ ("trace", text "a1") ∷ []) }

abbrev twice : Message
twice = record once { body = 7 ∷ 7 ∷ 104 ∷ 105 ∷ [] }

abbrev ready : Request → Message → Prepared
ready q m = record {
  template = template_of true none retrying (encrypting_only true prefixing) q "events" "01H" 4 m;
  publishing = record (to_amqp_publishing m) { message_id = "01H" };
}

abbrev again : Request
again = retry_request (ready request once).template kept

abbrev second_delivery : AmqpDelivery
second_delivery = record delivery { properties = (ready again twice).publishing }
