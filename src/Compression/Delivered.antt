-- ===== src/Compression/Delivered.antt =====
-- What a consumer reads of a message that a publisher compresses with the package compression, and
-- encrypts.
use go_rabbitmq.Base.{
  ◌≡◌, refl, sym, ap, subst, ◌∙◌, ◌⊎◌, inl, inr, ℕ, Bool, true, false, ◌||◌, Option, none, some,
  if◌then◌else◌,
}
use go_rabbitmq.Base.Eq.{String_eq}
use go_rabbitmq.Message.{Message}
use go_rabbitmq.Message.Convert.{AmqpDelivery, to_amqp_publishing, from_amqp_delivery}
use go_rabbitmq.Message.Properties.{amqp-back}
use go_rabbitmq.Consumer.Errors.{field}
use go_rabbitmq.Consumer.Process.{decode_message}
use go_rabbitmq.Publisher.Encode.{
  EncodeConfig, apply_compression, then_encrypt, persistent_by_default, encode_message,
}
use go_rabbitmq.Compression.{Format, Compressor}
use go_rabbitmq.Compression.Stages.{IsAlike, IsAlike-trans, persistent_if-IsAlike, Gives}
use go_rabbitmq.Compression.Decoded.{
  Cipher, encrypting, decrypting, IsCipher, IsFormat, compressing, decompressing, is_readable,
  readable, decrypted, decompressed, compressed-field, decode-Gives,
}

-- What decoding leaves, by whether the body can be read: the message `w`, or a failure.
abbrev pub Arrives : Bool → Message → Message × Bool → Type 0
Arrives b w (r, ok) = ((b ≡ true) × (ok ≡ true) × IsAlike w r) ⊎ ((b ≡ false) × (ok ≡ false))

Gives-Arrives :
    (b : Bool) (w m : Message) (p : Message × Bool)
    → IsAlike w m
    → Gives m (if b then some m.body else none) p
    → Arrives b w p
Gives-Arrives true w m (r, ok) h (a, good) = inl (refl, good, IsAlike-trans w m r h a)
Gives-Arrives false w m (r, ok) h bad = inr (refl, bad)

abbrev pub encoding : Bool → ℕ → Format → Compressor → Option Cipher → EncodeConfig
encoding persistent t f c e = record {
  persistent = persistent;
  compressor = some (compressing f c);
  compression_threshold = t;
  encryptor = encrypting e;
}

then_encrypt-Gives :
    (t : ℕ) (f : Format) (c : Compressor) (e : Option Cipher)
    → IsFormat f
    → IsCipher e
    → (m m' r : Message) (o : Option Message) → field "x-encryption" m.headers ≡ none
    → field "x-compression" m.headers ≡ none
    → f.unpack m.body ≡ none
    → apply_compression t (compressing f c) m ≡ o
    → then_encrypt (encrypting e) o ≡ some m'
    → IsAlike m' r
    → Gives m (readable t f c m.body) (decode_message (decrypting e) (some (decompressing f)) r)
then_encrypt-Gives t f c e format cipher m m' r none h k raw i j a = cc
then_encrypt-Gives t f c e format cipher m m' r (some n) h k raw i j a =
    decode-Gives t f c e m n r (readable t f c m.body) _ refl
      (decrypted e cipher n m' r (compressed-field t f c m n "x-encryption" refl i ∙ h) j a)
      (λ s. decompressed t f c format m n s k raw i)

-- A publisher with Gzip or Zlib `c`, the compression threshold `t` and perhaps an encryptor encodes a
-- message that has neither of the two headers and whose body is not itself a stream of the format; the
-- delivery has the properties of the encoded message. If the body is shorter than `t`, or if `c` packs it
-- (it has the length that `c` asks for, and packing makes it shorter), the consumer with the same codecs
-- decodes the message that was sent: body, headers and the rest, with the publisher's persistence. Else
-- decoding fails, since the header says that the body is packed and it is not.
pub compressed_arrival :
    (persistent : Bool) (t : ℕ) (f : Format) (c : Compressor) (e : Option Cipher)
    → IsFormat f
    → IsCipher e
    → (m m' : Message) (d : AmqpDelivery) → field "x-encryption" m.headers ≡ none
    → field "x-compression" m.headers ≡ none
    → f.unpack m.body ≡ none
    → encode_message (encoding persistent t f c e) m ≡ some m'
    → d.properties ≡ to_amqp_publishing m'
    → Arrives
        (is_readable t f c m.body)
        (record m { persistent = persistent || m.persistent })
        (decode_message (decrypting e) (some (decompressing f)) (from_amqp_delivery d))
unfolding encode_message
compressed_arrival persistent t f c e format cipher m m' d h k raw j q =
    let a = persistent_if-IsAlike m persistent m.persistent refl in
    let m0 = persistent_by_default persistent m in
    let same = ap Message.body a.rest in
    subst
      (λ b.
        Arrives (is_readable t f c b) (record m { persistent = persistent || m.persistent })
          (decode_message (decrypting e) (some (decompressing f)) (from_amqp_delivery d)))
      same
      (Gives-Arrives (is_readable t f c m0.body) _ m0 _ a (
        then_encrypt-Gives t f c e format cipher m0 m' (from_amqp_delivery d) _
          (a.fields "x-encryption" ∙ h) (a.fields "x-compression" ∙ k) (ap f.unpack same ∙ raw) refl
          j
          (subst (IsAlike m') (sym (amqp-back m' d q))
            (record { rest = refl; fields = λ k. refl }))))
