-- ===== src/Compression/Decoded.antt =====
-- The decoding of consumer.go after both encodings of publisher.go.
use go_rabbitmq.Base.{
  ◌≡◌, refl, sym, ap, subst, ◌∙◌, ℕ, String, Bool, true, false, not, ◌&&◌, ◌||◌, Option, none, some,
  List, length, ltb, if◌then◌else◌, arith,
}
use mathlib.Core.Option.{some-injective}
use go_rabbitmq.Base.Int.{ℤ}
use go_rabbitmq.Base.Eq.{String_eq}
use go_rabbitmq.Message.{Message}
use go_rabbitmq.Consumer.Errors.{field}
use go_rabbitmq.Consumer.Process.{
  Codec, decode_header, apply_decryption, apply_decompression, if_configured, decode_message,
}
use go_rabbitmq.Publisher.Encode.{
  Encoder, encode_body, apply_compression, apply_encryption, if_given,
}
use go_rabbitmq.Compression.{Format, Compressor, smaller, compress, decompress}
use go_rabbitmq.Compression.Stages.{
  IsAlike, Gives, encode_body-IsEncoded, decode_header-Gives, decode_header-unmarked,
}

-- The interface MessageEncryptor.
pub record Cipher : Type 0 where
  pub algorithm : String
  pub encrypt : List ℕ → Option (List ℕ)
  pub decrypt : List ℕ → Option (List ℕ)

abbrev pub encoder : Cipher → Encoder
encoder c = record { algorithm = c.algorithm; encode = c.encrypt }

abbrev pub decoder : Cipher → Codec
decoder c = record { algorithm = c.algorithm; decode = c.decrypt }

abbrev pub encrypting : Option Cipher → Option Encoder
encrypting none = none
encrypting (some c) = some (encoder c)

abbrev pub decrypting : Option Cipher → Option Codec
decrypting none = none
decrypting (some c) = some (decoder c)

-- What is encrypted is decrypted again.
abbrev pub IsCipher : Option Cipher → Type 0
IsCipher o =
    (c : Cipher) → o ≡ some c → (b x : List ℕ) → c.encrypt b ≡ some x → c.decrypt x ≡ some b

-- What the standard library documents: a reader gives what the writer took.
abbrev pub IsFormat : Format → Type 0
IsFormat f = (level : ℤ) (b x : List ℕ) → f.pack level b ≡ some x → f.unpack x ≡ some b

abbrev pub compressing : Format → Compressor → Encoder
compressing f c = record { algorithm = f.algorithm; encode = compress f c }

abbrev pub decompressing : Format → Codec
decompressing f = record { algorithm = f.algorithm; decode = decompress f }

abbrev pub shrinks : ℕ → Option (List ℕ) → Bool
shrinks n none = false
shrinks n (some packed) = ltb (length packed) n

-- Whether the compressor packs the body.
abbrev pub is_packed : Format → Compressor → List ℕ → Bool
is_packed f c b = not (ltb (length b) c.threshold) && shrinks (length b) (f.pack c.level b)

smaller-unpack :
    (f : Format) (b x : List ℕ) (o : Option (List ℕ))
    → ((p : List ℕ) → o ≡ some p → f.unpack p ≡ some b)
    → f.unpack b ≡ none
    → smaller b o ≡ some x
    → f.unpack x ≡ (if shrinks (length b) o then some b else none)
smaller-unpack f b x none h raw e = cc
smaller-unpack f b x (some p) h raw e = ground (arith, h p refl)

-- What comes out of the compressor is read again if it was packed, and else refused.
compress-decompress :
    (f : Format) (c : Compressor)
    → IsFormat f
    → (b x : List ℕ) → f.unpack b ≡ none
    → compress f c b ≡ some x
    → decompress f x ≡ (if is_packed f c b then some b else none)
unfolding compress decompress
compress-decompress f c law b x raw e =
    ground (arith, smaller-unpack f b x (f.pack c.level b) (law c.level b) raw)

pub decrypted :
    (e : Option Cipher)
    → IsCipher e
    → (m m' r : Message) → field "x-encryption" m.headers ≡ none
    → if_given apply_encryption (encrypting e) m ≡ some m'
    → IsAlike m' r
    → Gives m (some m.body) (if_configured apply_decryption (decrypting e) r)
unfolding apply_encryption apply_decryption
decrypted none law m m' r h e a = (subst (λ n. IsAlike n r) (sym (some-injective m m' e)) a, refl)
decrypted (some c) law m m' r h e a =
    let (x, i) = encode_body-IsEncoded "x-encryption" (encoder c) m m' e in
    subst
      (λ o. Gives m o (decode_header "x-encryption" (decoder c) r (field "x-encryption" r.headers)))
      (law c refl m.body x i.encoded)
      (decode_header-Gives "x-encryption" (encoder c) (decoder c) m m' r x refl h i a)

module _ (t : ℕ) (f : Format) (c : Compressor) where
  -- Whether the body is sent as it is, without the header, or packed.
  abbrev pub is_readable : List ℕ → Bool
  is_readable b = ltb (length b) t || is_packed f c b

  abbrev pub readable : List ℕ → Option (List ℕ)
  readable b = if is_readable b then some b else none

  decompressed_if :
      IsFormat f
      → (m m' r : Message) (b : Bool) → field "x-compression" m.headers ≡ none
      → f.unpack m.body ≡ none
      → (if b then some m else encode_body "x-compression" (compressing f c) m) ≡ some m'
      → IsAlike m' r
      → Gives m
          (if b || is_packed f c m.body then some m.body else none)
          (decode_header "x-compression" (decompressing f) r (field "x-compression" r.headers))
  decompressed_if law m m' r true h raw e a =
      let same = subst (λ n. IsAlike n r) (sym (some-injective m m' e)) a in
      subst (Gives m (some m.body))
        (sym (decode_header-unmarked "x-compression" (decompressing f) m r h same)) (same, refl)
  decompressed_if law m m' r false h raw e a =
      let (x, i) = encode_body-IsEncoded "x-compression" (compressing f c) m m' e in
      subst
        (λ o.
          Gives m o
            (decode_header "x-compression" (decompressing f) r (field "x-compression" r.headers)))
        (compress-decompress f c law m.body x raw i.encoded)
        (decode_header-Gives "x-compression" (compressing f c) (decompressing f) m m' r x refl h i
          a)

  pub decompressed :
      IsFormat f
      → (m m' r : Message) → field "x-compression" m.headers ≡ none
      → f.unpack m.body ≡ none
      → apply_compression t (compressing f c) m ≡ some m'
      → IsAlike m' r
      → Gives m (readable m.body) (apply_decompression (decompressing f) r)
  unfolding apply_compression apply_decompression
  decompressed law m m' r = decompressed_if law m m' r (ltb (length m.body) t)

  -- Compression leaves the header of the encryption alone.
  compressed-field_if :
      (m m' : Message) (k : String) (b : Bool)
      → String_eq.beq "x-compression" k ≡ false
      → (if b then some m else encode_body "x-compression" (compressing f c) m) ≡ some m'
      → field k m'.headers ≡ field k m.headers
  compressed-field_if m m' k true d e =
      ap (λ n. field k (Message.headers n)) (sym (some-injective m m' e))
  compressed-field_if m m' k false d e =
      let (x, i) = encode_body-IsEncoded "x-compression" (compressing f c) m m' e in
      i.fields k ∙ rw (d) refl

  pub compressed-field :
      (m m' : Message) (k : String)
      → String_eq.beq "x-compression" k ≡ false
      → apply_compression t (compressing f c) m ≡ some m'
      → field k m'.headers ≡ field k m.headers
  unfolding apply_compression
  compressed-field m m' k = compressed-field_if m m' k (ltb (length m.body) t)

  pub decode-Gives :
      (e : Option Cipher) (m m' r : Message) (o : Option (List ℕ)) (p : Message × Bool)
      → if_configured apply_decryption (decrypting e) r ≡ p
      → Gives m' (some m'.body) p
      → ((s : Message) → IsAlike m' s → Gives m o (apply_decompression (decompressing f) s))
      → Gives m o (decode_message (decrypting e) (some (decompressing f)) r)
  unfolding decode_message
  decode-Gives e m m' r o (s, ok) same (a, good) next = rw (same, good) (next s a)
