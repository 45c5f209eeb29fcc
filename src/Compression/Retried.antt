-- ===== src/Compression/Retried.antt =====
-- publisher.go: what a retry of an encrypted message sends, and what consumer.go reads of it.
use go_rabbitmq.Base.{◌≡◌, sym, ap, ◌∙◌, String, Bool, true, Option, none, some, if◌then◌else◌}
use mathlib.Core.Option.{some-injective}
use go_rabbitmq.Message.{Message}
use go_rabbitmq.Message.Build.{clone}
use go_rabbitmq.Publisher.State.{PublisherConfig}
use go_rabbitmq.Publisher.Encode.{EncodeConfig, encode_message}
use go_rabbitmq.Publisher.Entry.{Request, Prepared}
use go_rabbitmq.Compression.Decoded.{Cipher, encoder}

abbrev pub encrypting_only : Bool → Cipher → EncodeConfig
encrypting_only persistent e = record {
  persistent = persistent;
  compressor = none;
  compression_threshold = 0;
  encryptor = some (encoder e);
}

module _ (enabled : Bool) (exists : Option (String → Bool)) (c : PublisherConfig)
    (k : EncodeConfig) where
  -- What a preparation that went well consists of.
  pub record IsPrepared (q : Request) (p : Prepared) : Type 0 where
    pub message : Message
    pub encoded : encode_message k q.message ≡ some message
    pub body : p.publishing.body ≡ message.body
    pub headers : p.publishing.headers ≡ message.headers
    pub original :
        p.template.original_message
        ≡ (if c.enable_automatic_retries then some (clone message) else none)

  pub original-body :
      (q : Request) (p : Prepared) (kept : Message) (i : IsPrepared q p)
      → c.enable_automatic_retries ≡ true
      → p.template.original_message ≡ some kept
      → kept.body ≡ i.message.body
  unfolding clone
  original-body q p kept i retries h = ap Message.body (
      some-injective kept (clone i.message)
        (sym h ∙ i.original ∙ ap (λ b. if b then some (clone i.message) else none) retries))
