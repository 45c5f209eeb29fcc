-- ===== src/Compression/Stages.antt =====
-- One encoding of publisher.go and the decoding of consumer.go that undoes it.
use go_rabbitmq.Base.{
  ◌≡◌, refl, ap, subst, ◌∙◌, ℕ, String, Bool, true, false, not, ◌&&◌, ◌||◌, Option, none, some,
  List, [], ◌∷◌, if◌then◌else◌, arith,
}
use mathlib.Core.Option.{some-injective}
use go_rabbitmq.Base.Eq.{String_eq}
use go_rabbitmq.Base.Dict.{lookup, lookup-insert, lookup-delete}
use go_rabbitmq.Message.{Value, text, Table, Message}
use go_rabbitmq.Message.Build.{clone, copy_headers, entries_of, with_header}
use go_rabbitmq.Consumer.Errors.{field}
use go_rabbitmq.Consumer.Process.{Codec, drop_header, decoded, decode_header}
use go_rabbitmq.Publisher.Encode.{Encoder, encoded_as, encode_body}

abbrev pub unaddressed : Message → Message
unaddressed m = record m { exchange = ""; routing_key = "" }

-- The same message, apart from its exchange and its routing key, which a delivery does not set, and as far
-- as it can be read: the order of the headers, and whether there are none or no map of them, may differ.
pub record IsAlike (m r : Message) : Type 0 where
  pub rest : unaddressed r ≡ unaddressed (record m { headers = r.headers })
  pub fields : (k : String) → field k r.headers ≡ field k m.headers

pub IsAlike-refl : (m : Message) → IsAlike m m
IsAlike-refl m = record { rest = refl; fields = λ k. refl }

pub IsAlike-trans : (m n r : Message) → IsAlike m n → IsAlike n r → IsAlike m r
IsAlike-trans m n r a b = record {
  rest = b.rest ∙ ap (λ (s : Message). record s { headers = r.headers }) a.rest;
  fields = λ k. b.fields k ∙ a.fields k;
}

lookup-copy_headers :
    (k : String) (t : List (String × Value)) → lookup k (copy_headers t []) ≡ lookup k t
unfolding lookup copy_headers
lookup-copy_headers k [] = refl
lookup-copy_headers k ((j, v) ∷ t) =
    lookup-insert j k v (copy_headers t [])
    ∙ ap (λ o. if String_eq.beq j k then some v else o) (lookup-copy_headers k t)

field-copied : (k : String) (t : Table) → lookup k (copy_headers (entries_of t) []) ≡ field k t
unfolding lookup
field-copied k none = lookup-copy_headers k []
field-copied k (some t) = lookup-copy_headers k t

pub clone-IsAlike : (m : Message) → IsAlike m (clone m)
unfolding clone
clone-IsAlike m = record { rest = refl; fields = λ k. field-copied k m.headers }

field-drop_header :
    (header k : String) (t : Table)
    → field k (drop_header header t) ≡ (if String_eq.beq header k then none else field k t)
field-drop_header header k none = ground arith
field-drop_header header k (some t) = lookup-delete header k t

-- `m'` is `m` with the body `x` that the encoder made, and its name in the header.
pub record IsEncoded (header : String) (c : Encoder) (m m' : Message) (x : List ℕ) : Type 0 where
  pub encoded : c.encode m.body ≡ some x
  pub rest : m' ≡ record m { body = x; headers = m'.headers }
  pub fields :
      (k : String)
      → field k m'.headers
        ≡ (if String_eq.beq header k then some (text c.algorithm) else field k m.headers)

encoded_as-IsEncoded :
    (header : String) (c : Encoder) (m m' : Message) (o : Option (List ℕ))
    → c.encode m.body ≡ o
    → encoded_as header c.algorithm m o ≡ some m'
    → (x : List ℕ) × IsEncoded header c m m' x
unfolding clone with_header
encoded_as-IsEncoded header c m m' none e h = cc
encoded_as-IsEncoded header c m m' (some x) e h = (
  x,
  subst (λ n. IsEncoded header c m n x) (some-injective _ _ h)
      (record {
        encoded = e;
        rest = refl;
        fields = λ k.
            lookup-insert header k (text c.algorithm) (copy_headers (entries_of m.headers) [])
            ∙ ap (λ o. if String_eq.beq header k then some (text c.algorithm) else o)
                (field-copied k m.headers);
      }),
)

pub encode_body-IsEncoded :
    (header : String) (c : Encoder) (m m' : Message)
    → encode_body header c m ≡ some m'
    → (x : List ℕ) × IsEncoded header c m m' x
encode_body-IsEncoded header c m m' h = encoded_as-IsEncoded header c m m' (c.encode m.body) refl h

-- What decoding leaves of a message: the body `o`, or a failure.
abbrev pub Gives : Message → Option (List ℕ) → Message × Bool → Type 0
Gives m none (r, ok) = ok ≡ false
Gives m (some body) (r, ok) = IsAlike (record m { body = body }) r × (ok ≡ true)

-- A message without the header passes as it is.
pub decode_header-unmarked :
    (header : String) (c : Codec) (m r : Message)
    → field header m.headers ≡ none
    → IsAlike m r
    → decode_header header c r (field header r.headers) ≡ (r, true)
decode_header-unmarked header c m r h a = rw (a.fields header, h) refl

decoded-Gives :
    (header : String) (c : Encoder) (m m' r : Message) (x : List ℕ) (o : Option (List ℕ))
    → field header m.headers ≡ none
    → IsEncoded header c m m' x
    → IsAlike m' r
    → Gives m o (decoded header r o)
decoded-Gives header c m m' r x none h e a = refl
decoded-Gives header c m m' r x (some body) h e a = (
  record {
    rest =
        ap (λ (n : Message). record n { body = body; headers = drop_header header r.headers })
          a.rest
        ∙ ap
            (λ (n : Message).
              unaddressed (record n { body = body; headers = drop_header header r.headers }))
            e.rest;
    fields = λ k.
        field-drop_header header k r.headers
        ∙ ground (arith, a.fields k, e.fields k, h, String_eq.beq_iff header k);
  },
  refl,
)

pub mark-read :
    (header : String) (c : Encoder) (m m' r : Message) (x : List ℕ)
    → IsEncoded header c m m' x
    → IsAlike m' r
    → field header r.headers ≡ some (text c.algorithm)
mark-read header c m m' r x e a =
    a.fields header
    ∙ e.fields header
    ∙ ap (λ b. if b then some (text c.algorithm) else field header m.headers)
        ((String_eq.beq_iff header header).1 refl)

body-read :
    (header : String) (c : Encoder) (m m' r : Message) (x : List ℕ)
    → IsEncoded header c m m' x
    → IsAlike m' r
    → r.body ≡ x
body-read header c m m' r x e a = ap Message.body a.rest ∙ ap Message.body e.rest

pub decode_header-Gives :
    (header : String) (c : Encoder) (d : Codec) (m m' r : Message) (x : List ℕ)
    → c.algorithm ≡ d.algorithm
    → field header m.headers ≡ none
    → IsEncoded header c m m' x
    → IsAlike m' r
    → Gives m (d.decode x) (decode_header header d r (field header r.headers))
decode_header-Gives header c d m m' r x same h e a =
    subst (λ b. Gives m (d.decode b) (decode_header header d r (field header r.headers)))
      (body-read header c m m' r x e a)
      (rw (mark-read header c m m' r x e a, (String_eq.beq_iff c.algorithm d.algorithm).1 same)
        (decoded-Gives header c m m' r x (d.decode r.body) h e a))

-- The default of the persistence.
pub persistent_if-IsAlike :
    (m : Message) (p b : Bool)
    → m.persistent ≡ b
    → IsAlike
        (record m { persistent = p || b })
        (if p && not b then record (clone m) { persistent = true } else m)
persistent_if-IsAlike m true true h =
    subst (λ b. IsAlike (record m { persistent = b }) m) h (IsAlike-refl m)
persistent_if-IsAlike m true false h =
    let a = clone-IsAlike m in
    record { rest = ap (λ (n : Message). record n { persistent = true }) a.rest; fields = a.fields }
persistent_if-IsAlike m false b h =
    subst (λ b. IsAlike (record m { persistent = b }) m) h (IsAlike-refl m)
